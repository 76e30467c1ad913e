-- ===== src/Flags/Sound.antt =====
-- internal/transport/imapclient/flags.go: what a change of flags that succeeds has shown, and the
-- changes that are left over.
use mail_cli.Common.{◌≡◌, refl, true, ◌==◌, length}
use mail_cli.Common.{none, some, List, [], ◌∷◌, Bytes, if◌then◌else◌, arith, inl, inr}
use mail_cli.Common.{Bool-cases, All, ◌⊎◌, bytes_equal, bytes_equal→eq, bytes_equal_refl}
use mail_cli.Flags.{
  FlagLibrary, FlagChanges, contains_flag, has_all, has_none, flags_match_changes, missing_flags,
  present_flags, pending, touches_junk,
}
use mail_cli.Common.{◌≢◌, false}
use mail_cli.Flags.Commands.{MutationEvidence, Session, completed, observed}
use mail_cli.Flags.Replies.{Seen}
use mail_cli.Flags.Proof.{observed_flags-Seen}
use mail_cli.Flags.Success.{success_observed}
use mail_cli.Flags.Store.{
  Result, complete_flag_result, final_result, set_flags_and_verify, run_phase, prepare_flag_changes,
  is_empty, additions, removals,
}

module _ (lib : FlagLibrary) where
  has_all-missing :
      (actual fs : List Bytes) → has_all lib actual fs ≡ (length (missing_flags lib actual fs) == 0)
  unfolding has_all missing_flags
  has_all-missing actual [] = refl
  has_all-missing actual (f ∷ fs) = ground (arith, has_all-missing actual fs)

  has_none-present :
      (actual fs : List Bytes)
      → has_none lib actual fs ≡ (length (present_flags lib actual fs) == 0)
  unfolding has_none present_flags
  has_none-present actual [] = refl
  has_none-present actual (f ∷ fs) = ground (arith, has_none-present actual fs)

  -- The flags match the changes exactly when no change is pending against them.
  pub flags_match-pending :
      (c : FlagChanges) (actual : List Bytes)
      → flags_match_changes lib actual c.add c.remove ≡ is_empty lib (pending lib c actual)
  unfolding flags_match_changes pending
  flags_match-pending c actual =
      ground (arith, has_all-missing actual c.add, has_none-present actual c.remove)

  -- A flag of the list is this one up to letter case.
  unfoldable pub Held : List Bytes → Bytes → Type 0
  Held [] f = ⊥
  Held (g ∷ gs) f = (lib.fold g ≡ lib.fold f) ⊎ Held gs f

  contains_flag→Held :
      (flags : List Bytes) (f : Bytes) → contains_flag lib flags f ≡ true → Held flags f
  unfolding contains_flag Held
  contains_flag→Held [] f h = cc
  contains_flag→Held (g ∷ gs) f h = elim (Bool-cases (bytes_equal (lib.fold g) (lib.fold f))) [
    | inl e ↦ inl (bytes_equal→eq (lib.fold g) (lib.fold f) e)
    | inr e ↦ inr (contains_flag→Held gs f (rw e at h))
  ]

  Held→contains_flag :
      (flags : List Bytes) (f : Bytes) → Held flags f → contains_flag lib flags f ≡ true
  unfolding contains_flag Held
  Held→contains_flag [] f h = elim h [ ]
  Held→contains_flag (g ∷ gs) f (inl e) = rw (e, bytes_equal_refl (lib.fold f)) refl
  Held→contains_flag (g ∷ gs) f (inr h) = ground (arith, Held→contains_flag gs f h)

  has_all-Held : (flags fs : List Bytes) → has_all lib flags fs ≡ true → All (Held flags) fs
  unfolding has_all
  has_all-Held flags [] h = tt
  has_all-Held flags (f ∷ fs) h =
      (contains_flag→Held flags f (ground arith), has_all-Held flags fs (ground arith))

  has_none-Held :
      (flags fs : List Bytes) → has_none lib flags fs ≡ true → All (λ f. ¬ (Held flags f)) fs
  unfolding has_none
  has_none-Held flags [] h = tt
  has_none-Held flags (f ∷ fs) h = (
    λ held. ground (arith, Held→contains_flag flags f held),
    has_none-Held flags fs (ground arith),
  )

  -- Every flag to add is there up to letter case, and no flag to remove is.
  abbrev pub Applied : FlagChanges → List Bytes → Type 0
  Applied c actual = All (Held actual) c.add × All (λ f. ¬ (Held actual f)) c.remove

  matched-Applied :
      (c : FlagChanges) (actual : List Bytes)
      → flags_match_changes lib actual c.add c.remove ≡ true
      → Applied c actual
  unfolding flags_match_changes
  matched-Applied c actual h =
      (has_all-Held actual c.add (ground arith), has_none-Held actual c.remove (ground arith))

  Success : FlagChanges → Result → Type 0
  Success c r = r.0.1 ≡ none → (r.0.0.outcome ≡ completed) × Applied c r.0.0.actual_flags

  final-Success : (c : FlagChanges) (r : Result) → Success c (final_result lib c r)
  unfolding final_result complete_flag_result Success
  final-Success c ((ev, some e), s) h = cc
  final-Success c ((ev, none), s) h =
      elim (Bool-cases (flags_match_changes lib ev.actual_flags c.add c.remove)) [
        | inl e ↦ rw e (refl, matched-Applied c ev.actual_flags e)
        | inr e ↦ cc (rw e at h)
      ]

  finished :
      (ev : MutationEvidence) (c : FlagChanges) (s : Session)
      → let r = set_flags_and_verify lib ev c s in
        r.0.1 ≡ none → (r.0.0.outcome ≡ completed) × Applied c r.0.0.actual_flags
  unfolding set_flags_and_verify Success
  finished ev c s h =
      let (start, needed) = prepare_flag_changes lib ev c s in
      final-Success c
        (if touches_junk lib c
          then run_phase lib (additions lib needed) (run_phase lib (removals lib needed) start)
          else run_phase lib (removals lib needed) (run_phase lib (additions lib needed) start))
        h

  -- Where a change with flags in it starts without observed flags and returns no error, it is completed;
  -- up to letter case every flag to add is among the flags in its evidence, and no flag to remove is; and
  -- these flags are those of a FETCH line for the message in an answer of the server.
  pub set_flags_success :
      (ev : MutationEvidence) (c : FlagChanges) (s : Session)
      → ev.flags_state ≢ observed
      → is_empty lib c ≡ false
      → let r = set_flags_and_verify lib ev c s in
        r.0.1 ≡ none
        → (r.0.0.outcome ≡ completed)
          × Applied c r.0.0.actual_flags
          × Seen ev.uid r.0.0.actual_flags s.replies
  set_flags_success ev c s fresh some_flags h =
      let (done, applied) = finished ev c s h in
      (
        done,
        applied,
        observed_flags-Seen lib ev c s fresh (success_observed lib ev c s some_flags h),
      )
