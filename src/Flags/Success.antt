-- ===== src/Flags/Success.antt =====
-- internal/transport/imapclient/flags.go: a change of flags returns no error only after it has observed
-- the flags.
use mail_cli.Common.{◌≡◌, refl, Bool, true, false, not, ◌⊎◌, inl, inr, arith, Bool-cases}
use mail_cli.Common.{Option, none, some, if◌then◌else◌}
use mail_cli.Errors.{Failure}
use mail_cli.Flags.{FlagLibrary, FlagChanges, flags_match_changes, pending, touches_junk}
use mail_cli.Flags.Observe.{FlagObservation}
use mail_cli.Flags.Replies.{by_test, by_failure}
use mail_cli.Flags.Commands.{
  fetch_flags, store_flags, FlagCommandResult, MutationEvidence, FlagsState, unset, observed,
  missing, unverified, Session, Status, run_command, next_reply, from_store, from_fetch,
  plain_error,
}
use mail_cli.Flags.Store.{
  Result, Prepared, with_flag_observation, is_observed, is_missing, needs_look, no_permission,
  judge, judge_fetch, verify_flag_result, narrowed, looked, prepare_flag_changes,
  rejected_flag_result, store_failed, phase_result, stored, perform_flag_change, run_phase,
  final_result, set_flags_and_verify, is_refusal, is_not_started, is_partial, is_empty,
  attempted_store, missing_flag_result, unknown_flag_result, complete_flag_result,
  flag_preflight_failure, unsupported_flag_result, additions, removals,
}

-- Without an error the flags are observed.
unfoldable Sure : Result → Type 0
Sure r = r.0.1 ≡ none → r.0.0.flags_state ≡ observed

module _ (lib : FlagLibrary) where
  is_observed-eq : (s : FlagsState) → is_observed lib s ≡ true → s ≡ observed
  is_observed-eq observed h = refl
  is_observed-eq unset h = cc
  is_observed-eq missing h = cc
  is_observed-eq unverified h = cc

  module _ (c : FlagChanges) where
    complete-Sure :
        (ev : MutationEvidence) (s : Session)
        → ev.flags_state ≡ observed
        → Sure (complete_flag_result lib ev c s)
    unfolding complete_flag_result Sure
    complete-Sure ev s o =
        by_test Sure (not (flags_match_changes lib ev.actual_flags c.add c.remove)) (λ h. o)
          (λ h. o)

    unknown-Sure :
        (ev : MutationEvidence) (e : Failure) (s : Session) → Sure (unknown_flag_result ev e s)
    unfolding unknown_flag_result Sure
    unknown-Sure ev e s h = cc

    missing-Sure : (ev : MutationEvidence) (s : Session) → Sure (missing_flag_result ev s)
    unfolding missing_flag_result Sure
    missing-Sure ev s h = cc

    judge-Sure :
        (ev : MutationEvidence) (o : FlagObservation) (s : Session) → Sure (judge lib ev o c s)
    unfolding judge
    judge-Sure ev o s =
        let seen = with_flag_observation ev o in
        by_test Sure (is_missing lib seen.flags_state) (missing-Sure seen s)
          (by_state (is_observed lib seen.flags_state) (is_observed-eq seen.flags_state))
      where
        by_state :
            (b : Bool)
            → (b ≡ true → (with_flag_observation ev o).flags_state ≡ observed)
            → Sure (
                if not b
                then unknown_flag_result (with_flag_observation ev o) plain_error s
                else complete_flag_result lib (with_flag_observation ev o) c s)
        by_state true h = complete-Sure (with_flag_observation ev o) s (h refl)
        by_state false h = unknown-Sure (with_flag_observation ev o) plain_error s

    judge_fetch-Sure :
        (ev : MutationEvidence) (r : FlagCommandResult) (s : Session)
        → Sure (judge_fetch lib ev c r s)
    judge_fetch-Sure ev r s =
        by_failure Sure r.failure (λ e. unknown-Sure ev e s) (λ e. judge-Sure ev r.observation s)

    verify-Sure :
        (ev : MutationEvidence) (o : FlagObservation) (s : Session)
        → Sure (verify_flag_result lib ev o c s)
    unfolding verify_flag_result
    verify-Sure ev o s =
        let (result, after) = run_command ev.uid fetch_flags s in
        by_test Sure o.missing (missing-Sure (record ev { flags_source = from_store }) s) (
          by_test Sure (not o.observed)
            (judge_fetch-Sure (record ev { flags_source = from_fetch }) result after)
            (judge-Sure (record ev { flags_source = from_store }) o s))

    rejected-Sure :
        (ev : MutationEvidence) (b : Bool) (x : Failure) (s : Session)
        → Sure (rejected_flag_result lib ev b x s)
    unfolding rejected_flag_result Sure
    rejected-Sure ev b x s =
        by_failure Sure (run_command ev.uid fetch_flags s).0.failure (λ y h. cc) (λ e h. cc)

    store_failed-Sure :
        (ev : MutationEvidence) (b : Bool) (status : Option Status) (x : Failure) (s : Session)
        → Sure (store_failed lib ev b status x s)
    unfolding store_failed Sure flag_preflight_failure
    store_failed-Sure ev b status x s =
        by_test Sure (is_refusal lib status) (rejected-Sure ev b x s) (
          by_test Sure (is_not_started lib ev.outcome) (λ h. cc)
            (by_test Sure (is_partial lib ev.outcome) (λ h. cc) (unknown-Sure ev x s)))

    phase_result-Sure : (r : Result) → Sure r → Sure (phase_result lib c r)
    unfolding phase_result Sure unsupported_flag_result
    phase_result-Sure ((ev, some e), s) h = h
    phase_result-Sure ((ev, none), s) h =
        by_test Sure (no_permission lib ev s.permissions c) (λ i. cc) (λ i. h refl)

    stored-Sure :
        (ev : MutationEvidence) (b : Bool) (r : FlagCommandResult) (s : Session)
        → Sure (stored lib ev b c r s)
    unfolding stored
    stored-Sure ev b r s =
        by_failure Sure r.failure (λ e. store_failed-Sure ev b r.status e s)
          (λ e.
            phase_result-Sure (verify_flag_result lib ev r.observation c s)
              (verify-Sure ev r.observation s))

    perform-Sure : (ev : MutationEvidence) (s : Session) → Sure (perform_flag_change lib ev c s)
    unfolding perform_flag_change
    perform-Sure ev s =
        let (result, after) = run_command ev.uid (store_flags c) s in
        stored-Sure (attempted_store lib (next_reply s.replies) ev) (is_partial lib ev.outcome)
          result after

    -- A phase that has flags to change.
    phase_made : (r : Result) → is_empty lib c ≡ false → Sure (run_phase lib c r)
    unfolding run_phase Sure unsupported_flag_result
    phase_made ((ev, some e), s) some_flags = λ h. cc
    phase_made ((ev, none), s) some_flags =
        rw some_flags
          (by_test Sure (no_permission lib ev s.permissions c) (λ h. cc) (perform-Sure ev s))

    phase_kept : (r : Result) → Sure r → Sure (run_phase lib c r)
    unfolding run_phase Sure unsupported_flag_result
    phase_kept ((ev, some e), s) q = λ h. cc
    phase_kept ((ev, none), s) q =
        by_test Sure (is_empty lib c) q
          (by_test Sure (no_permission lib ev s.permissions c) (λ h. cc) (perform-Sure ev s))

    final-Sure : (r : Result) → Sure r → Sure (final_result lib c r)
    unfolding final_result Sure
    final-Sure ((ev, some e), s) q = λ h. cc
    final-Sure ((ev, none), s) q = complete-Sure ev s (q refl)

    -- Before the first STORE the flags are observed, or the whole change is still to be made.
    Start : Prepared lib → Type 0
    Start p = Sure p.0 ⊎ (p.1 ≡ c)

    narrowed-Start : (ev : MutationEvidence) (s : Session) → Start (narrowed lib ev c s)
    unfolding narrowed Start Sure unsupported_flag_result
    narrowed-Start ev s = by_state (is_observed lib ev.flags_state) (is_observed-eq ev.flags_state)
      where
        by_state :
            (b : Bool)
            → (b ≡ true → ev.flags_state ≡ observed)
            → Start (
                let needed = if b then pending lib c ev.actual_flags else c in
                if no_permission lib ev s.permissions needed
                then (unsupported_flag_result ev s, needed)
                else (((ev, none), s), needed))
        by_state true h =
            by_test Start (no_permission lib ev s.permissions (pending lib c ev.actual_flags))
              (inl (λ i. h refl)) (inl (λ i. h refl))
        by_state false h =
            by_test Start (no_permission lib ev s.permissions c) (inr refl) (inr refl)

    looked-Start :
        (ev : MutationEvidence) (r : FlagCommandResult) (s : Session) → Start (looked lib ev c r s)
    unfolding looked Start Sure flag_preflight_failure
    looked-Start ev r s =
        let seen = with_flag_observation ev r.observation in
        by_failure Start r.failure (λ e. inl (λ h. cc))
          (λ e.
            by_test Start (not (is_observed lib seen.flags_state)) (inl (λ h. cc))
              (narrowed-Start seen s))

    prepare-Start : (ev : MutationEvidence) (s : Session) → Start (prepare_flag_changes lib ev c s)
    unfolding prepare_flag_changes
    prepare-Start ev s =
        let (result, after) = run_command ev.uid fetch_flags s in
        by_test Start (needs_look lib ev c s.permissions)
          (looked-Start (record ev { flags_source = from_fetch }) result after)
          (narrowed-Start ev s)

  both_phases :
      (p q : FlagChanges) (r : Result)
      → Sure r ⊎ ((is_empty lib p ≡ false) ⊎ (is_empty lib q ≡ false))
      → Sure (run_phase lib q (run_phase lib p r))
  both_phases p q r (inl sure) = phase_kept q (run_phase lib p r) (phase_kept p r sure)
  both_phases p q r (inr (inl first)) = phase_kept q (run_phase lib p r) (phase_made p r first)
  both_phases p q r (inr (inr second)) = phase_made q (run_phase lib p r) second

  half_empty :
      (c : FlagChanges)
      → is_empty lib c ≡ false
      → (is_empty lib (additions lib c) ≡ false) ⊎ (is_empty lib (removals lib c) ≡ false)
  half_empty c h = elim (Bool-cases (is_empty lib (additions lib c))) [
    | inr e ↦ inl e
    | inl e ↦ inr (ground arith)
  ]

  swap : {A B : Type 0} → A ⊎ B → B ⊎ A
  swap (inl a) = inr a
  swap (inr b) = inl b

  -- A change with flags in it returns no error only after they were observed.
  pub success_observed :
      (ev : MutationEvidence) (c : FlagChanges) (s : Session)
      → is_empty lib c ≡ false
      → let r = set_flags_and_verify lib ev c s in r.0.1 ≡ none → r.0.0.flags_state ≡ observed
  unfolding set_flags_and_verify Sure Start
  success_observed ev c s some_flags =
      by_start (prepare_flag_changes lib ev c s) (prepare-Start c ev s)
    where
      work :
          (p : Prepared lib)
          → Start c p
          → Sure p.0
            ⊎ ((is_empty lib (additions lib p.1) ≡ false)
                ⊎ (is_empty lib (removals lib p.1) ≡ false))
      work p (inl sure) = inl sure
      work p (inr same) = inr (rw same (half_empty c some_flags))

      mirrored :
          (p : Prepared lib)
          → Start c p
          → Sure p.0
            ⊎ ((is_empty lib (removals lib p.1) ≡ false)
                ⊎ (is_empty lib (additions lib p.1) ≡ false))
      mirrored p (inl sure) = inl sure
      mirrored p (inr same) = inr (rw same (swap (half_empty c some_flags)))

      by_start :
          (p : Prepared lib)
          → Start c p
          → Sure (
              final_result lib c (
                if touches_junk lib c
                then run_phase lib (additions lib p.1) (run_phase lib (removals lib p.1) p.0)
                else run_phase lib (removals lib p.1) (run_phase lib (additions lib p.1) p.0)))
      by_start p h =
          final-Sure c
            (if touches_junk lib c
              then run_phase lib (additions lib p.1) (run_phase lib (removals lib p.1) p.0)
              else run_phase lib (removals lib p.1) (run_phase lib (additions lib p.1) p.0))
            (by_test Sure (touches_junk lib c)
              (both_phases (removals lib p.1) (additions lib p.1) p.0 (mirrored p h))
              (both_phases (additions lib p.1) (removals lib p.1) p.0 (work p h)))
