-- ===== src/Flags/Proof.antt =====
-- internal/transport/imapclient/flags.go: where the flags in the evidence of a change come from.
use mail_cli.Common.{ℕ, ◌≡◌, ◌≢◌, refl, Bool, true, not, ◌||◌, if◌then◌else◌}
use mail_cli.Common.{Option, none, some, List, Bytes, inl, inr, Bool-cases, Option-cases}
use mail_cli.Errors.{Failure}
use mail_cli.Flags.{FlagLibrary, FlagChanges, flags_match_changes, pending, touches_junk}
use mail_cli.Flags.Observe.{FlagObservation}
use mail_cli.Flags.Commands.{
  Reply, undelivered, unanswered, answered, Status, Session, store_flags, fetch_flags,
  FlagCommandResult, MutationEvidence, observed, run_command, next_reply, code_error, plain_error,
  from_store, from_fetch, partial_done, rejected, unknown,
}
use mail_cli.Flags.Store.{
  Result, with_flag_observation, is_observed, is_missing, needs_look, no_permission,
  unavailable_code, judge_fetch, judge, verify_flag_result, narrowed, looked, prepare_flag_changes,
  Prepared, rejected_flag_result, store_failed, phase_result, stored, perform_flag_change,
  run_phase, final_result, set_flags_and_verify, is_refusal, is_not_started, is_partial, is_empty,
  attempted_store, missing_flag_result, unknown_flag_result, complete_flag_result,
  flag_preflight_failure, unsupported_flag_result, additions, removals,
}
use mail_cli.Flags.Replies.{Seen, Tail, Proved, run, by_test, by_failure}

module _ (uid : ℕ) (S : List Bytes → Type 0) where
  Good : MutationEvidence → Type 0
  Good ev = (ev.uid ≡ uid) × (ev.flags_state ≡ observed → S ev.actual_flags)

  Fine : Result → Type 0
  Fine r = Good r.0.0 × Tail uid S r.1

  with-Good :
      (ev : MutationEvidence) (o : FlagObservation)
      → ev.uid ≡ uid
      → (o.observed ≡ true → S o.flags)
      → Good (with_flag_observation ev o)
  unfolding Good with_flag_observation
  with-Good ev o u h = elim (Bool-cases (o.missing || not o.seen_uid)) [
    | inl e ↦ rw e (u, λ i. cc)
    | inr e ↦ elim (Bool-cases o.observed) [
      | inl f ↦ rw e (rw f (u, λ i. h f))
      | inr f ↦ rw e (rw f (u, λ i. cc))
    ]
  ]

  unknown-Fine :
      (ev : MutationEvidence) (e : Failure) (s : Session)
      → ev.uid ≡ uid
      → Tail uid S s
      → Fine (unknown_flag_result ev e s)
  unfolding Good Fine unknown_flag_result
  unknown-Fine ev e s u t = ((u, λ i. cc), t)

  missing-Fine :
      (ev : MutationEvidence) (s : Session)
      → ev.uid ≡ uid
      → Tail uid S s
      → Fine (missing_flag_result ev s)
  unfolding Good Fine missing_flag_result
  missing-Fine ev s u t = ((u, λ i. cc), t)

  failing-Fine :
      (ev : MutationEvidence) (e : Failure) (s : Session)
      → Good ev
      → Tail uid S s
      → Fine (flag_preflight_failure ev e s)
  unfolding Fine flag_preflight_failure
  failing-Fine ev e s g t = (g, t)

  unsupported-Fine :
      (ev : MutationEvidence) (s : Session)
      → Good ev
      → Tail uid S s
      → Fine (unsupported_flag_result ev s)
  unfolding Fine unsupported_flag_result
  unsupported-Fine ev s g t = (g, t)

  module _ (lib : FlagLibrary) (c : FlagChanges) where
    complete-Fine :
        (ev : MutationEvidence) (s : Session)
        → Good ev
        → Tail uid S s
        → Fine (complete_flag_result lib ev c s)
    unfolding Fine Good complete_flag_result
    complete-Fine ev s g t =
        elim (Bool-cases (flags_match_changes lib ev.actual_flags c.add c.remove)) [
          | inl e ↦ rw e (g, t)
          | inr e ↦ rw e (g, t)
        ]

    judge-Fine :
        (ev : MutationEvidence) (o : FlagObservation) (s : Session)
        → ev.uid ≡ uid
        → (o.observed ≡ true → S o.flags)
        → Tail uid S s
        → Fine (judge lib ev o c s)
    unfolding judge Good
    judge-Fine ev o s u h t =
        let seen = with_flag_observation ev o in
        let g = with-Good ev o u h in
        elim (Bool-cases (is_missing lib seen.flags_state)) [
          | inl e ↦ rw e (missing-Fine seen s g.0 t)
          | inr e ↦ elim (Bool-cases (is_observed lib seen.flags_state)) [
            | inl f ↦ rw e (rw f (complete-Fine seen s g t))
            | inr f ↦ rw e (rw f (unknown-Fine seen plain_error s g.0 t))
          ]
        ]

    judge_fetch-Fine :
        (ev : MutationEvidence) (r : FlagCommandResult) (s : Session)
        → ev.uid ≡ uid
        → Proved uid S r
        → Tail uid S s
        → Fine (judge_fetch lib ev c r s)
    unfolding Proved
    judge_fetch-Fine ev r s u k t = elim (Option-cases r.failure) [
      | inl e ↦ rw e (judge-Fine ev r.observation s u (k e) t)
      | inr (x, e) ↦ rw e (unknown-Fine ev x s u t)
    ]

    verify-Fine :
        (ev : MutationEvidence) (o : FlagObservation) (s : Session)
        → ev.uid ≡ uid
        → (o.observed ≡ true → S o.flags)
        → Tail uid S s
        → Fine (verify_flag_result lib ev o c s)
    unfolding verify_flag_result
    verify-Fine ev o s u h t =
        let (k, z) = run uid S fetch_flags ev.uid s u t in
        let (result, after) = run_command ev.uid fetch_flags s in
        by_test Fine o.missing (missing-Fine (record ev { flags_source = from_store }) s u t) (
          by_test Fine (not o.observed)
            (judge_fetch-Fine (record ev { flags_source = from_fetch }) result after u k z)
            (judge-Fine (record ev { flags_source = from_store }) o s u h t))

    Start : Prepared lib → Type 0
    Start p = Fine p.0

    narrowed-Fine :
        (ev : MutationEvidence) (s : Session)
        → Good ev
        → Tail uid S s
        → Fine (narrowed lib ev c s).0
    unfolding narrowed Fine
    narrowed-Fine ev s g t =
        let needed = if is_observed lib ev.flags_state then pending lib c ev.actual_flags else c in
        elim (Bool-cases (no_permission lib ev s.permissions needed)) [
          | inl e ↦ rw e (unsupported-Fine ev s g t)
          | inr e ↦ rw e (g, t)
        ]

    looked-Fine :
        (ev : MutationEvidence) (r : FlagCommandResult) (s : Session)
        → Good ev
        → Proved uid S r
        → Tail uid S s
        → Fine (looked lib ev c r s).0
    unfolding looked Start Proved Good
    looked-Fine ev r s g k t =
        let seen = with_flag_observation ev r.observation in
        by_failure Start r.failure (λ x. failing-Fine ev x s g t)
          (λ e.
            let good = with-Good ev r.observation g.0 (k e) in
            by_test Start (not (is_observed lib seen.flags_state))
              (failing-Fine seen (code_error (unavailable_code lib seen.flags_state)) s good t)
              (narrowed-Fine seen s good t))

    prepare-Fine :
        (ev : MutationEvidence) (s : Session)
        → Good ev
        → Tail uid S s
        → Fine (prepare_flag_changes lib ev c s).0
    unfolding prepare_flag_changes Good
    prepare-Fine ev s g t =
        let (k, z) = run uid S fetch_flags ev.uid s g.0 t in
        let (result, after) = run_command ev.uid fetch_flags s in
        elim (Bool-cases (needs_look lib ev c s.permissions)) [
          | inl e ↦ rw e (looked-Fine (record ev { flags_source = from_fetch }) result after g k z)
          | inr e ↦ rw e (narrowed-Fine ev s g t)
        ]

    rejected-Fine :
        (ev : MutationEvidence) (b : Bool) (x : Failure) (s : Session)
        → Good ev
        → Tail uid S s
        → Fine (rejected_flag_result lib ev b x s)
    unfolding rejected_flag_result Fine Good Proved
    rejected-Fine ev b x s g t =
        let (k, z) = run uid S fetch_flags ev.uid s g.0 t in
        let (result, after) = run_command ev.uid fetch_flags s in
        by_failure Fine result.failure (λ y. (g, z))
          (λ e. (
            with-Good
                (record ev {
                  outcome = if b then partial_done else rejected;
                  flags_source = from_fetch;
                })
                result.observation g.0 (k e),
            z,
          ))

    store_failed-Fine :
        (ev : MutationEvidence) (b : Bool) (status : Option Status) (x : Failure) (s : Session)
        → Good ev
        → Tail uid S s
        → Fine (store_failed lib ev b status x s)
    unfolding store_failed Fine Good
    store_failed-Fine ev b status x s g t =
        by_test Fine (is_refusal lib status) (rejected-Fine ev b x s g t) (
          by_test Fine (is_not_started lib ev.outcome) (failing-Fine ev x s g t)
            (by_test Fine (is_partial lib ev.outcome) (g, t) (unknown-Fine ev x s g.0 t)))

    phase_result-Fine : (r : Result) → Fine r → Fine (phase_result lib c r)
    unfolding phase_result Fine Good
    phase_result-Fine ((ev, some e), s) h = h
    phase_result-Fine ((ev, none), s) (g, t) =
        by_test Fine (no_permission lib ev s.permissions c)
          (unsupported-Fine (record ev { outcome = unknown }) s g t) (g, t)

    stored-Fine :
        (ev : MutationEvidence) (b : Bool) (r : FlagCommandResult) (s : Session)
        → Good ev
        → Proved uid S r
        → Tail uid S s
        → Fine (stored lib ev b c r s)
    unfolding stored Proved Good
    stored-Fine ev b r s g k t =
        by_failure Fine r.failure (λ e. store_failed-Fine ev b r.status e s g t)
          (λ e.
            phase_result-Fine (verify_flag_result lib ev r.observation c s)
              (verify-Fine ev r.observation s g.0 (k e) t))

    attempted-Good : (r : Reply) (ev : MutationEvidence) → Good ev → Good (attempted_store lib r ev)
    unfolding Good
    attempted-Good (undelivered e) ev g = g
    attempted-Good (unanswered e) ev g = (g.0, λ i. cc)
    attempted-Good (answered ls st) ev g = (g.0, λ i. cc)

    perform-Fine :
        (ev : MutationEvidence) (s : Session)
        → Good ev
        → Tail uid S s
        → Fine (perform_flag_change lib ev c s)
    unfolding perform_flag_change Good
    perform-Fine ev s g t =
        let (k, z) = run uid S (store_flags c) ev.uid s g.0 t in
        let (result, after) = run_command ev.uid (store_flags c) s in
        stored-Fine (attempted_store lib (next_reply s.replies) ev) (is_partial lib ev.outcome)
          result after (attempted-Good (next_reply s.replies) ev g) k z

    run_phase-Fine : (r : Result) → Fine r → Fine (run_phase lib c r)
    unfolding run_phase Fine
    run_phase-Fine ((ev, some e), s) h = h
    run_phase-Fine ((ev, none), s) (g, t) =
        by_test Fine (is_empty lib c) (g, t)
          (by_test Fine (no_permission lib ev s.permissions c) (unsupported-Fine ev s g t)
            (perform-Fine ev s g t))

    final-Fine : (r : Result) → Fine r → Fine (final_result lib c r)
    unfolding final_result Fine
    final-Fine ((ev, some e), s) h = h
    final-Fine ((ev, none), s) (g, t) = complete-Fine ev s g t

  set_flags-Fine :
      (lib : FlagLibrary) (ev : MutationEvidence) (c : FlagChanges) (s : Session)
      → Good ev
      → Tail uid S s
      → Fine (set_flags_and_verify lib ev c s)
  unfolding set_flags_and_verify
  set_flags-Fine lib ev c s g t =
      let (start, needed) = prepare_flag_changes lib ev c s in
      let h = prepare-Fine lib c ev s g t in
      let phase = run_phase-Fine lib in
      let adds = additions lib needed in
      let removes = removals lib needed in
      final-Fine lib c
        (if touches_junk lib c
          then run_phase lib adds (run_phase lib removes start)
          else run_phase lib removes (run_phase lib adds start))
        (by_test Fine (touches_junk lib c)
          (phase adds (run_phase lib removes start) (phase removes start h))
          (phase removes (run_phase lib adds start) (phase adds start h)))

-- Where a change of flags starts without observed flags, whatever its outcome, flags that its evidence
-- gives as observed are those of a FETCH line for the message in an answer of the server.
pub observed_flags-Seen :
    (lib : FlagLibrary) (ev : MutationEvidence) (c : FlagChanges) (s : Session)
    → ev.flags_state ≢ observed
    → let r = set_flags_and_verify lib ev c s in
      r.0.0.flags_state ≡ observed → Seen ev.uid r.0.0.actual_flags s.replies
unfolding Fine Good Tail
observed_flags-Seen lib ev c s fresh =
    (set_flags-Fine ev.uid (λ fs. Seen ev.uid fs s.replies) lib ev c s (refl, λ h. absurd (fresh h))
      (λ fs h. h)).0.1
