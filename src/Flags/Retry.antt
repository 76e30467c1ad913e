-- ===== src/Flags/Retry.antt =====
-- internal/mailstore/imap_flag_outcome.go: which failed changes of flags are made again.
use mail_cli.Common.{ℕ, suc, ◌≡◌, refl, Bool, true, false, not, ◌&&◌, ◌||◌, ◌++◌}
use mail_cli.Common.{Option, none, some, List, [], ◌∷◌, bytes_equal, arith, if◌then◌else◌}
use mail_cli.Errors.{Failure, error_code}
use mail_cli.Errors.Codes.{mailbox_uidvalidity_changed}
use mail_cli.Flags.{FlagLibrary, FlagChanges, flags_match_changes, pending, touches_junk}
use mail_cli.Flags.Observe.{FlagObservation}
use mail_cli.Flags.Replies.{by_test, by_failure}
use mail_cli.Flags.Commands.{
  Command, store_flags, fetch_flags, FlagCommandResult, MutationEvidence, MutationOutcome,
  no_outcome, not_started, partial_done, rejected, Session, Status, Reply, undelivered, unanswered,
  answered, run_command, next_reply, was_sent, from_store, from_fetch, plain_error,
}
use mail_cli.Flags.Store.{
  Result, with_flag_observation, is_observed, is_missing, needs_look, no_permission, judge,
  judge_fetch, verify_flag_result, narrowed, looked, prepare_flag_changes, Prepared,
  rejected_flag_result, store_failed, phase_result, stored, perform_flag_change, run_phase,
  final_result, set_flags_and_verify, is_refusal, is_not_started, is_partial, is_empty,
  attempted_store, missing_flag_result, unknown_flag_result, complete_flag_result,
  flag_preflight_failure, unsupported_flag_result, additions, removals,
}

unfoldable is_uid_validity_changed_error : Failure → Bool
is_uid_validity_changed_error e = bytes_equal (error_code e) mailbox_uidvalidity_changed

-- The outcome is empty or not started.
unfoldable unstarted : MutationOutcome → Bool
unstarted no_outcome = true
unstarted not_started = true
unstarted _ = false

unfoldable pub should_retry_flag_mutation : Failure → MutationEvidence → Bool
unfolding is_uid_validity_changed_error unstarted
should_retry_flag_mutation e ev = is_uid_validity_changed_error e && unstarted ev.outcome

-- The STORE commands among those that were sent.
unfoldable pub stores : List Command → ℕ
stores [] = 0
stores (store_flags c ∷ cs) = suc (stores cs)
stores (fetch_flags ∷ cs) = stores cs

stores-fetch : (cs : List Command) → stores (cs ++ (fetch_flags ∷ [])) ≡ stores cs
unfolding stores
stores-fetch [] = refl
stores-fetch (store_flags c ∷ cs) = rw (stores-fetch cs) refl
stores-fetch (fetch_flags ∷ cs) = stores-fetch cs

fetch_stores : (u : ℕ) (s : Session) → stores (run_command u fetch_flags s).1.sent ≡ stores s.sent
unfolding run_command
fetch_stores u s =
    by_test (λ cs. stores cs ≡ stores s.sent) (was_sent (next_reply s.replies))
      (stores-fetch s.sent) refl

with_outcome :
    (ev : MutationEvidence) (o : FlagObservation)
    → (with_flag_observation ev o).outcome ≡ ev.outcome
unfolding with_flag_observation
with_outcome ev o =
    by_test (λ (v : MutationEvidence). v.outcome ≡ ev.outcome) (o.missing || not o.seen_uid) refl
      (by_test (λ (v : MutationEvidence). v.outcome ≡ ev.outcome) o.observed refl refl)

module _ (n : ℕ) where
  -- A change that is not started has sent no STORE.
  Quiet : MutationOutcome → Session → Type 0
  Quiet m s = unstarted m ≡ true → stores s.sent ≡ n

  Safe : Result → Type 0
  Safe r = Quiet r.0.0.outcome r.1

  after_fetch :
      (m : MutationOutcome) (u : ℕ) (s : Session)
      → Quiet m s
      → Quiet m (run_command u fetch_flags s).1
  unfolding Quiet
  after_fetch m u s q h = rw (fetch_stores u s) (q h)

  after_look :
      (ev : MutationEvidence) (o : FlagObservation) (s : Session)
      → Quiet ev.outcome s
      → Quiet (with_flag_observation ev o).outcome s
  after_look ev o s q = rw (with_outcome ev o) q

  module _ (lib : FlagLibrary) (c : FlagChanges) where
    complete-Safe : (ev : MutationEvidence) (s : Session) → Safe (complete_flag_result lib ev c s)
    unfolding complete_flag_result Safe Quiet unstarted
    complete-Safe ev s =
        by_test Safe (not (flags_match_changes lib ev.actual_flags c.add c.remove)) (λ h. cc)
          (λ h. cc)

    unknown-Safe :
        (ev : MutationEvidence) (e : Failure) (s : Session) → Safe (unknown_flag_result ev e s)
    unfolding unknown_flag_result Safe Quiet unstarted
    unknown-Safe ev e s h = cc

    missing-Safe : (ev : MutationEvidence) (s : Session) → Safe (missing_flag_result ev s)
    unfolding missing_flag_result Safe Quiet unstarted
    missing-Safe ev s h = cc

    judge-Safe :
        (ev : MutationEvidence) (o : FlagObservation) (s : Session) → Safe (judge lib ev o c s)
    unfolding judge
    judge-Safe ev o s =
        let seen = with_flag_observation ev o in
        by_test Safe (is_missing lib seen.flags_state) (missing-Safe seen s) (
          by_test Safe (not (is_observed lib seen.flags_state)) (unknown-Safe seen plain_error s)
            (complete-Safe seen s))

    judge_fetch-Safe :
        (ev : MutationEvidence) (r : FlagCommandResult) (s : Session)
        → Safe (judge_fetch lib ev c r s)
    judge_fetch-Safe ev r s =
        by_failure Safe r.failure (λ e. unknown-Safe ev e s) (λ e. judge-Safe ev r.observation s)

    verify-Safe :
        (ev : MutationEvidence) (o : FlagObservation) (s : Session)
        → Safe (verify_flag_result lib ev o c s)
    unfolding verify_flag_result
    verify-Safe ev o s =
        let (result, after) = run_command ev.uid fetch_flags s in
        by_test Safe o.missing (missing-Safe (record ev { flags_source = from_store }) s) (
          by_test Safe (not o.observed)
            (judge_fetch-Safe (record ev { flags_source = from_fetch }) result after)
            (judge-Safe (record ev { flags_source = from_store }) o s))

    Start : Prepared lib → Type 0
    Start p = Safe p.0

    narrowed-Safe :
        (ev : MutationEvidence) (s : Session) → Quiet ev.outcome s → Safe (narrowed lib ev c s).0
    unfolding narrowed Start Safe unsupported_flag_result
    narrowed-Safe ev s q =
        let needed = if is_observed lib ev.flags_state then pending lib c ev.actual_flags else c in
        by_test Start (no_permission lib ev s.permissions needed) q q

    looked-Safe :
        (ev : MutationEvidence) (r : FlagCommandResult) (s : Session)
        → Quiet ev.outcome s
        → Safe (looked lib ev c r s).0
    unfolding looked Start Safe flag_preflight_failure
    looked-Safe ev r s q =
        let seen = with_flag_observation ev r.observation in
        let kept = after_look ev r.observation s q in
        by_failure Start r.failure (λ e. q)
          (λ e.
            by_test Start (not (is_observed lib seen.flags_state)) kept (narrowed-Safe seen s kept))

    prepare-Safe :
        (ev : MutationEvidence) (s : Session)
        → Quiet ev.outcome s
        → Safe (prepare_flag_changes lib ev c s).0
    unfolding prepare_flag_changes Start
    prepare-Safe ev s q =
        let (result, after) = run_command ev.uid fetch_flags s in
        by_test Start (needs_look lib ev c s.permissions)
          (looked-Safe (record ev { flags_source = from_fetch }) result after
            (after_fetch ev.outcome ev.uid s q))
          (narrowed-Safe ev s q)

    refusal : MutationEvidence → Bool → MutationEvidence
    refusal ev b = record ev {
      outcome = if b then partial_done else rejected;
      flags_source = from_fetch;
    }

    refusal-Safe : (ev : MutationEvidence) (b : Bool) (s : Session) → Quiet (refusal ev b).outcome s
    unfolding refusal Quiet unstarted
    refusal-Safe ev true s h = cc
    refusal-Safe ev false s h = cc

    rejected-Safe :
        (ev : MutationEvidence) (b : Bool) (x : Failure) (s : Session)
        → Safe (rejected_flag_result lib ev b x s)
    unfolding rejected_flag_result Safe refusal
    rejected-Safe ev b x s =
        let (result, after) = run_command ev.uid fetch_flags s in
        by_failure Safe result.failure (λ y. refusal-Safe ev b after)
          (λ e. after_look (refusal ev b) result.observation after (refusal-Safe ev b after))

    store_failed-Safe :
        (ev : MutationEvidence) (b : Bool) (status : Option Status) (x : Failure) (s : Session)
        → Quiet ev.outcome s
        → Safe (store_failed lib ev b status x s)
    unfolding store_failed Safe flag_preflight_failure
    store_failed-Safe ev b status x s q =
        by_test Safe (is_refusal lib status) (rejected-Safe ev b x s) (
          by_test Safe (is_not_started lib ev.outcome) q
            (by_test Safe (is_partial lib ev.outcome) q (unknown-Safe ev x s)))

    phase_result-Safe : (r : Result) → Safe r → Safe (phase_result lib c r)
    unfolding phase_result Safe Quiet unstarted unsupported_flag_result
    phase_result-Safe ((ev, some e), s) h = h
    phase_result-Safe ((ev, none), s) h =
        by_test Safe (no_permission lib ev s.permissions c) (λ i. cc) (λ i. cc)

    stored-Safe :
        (ev : MutationEvidence) (b : Bool) (r : FlagCommandResult) (s : Session)
        → Quiet ev.outcome s
        → Safe (stored lib ev b c r s)
    unfolding stored
    stored-Safe ev b r s q =
        by_failure Safe r.failure (λ e. store_failed-Safe ev b r.status e s q)
          (λ e.
            phase_result-Safe (verify_flag_result lib ev r.observation c s)
              (verify-Safe ev r.observation s))

    -- A STORE that was not sent leaves no trace, and another one marks the evidence.
    attempted-Quiet :
        (r : Reply) (ev : MutationEvidence) (cs : List Command)
        → (unstarted ev.outcome ≡ true → stores cs ≡ n)
        → unstarted (attempted_store lib r ev).outcome ≡ true
        → stores (if was_sent r then cs ++ (store_flags c ∷ []) else cs) ≡ n
    unfolding unstarted
    attempted-Quiet (undelivered e) ev cs q h = q h
    attempted-Quiet (unanswered e) ev cs q h = cc
    attempted-Quiet (answered ls st) ev cs q h = cc

    perform-Safe :
        (ev : MutationEvidence) (s : Session)
        → Quiet ev.outcome s
        → Safe (perform_flag_change lib ev c s)
    unfolding perform_flag_change Quiet run_command
    perform-Safe ev s q =
        let (result, after) = run_command ev.uid (store_flags c) s in
        stored-Safe (attempted_store lib (next_reply s.replies) ev) (is_partial lib ev.outcome)
          result after (attempted-Quiet (next_reply s.replies) ev s.sent q)

    run_phase-Safe : (r : Result) → Safe r → Safe (run_phase lib c r)
    unfolding run_phase Safe unsupported_flag_result
    run_phase-Safe ((ev, some e), s) h = h
    run_phase-Safe ((ev, none), s) q =
        by_test Safe (is_empty lib c) q
          (by_test Safe (no_permission lib ev s.permissions c) q (perform-Safe ev s q))

    final-Safe : (r : Result) → Safe r → Safe (final_result lib c r)
    unfolding final_result Safe
    final-Safe ((ev, some e), s) h = h
    final-Safe ((ev, none), s) q = complete-Safe ev s

  set_flags-Safe :
      (lib : FlagLibrary) (ev : MutationEvidence) (c : FlagChanges) (s : Session)
      → Quiet ev.outcome s
      → Safe (set_flags_and_verify lib ev c s)
  unfolding set_flags_and_verify
  set_flags-Safe lib ev c s q =
      let (start, needed) = prepare_flag_changes lib ev c s in
      let h = prepare-Safe lib c ev s q in
      let phase = run_phase-Safe lib in
      let adds = additions lib needed in
      let removes = removals lib needed in
      final-Safe lib c
        (if touches_junk lib c
          then run_phase lib adds (run_phase lib removes start)
          else run_phase lib removes (run_phase lib adds start))
        (by_test Safe (touches_junk lib c)
          (phase adds (run_phase lib removes start) (phase removes start h))
          (phase removes (run_phase lib adds start) (phase adds start h)))

-- A change of flags whose evidence lets it be made again has sent no STORE.
pub retried_change-stores :
    (lib : FlagLibrary) (ev : MutationEvidence) (c : FlagChanges) (s : Session) (e : Failure)
    → let r = set_flags_and_verify lib ev c s in
      should_retry_flag_mutation e r.0.0 ≡ true → stores r.1.sent ≡ stores s.sent
unfolding Safe Quiet should_retry_flag_mutation
retried_change-stores lib ev c s e h =
    let r = set_flags_and_verify lib ev c s in
    let same : unstarted r.0.0.outcome ≡ true = ground arith in
    set_flags-Safe (stores s.sent) lib ev c s (λ i. refl) same
