-- ===== src/Flags/Store.antt =====
-- internal/transport/imapclient/flags.go: the STORE and FETCH commands of one change of flags.
use mail_cli.Common.{◌+◌, Bool, true, false, not, ◌&&◌, ◌||◌, ◌==◌, length}
use mail_cli.Common.{Option, none, some, [], Bytes, bytes_equal, if◌then◌else◌}
use mail_cli.Errors.{Failure, mutation_outcome_error, error_code, no_cause, cause}
use mail_cli.Errors.Codes.{
  imap_flags_outcome_unknown, imap_flags_partial, imap_flags_mismatch, imap_flags_unsupported,
  imap_fetch_failed, imap_message_not_found, imap_mutation_failed, imap_response_malformed,
}
use mail_cli.Flags.{
  FlagLibrary, FlagChanges, FlagPermissions, flags_match_changes, touches_junk, pending,
  unsupported,
}
use mail_cli.Flags.Observe.{FlagObservation}
use mail_cli.Flags.Commands.{
  FlagCommandResult, FlagsState, MutationEvidence, MutationOutcome, Reply, Session, Status,
  attempted, bad, bare_outcome, code_error, completed, fetch_flags, from_fetch, from_store, missing,
  next_reply, no_status, not_started, observed, outcome_error, partial_done, plain_error, rejected,
  run_command, seen_other, store_flags, undelivered, unknown, unverified,
}

abbrev pub Result : Type 0
Result = (MutationEvidence × Option Failure) × Session

abbrev pub failing : MutationEvidence → Failure → Session → Result
failing ev e s = ((ev, some e), s)

unfoldable pub with_flag_observation : MutationEvidence → FlagObservation → MutationEvidence
with_flag_observation ev o =
    if o.missing || not o.seen_uid
    then record ev { actual_flags = []; flags_state = missing }
    else if o.observed
    then record ev { actual_flags = o.flags; flags_state = observed }
    else record ev { actual_flags = []; flags_state = unverified }

unfoldable pub flag_preflight_failure : MutationEvidence → Failure → Session → Result
flag_preflight_failure ev e s =
    failing ev
      (outcome_error (if bytes_equal (error_code e) [] then imap_fetch_failed else error_code e) e)
      s

unfoldable pub unsupported_flag_result : MutationEvidence → Session → Result
unsupported_flag_result ev s = failing ev (bare_outcome imap_flags_unsupported) s

unfoldable pub unknown_flag_result : MutationEvidence → Failure → Session → Result
unknown_flag_result ev e s =
    failing (record ev { outcome = unknown; flags_state = unverified; actual_flags = [] })
      (outcome_error imap_flags_outcome_unknown e) s

unfoldable pub missing_flag_result : MutationEvidence → Session → Result
missing_flag_result ev s =
    failing (record ev { outcome = unknown; flags_state = missing; actual_flags = [] })
      (bare_outcome imap_message_not_found) s

module _ (lib : FlagLibrary) where
  unfoldable pub complete_flag_result : MutationEvidence → FlagChanges → Session → Result
  unfolding flags_match_changes
  complete_flag_result ev c s =
      if not (flags_match_changes lib ev.actual_flags c.add c.remove)
      then failing (record ev { outcome = seen_other }) (bare_outcome imap_flags_mismatch) s
      else ((record ev { outcome = completed }, none), s)

  abbrev pub is_missing : FlagsState → Bool
  is_missing missing = true
  is_missing _ = false

  abbrev pub is_observed : FlagsState → Bool
  is_observed observed = true
  is_observed _ = false

  -- What the observation proves of the changes.
  unfoldable pub judge : MutationEvidence → FlagObservation → FlagChanges → Session → Result
  unfolding with_flag_observation missing_flag_result unknown_flag_result complete_flag_result
  judge ev o c s =
      let seen = with_flag_observation ev o in
      if is_missing seen.flags_state
      then missing_flag_result seen s
      else if not (is_observed seen.flags_state)
      then unknown_flag_result seen plain_error s
      else complete_flag_result seen c s

  abbrev pub judge_fetch : MutationEvidence → FlagChanges → FlagCommandResult → Session → Result
  judge_fetch ev c result s = elim result.failure [
    | some e ↦ unknown_flag_result ev e s
    | none ↦ judge ev result.observation c s
  ]

  unfoldable pub verify_flag_result :
      MutationEvidence → FlagObservation → FlagChanges → Session → Result
  unfolding missing_flag_result judge run_command unknown_flag_result
  verify_flag_result ev o c s =
      if o.missing
      then missing_flag_result (record ev { flags_source = from_store }) s
      else if not o.observed
      then (let (result, t) = run_command ev.uid fetch_flags s in
          judge_fetch (record ev { flags_source = from_fetch }) c result t)
      else judge (record ev { flags_source = from_store }) o c s

  abbrev pub no_permission : MutationEvidence → FlagPermissions → FlagChanges → Bool
  no_permission ev p c = elim (unsupported lib p c) [ none ↦ false | some f ↦ true ]

  -- Whether the first look at the flags is needed.
  unfoldable pub needs_look : MutationEvidence → FlagChanges → FlagPermissions → Bool
  unfolding touches_junk unsupported
  needs_look ev c p =
      not (is_observed ev.flags_state) && (touches_junk lib c || no_permission ev p c)

  abbrev pub unavailable_code : FlagsState → Bytes
  unavailable_code missing = imap_message_not_found
  unavailable_code _ = imap_response_malformed

  abbrev pub Prepared : Type 0
  Prepared = Result × FlagChanges

  unfoldable pub narrowed : MutationEvidence → FlagChanges → Session → Prepared
  unfolding pending unsupported unsupported_flag_result
  narrowed ev c s =
      let needed = if is_observed ev.flags_state then pending lib c ev.actual_flags else c in
      if no_permission ev s.permissions needed
      then (unsupported_flag_result ev s, needed)
      else (((ev, none), s), needed)

  unfoldable pub looked : MutationEvidence → FlagChanges → FlagCommandResult → Session → Prepared
  unfolding with_flag_observation flag_preflight_failure narrowed
  looked ev c result s = elim result.failure [
    | some e ↦ (flag_preflight_failure ev e s, c)
    | none ↦
        let seen = with_flag_observation ev result.observation in
        if not (is_observed seen.flags_state)
        then (flag_preflight_failure seen (code_error (unavailable_code seen.flags_state)) s, c)
        else narrowed seen c s
  ]

  unfoldable pub prepare_flag_changes : MutationEvidence → FlagChanges → Session → Prepared
  unfolding needs_look run_command looked narrowed
  prepare_flag_changes ev c s =
      if needs_look ev c s.permissions
      then (let (result, t) = run_command ev.uid fetch_flags s in
          looked (record ev { flags_source = from_fetch }) c result t)
      else narrowed ev c s

  -- A STORE that the server refused.
  unfoldable pub rejected_flag_result : MutationEvidence → Bool → Failure → Session → Result
  unfolding run_command with_flag_observation
  rejected_flag_result ev previously_completed e s =
      let refused_ev = record ev {
        outcome = if previously_completed then partial_done else rejected;
        flags_source = from_fetch;
      } in
      let code = if previously_completed then imap_flags_partial else imap_mutation_failed in
      let (result, t) = run_command ev.uid fetch_flags s in
      elim result.failure [
        | some f ↦ failing refused_ev (mutation_outcome_error code (cause e (cause f no_cause))) t
        | none ↦
            failing (with_flag_observation refused_ev result.observation) (outcome_error code e) t
      ]

  abbrev pub is_refusal : Option Status → Bool
  is_refusal (some no_status) = true
  is_refusal (some bad) = true
  is_refusal _ = false

  abbrev pub is_partial : MutationOutcome → Bool
  is_partial partial_done = true
  is_partial _ = false

  abbrev pub is_not_started : MutationOutcome → Bool
  is_not_started not_started = true
  is_not_started _ = false

  unfoldable pub store_failed : MutationEvidence → Bool → Option Status → Failure → Session → Result
  unfolding rejected_flag_result flag_preflight_failure unknown_flag_result
  store_failed ev previously_completed status e s =
      if is_refusal status
      then rejected_flag_result ev previously_completed e s
      else if is_not_started ev.outcome
      then flag_preflight_failure ev e s
      else if is_partial ev.outcome
      then failing ev (outcome_error imap_flags_partial e) s
      else unknown_flag_result ev e s

  -- The phase's own result is partial until the whole change is judged.
  unfoldable pub phase_result : FlagChanges → Result → Result
  unfolding unsupported unsupported_flag_result
  phase_result phase ((ev, some e), s) = ((ev, some e), s)
  phase_result phase ((ev, none), s) =
      if no_permission ev s.permissions phase
      then unsupported_flag_result (record ev { outcome = unknown }) s
      else ((record ev { outcome = partial_done }, none), s)

  abbrev pub attempted_store : Reply → MutationEvidence → MutationEvidence
  attempted_store (undelivered e) ev = ev
  attempted_store _ ev = record ev {
    outcome = attempted;
    flags_source = from_store;
    flags_state = unverified;
    actual_flags = [];
  }

  unfoldable pub stored :
      MutationEvidence → Bool → FlagChanges → FlagCommandResult → Session → Result
  unfolding store_failed verify_flag_result phase_result
  stored ev previously_completed phase result s = elim result.failure [
    | some e ↦ store_failed ev previously_completed result.status e s
    | none ↦ phase_result phase (verify_flag_result ev result.observation phase s)
  ]

  unfoldable pub perform_flag_change : MutationEvidence → FlagChanges → Session → Result
  unfolding run_command stored
  perform_flag_change ev phase s =
      let tried = attempted_store (next_reply s.replies) ev in
      let (result, t) = run_command ev.uid (store_flags phase) s in
      stored tried (is_partial ev.outcome) phase result t

  abbrev pub is_empty : FlagChanges → Bool
  is_empty c = length c.add + length c.remove == 0

  -- One phase: an empty one is passed over.
  unfoldable pub run_phase : FlagChanges → Result → Result
  unfolding unsupported unsupported_flag_result perform_flag_change
  run_phase phase ((ev, some e), s) = ((ev, some e), s)
  run_phase phase ((ev, none), s) =
      if is_empty phase
      then ((ev, none), s)
      else if no_permission ev s.permissions phase
      then unsupported_flag_result ev s
      else perform_flag_change ev phase s

  abbrev pub additions : FlagChanges → FlagChanges
  additions c = record { add = c.add; remove = [] }

  abbrev pub removals : FlagChanges → FlagChanges
  removals c = record { add = []; remove = c.remove }

  unfoldable pub final_result : FlagChanges → Result → Result
  unfolding complete_flag_result
  final_result c ((ev, some e), s) = ((ev, some e), s)
  final_result c ((ev, none), s) = complete_flag_result ev c s

  -- Removals come first where the change touches the junk flags.
  unfoldable pub set_flags_and_verify : MutationEvidence → FlagChanges → Session → Result
  unfolding prepare_flag_changes run_phase touches_junk final_result
  set_flags_and_verify ev c s =
      let (start, needed) = prepare_flag_changes ev c s in
      final_result c (
        if touches_junk lib c
        then run_phase (additions needed) (run_phase (removals needed) start)
        else run_phase (removals needed) (run_phase (additions needed) start))
