-- ===== src/Flags/Examples.antt =====
-- The theorems on internal/transport/imapclient/flags.go at a message that is marked as read.
use mail_cli.Common.{bytes_equal, ◌≡◌, refl, true, false, some, List, [], ◌∷◌, Bytes}
use mail_cli.Flags.{FlagLibrary, FlagChanges, flags_match_changes, pending}
use mail_cli.Flags.Observe.{
  Line, fetch_line, expunge_line, other_line, FlagObservation, consume_all, Reported,
}
use mail_cli.Flags.Reports.{observed-Reported, missing_unobserved}
use mail_cli.Flags.Commands.{
  MutationEvidence, Session, answered, ok, not_started, unset, no_source, completed,
}
use mail_cli.Flags.Store.{set_flags_and_verify, is_empty}
use mail_cli.Errors.{
  error_code, first_match, has_code, first_code, Failure, transport_error, mutation_outcome_error,
  cause, no_cause,
}
use mail_cli.Errors.Codes.{mailbox_uidvalidity_changed}
use mail_cli.Flags.Commands.{unanswered}
use mail_cli.Flags.Retry.{should_retry_flag_mutation, stores, retried_change-stores}
use mail_cli.Flags.Replies.{Seen}
use mail_cli.Flags.Proof.{observed_flags-Seen}
use mail_cli.Flags.Sound.{Applied, flags_match-pending, set_flags_success}

-- \Seen
abbrev seen : Bytes
seen = 92 ∷ 83 ∷ 101 ∷ 101 ∷ 110 ∷ []

-- \Flagged
abbrev flagged : Bytes
flagged = 92 ∷ 70 ∷ 108 ∷ 97 ∷ 103 ∷ 103 ∷ 101 ∷ 100 ∷ []

abbrev exact_case : FlagLibrary
exact_case = record { fold = λ b. b }

abbrev mark_read : FlagChanges
mark_read = record { add = seen ∷ []; remove = [] }

abbrev lines : List Line
lines = other_line ∷ fetch_line 3 (some 7) (some (seen ∷ [])) ∷ []

abbrev observation : FlagObservation
observation = record {
  sequence = 3;
  flags = seen ∷ [];
  seen_uid = true;
  observed = true;
  missing = false;
}

observed-Reported_example : Reported 7 (seen ∷ []) lines
unfolding consume_all
observed-Reported_example = observed-Reported 7 lines observation refl refl

abbrev gone_lines : List Line
gone_lines = fetch_line 3 (some 7) (some (seen ∷ [])) ∷ expunge_line 1 ∷ expunge_line 2 ∷ []

abbrev gone : FlagObservation
gone = record { sequence = 2; flags = seen ∷ []; seen_uid = true; observed = false; missing = true }

missing_unobserved_example : gone.observed ≡ false
unfolding consume_all
missing_unobserved_example = missing_unobserved 7 gone_lines gone refl refl

flags_match-pending_example :
    flags_match_changes exact_case (flagged ∷ []) (seen ∷ []) []
    ≡ is_empty exact_case (pending exact_case mark_read (flagged ∷ []))
flags_match-pending_example = flags_match-pending exact_case mark_read (flagged ∷ [])

abbrev unmarked : MutationEvidence
unmarked = record {
  outcome = not_started;
  uid = 7;
  flags_state = unset;
  flags_source = no_source;
  actual_flags = [];
}

abbrev session : Session
session = record {
  replies = answered lines ok ∷ [];
  permissions = record { present = true; flags = seen ∷ flagged ∷ [] };
  sent = [];
}

set_flags_success_example :
    let r = set_flags_and_verify exact_case unmarked mark_read session in
    (r.0.0.outcome ≡ completed)
    × Applied exact_case mark_read r.0.0.actual_flags
    × Seen 7 r.0.0.actual_flags session.replies
unfolding set_flags_and_verify bytes_equal
set_flags_success_example =
    set_flags_success exact_case unmarked mark_read session (λ h. cc) refl refl

observed_flags-Seen_example :
    let r = set_flags_and_verify exact_case unmarked mark_read session in
    Seen 7 r.0.0.actual_flags (answered lines ok ∷ [])
unfolding set_flags_and_verify bytes_equal
observed_flags-Seen_example =
    observed_flags-Seen exact_case unmarked mark_read session (λ h. cc) refl

abbrev junk : FlagChanges
junk = record { add = (36 ∷ 74 ∷ 117 ∷ 110 ∷ 107 ∷ []) ∷ []; remove = [] }

abbrev stale : Failure
stale = transport_error mailbox_uidvalidity_changed no_cause

abbrev stale_session : Session
stale_session = record session { replies = unanswered stale ∷ [] }

retried_change-stores_example :
    stores (set_flags_and_verify exact_case unmarked junk stale_session).1.sent ≡ 0
unfolding set_flags_and_verify bytes_equal should_retry_flag_mutation stores error_code first_match
    has_code first_code
retried_change-stores_example =
    retried_change-stores exact_case unmarked junk stale_session
      (mutation_outcome_error mailbox_uidvalidity_changed (cause stale no_cause)) refl
