-- ===== src/Drafts/Submit.antt =====
-- internal/mail/draft_send.go and draft_composition.go: from the claim to the SMTP submission and the
-- APPEND of the Sent copy.
use mail_cli.Common.{ℕ, ◌+◌, true, false, Option, none, some, [], Bytes, bit}
use mail_cli.Errors.{Failure, wrapped, cause, no_cause, error_code, is_mirror_outcome_uncertain}
use mail_cli.Common.{bytes_equal, if◌then◌else◌}
use mail_cli.Drafts.Data.{
  sent, mirror_pending, unknown, SendAttempt, TransportEvidence, AppendEvidence,
}
use mail_cli.Drafts.Codes.{
  operation, join, send_state_unknown, send_state_cleanup_failed, send_outcome_unknown,
  send_mirror_pending,
}
use mail_cli.Drafts.World.{
  Disk, Fate, fails, accepts, unsure, mirrors, mirrors_unclosed, died, next, Body, ◌>>=◌, ◌>>◌,
  pure, ask, Exit, Answer, got, refused, or_return, ask_text, ask_clock, invoke,
}
use mail_cli.Drafts.Claims.{DraftLibrary, replace_send_attempt, remove_send_attempt}
use mail_cli.Drafts.Receipts.{Out, empty_result, evidence_of, result_for_attempt}
use mail_cli.Drafts.Files.{finish_observed_send}

-- How `submitComposedMessage` ends: the server accepted the message, an error that is a
-- `SubmissionError`, or any other error.
pub data Submission : Type 0 where
  taken : (server_response : Bytes) → (close_error : Option Failure) → Submission
  uncertain : (stage : Bytes) → Failure → Submission
  declined : Failure → Submission

abbrev pub one_more_submission : Disk → Disk
one_more_submission d = record d { submissions = d.submissions + 1 }

-- The transport returns a `SubmissionError` for every submission that the server may have accepted
-- without saying so. A process that is killed here may have submitted.
abbrev pub submit_step : {R : Type 0} → Fate → Disk → Exit R Submission × Disk
submit_step (accepts response close_error) d =
    (next (taken response close_error), one_more_submission d)
submit_step (unsure stage e) d = (next (uncertain stage e), one_more_submission d)
submit_step (fails e) d = (next (declined e), d)
submit_step _ d = (died, d)

unfoldable pub submit_composed_message : {R : Type 0} → Body R Submission
unfolding ask
submit_composed_message = ask submit_step one_more_submission

abbrev pub more_copies : ℕ → Disk → Disk
more_copies n d = record d { copies = d.copies + n }

abbrev pub copied_unclosed : Disk → Disk
copied_unclosed d = record d { copies = d.copies + 1; unclosed = d.unclosed + 1 }

-- An error of the transport that is not an uncertain outcome means that no copy was stored. The error
-- of closing the message is joined to the result, also where the APPEND succeeded.
abbrev pub mirror_step : {R : Type 0} → Fate → Disk → Exit R (Answer AppendEvidence) × Disk
mirror_step (mirrors evidence) d = (next (got evidence), more_copies 1 d)
mirror_step (fails e) d = (next (refused e), more_copies (bit (is_mirror_outcome_uncertain e)) d)
mirror_step (mirrors_unclosed e) d =
    (next (refused (wrapped (cause e no_cause))), copied_unclosed d)
mirror_step _ d = (died, d)

unfoldable pub mirror_composed_message : {R : Type 0} → Body R (Answer AppendEvidence)
unfolding ask
mirror_composed_message = ask mirror_step (more_copies 1)

unfoldable pub join_submission_error : Option Failure → Option Failure → Option Failure
join_submission_error none result = result
join_submission_error (some e) none = some e
join_submission_error (some e) (some f) = some (join f e)

unfoldable pub mirror_pending_error : Failure → Failure
mirror_pending_error e =
    if bytes_equal (error_code e) []
    then operation send_mirror_pending
    else operation (error_code e)

unfoldable pub armed : Bytes → ℕ → SendAttempt → SendAttempt
unfolding evidence_of
armed id now a = record a {
  transport = some (record (evidence_of a) {
    mirror_attempt_id = id;
    mirror_attempted = true;
    mirror_outcome_unknown = true;
  });
  updated_at = now;
}

-- The claim says that a Sent copy may exist before the APPEND is sent.
unfoldable pub persist_mirror_attempt_before_dispatch :
    SendAttempt → Body (Answer SendAttempt) (Answer SendAttempt)
unfolding ◌>>=◌ or_return ask_text ask_clock armed replace_send_attempt
persist_mirror_attempt_before_dispatch a = do
  drawn ← ask_text
  id ← or_return refused drawn
  now ← ask_clock
  let b = armed id now a
  stored ← replace_send_attempt b
  or_return refused stored
  pure (got b)

-- The attempt after an APPEND that failed, and after one whose copy is in the Sent mailbox.
unfoldable pub mirror_failed : Failure → ℕ → SendAttempt → SendAttempt
unfolding evidence_of
mirror_failed e now a = record a {
  transport =
      some (record (evidence_of a) { mirror_outcome_unknown = is_mirror_outcome_uncertain e });
  updated_at = now;
}

unfoldable pub mirrored : AppendEvidence → ℕ → SendAttempt → SendAttempt
unfolding evidence_of
mirrored evidence now a = record a {
  sent_store_observed = true;
  transport = some (record (evidence_of a) {
    mirror_mailbox = evidence.mailbox;
    mirror_uid_validity = evidence.uid_validity;
    mirror_uid = evidence.uid;
    mirror_appended = evidence.appended;
    mirror_outcome_unknown = false;
  });
  outcome = sent;
  updated_at = now;
}

unfoldable pub blank_evidence : Bytes → TransportEvidence
blank_evidence id = record {
  server_response = [];
  message_id = id;
  submission_stage = [];
  submission_accepted = false;
  mirror_mailbox = [];
  mirror_uid_validity = 0;
  mirror_uid = 0;
  mirror_attempt_id = [];
  mirror_appended = false;
  mirror_attempted = false;
  mirror_outcome_unknown = false;
}

unfoldable pub submission_unknown : Bytes → ℕ → SendAttempt → SendAttempt
unfolding blank_evidence
submission_unknown stage now a = record a {
  invocation_started = true;
  transport = some (record (blank_evidence a.message_id) { submission_stage = stage });
  outcome = unknown;
  updated_at = now;
}

unfoldable pub submission_accepted : Bytes → SendAttempt → SendAttempt
unfolding blank_evidence
submission_accepted response a = record a {
  invocation_started = true;
  accepted_by_mail = true;
  transport = some (record (blank_evidence a.message_id) {
    server_response = response;
    submission_accepted = true;
  });
  outcome = mirror_pending;
}

-- The attempt after reconciliation found the message in the Sent mailbox: of a mirror that is
-- pending, and of a submission with an unknown outcome.
unfoldable pub adopted : Bytes → ℕ → ℕ → ℕ → SendAttempt → SendAttempt
unfolding evidence_of
adopted mailbox uid uid_validity now a = record a {
  sent_store_observed = true;
  transport = some (record (evidence_of a) {
    mirror_mailbox = mailbox;
    mirror_uid_validity = uid_validity;
    mirror_uid = uid;
    mirror_appended = false;
    mirror_attempted = true;
    mirror_outcome_unknown = false;
  });
  outcome = sent;
  updated_at = now;
}

unfoldable pub located : Bytes → ℕ → ℕ → ℕ → SendAttempt → SendAttempt
unfolding blank_evidence
located mailbox uid uid_validity now a = record a {
  invocation_started = true;
  accepted_by_mail = true;
  sent_store_observed = true;
  outcome = sent;
  transport = some (record (blank_evidence a.message_id) {
    mirror_mailbox = mailbox;
    mirror_uid_validity = uid_validity;
    mirror_uid = uid;
  });
  updated_at = now;
}

module _ (lib : DraftLibrary) (ref : Bytes) where
  unfoldable pub after_unknown : SendAttempt → Bytes → Failure → Body Out Out
  unfolding ◌>>=◌ or_return ask_clock replace_send_attempt submission_unknown result_for_attempt
  after_unknown a stage e = do
    now ← ask_clock
    let b = submission_unknown stage now a
    let result = result_for_attempt lib ref b true
    stored ← replace_send_attempt b
    or_return (λ f. (result, some (operation send_state_unknown))) stored
    pure (result, some e)

  unfoldable pub after_rejection : SendAttempt → Failure → Body Out Out
  unfolding ◌>>=◌ or_return invoke remove_send_attempt result_for_attempt
  after_rejection a e = do
    removed ← invoke (remove_send_attempt lib)
    or_return (λ f. (result_for_attempt lib ref a true, some (operation send_state_cleanup_failed)))
        removed
    pure (empty_result, some e)

  unfoldable pub after_mirror_failure : SendAttempt → Option Failure → Failure → Body Out Out
  unfolding ◌>>=◌ or_return ask_clock replace_send_attempt mirror_failed result_for_attempt
      join_submission_error mirror_pending_error
  after_mirror_failure a close_error e = do
    now ← ask_clock
    let b = mirror_failed e now a
    let result = result_for_attempt lib ref b true
    stored ← replace_send_attempt b
    or_return
        (λ f. (result, join_submission_error close_error (some (operation send_state_unknown))))
        stored
    pure (result, join_submission_error close_error (some (mirror_pending_error e)))

  unfoldable pub after_mirror : SendAttempt → Option Failure → AppendEvidence → Body Out Out
  unfolding ◌>>=◌ or_return invoke ask_clock replace_send_attempt mirrored result_for_attempt
      join_submission_error finish_observed_send
  after_mirror a close_error evidence = do
    now ← ask_clock
    let b = mirrored evidence now a
    let result = result_for_attempt lib ref b true
    stored ← replace_send_attempt b
    or_return
        (λ f. (result, join_submission_error close_error (some (operation send_outcome_unknown))))
        stored
    done ← invoke (finish_observed_send lib ref b false)
    pure (done.0, join_submission_error close_error done.1)

  unfoldable pub after_append : SendAttempt → Option Failure → Answer AppendEvidence → Body Out Out
  unfolding after_mirror after_mirror_failure
  after_append a close_error (refused e) = after_mirror_failure a close_error e
  after_append a close_error (got evidence) = after_mirror a close_error evidence

  abbrev pub arming_failed : SendAttempt → Option Failure → Failure → Out
  arming_failed a close_error e = (
    result_for_attempt lib ref a true,
    join_submission_error close_error (some (operation send_state_unknown)),
  )

  unfoldable pub after_acceptance : SendAttempt → Bytes → Option Failure → Body Out Out
  unfolding ◌>>=◌ or_return invoke submission_accepted persist_mirror_attempt_before_dispatch
      result_for_attempt mirror_composed_message join_submission_error after_append
  after_acceptance a response close_error = do
    let b = submission_accepted response a
    stored ← invoke (persist_mirror_attempt_before_dispatch b)
    c ← or_return (arming_failed b close_error) stored
    answer ← mirror_composed_message
    after_append c close_error answer

  unfoldable pub after_submission : SendAttempt → Submission → Body Out Out
  unfolding after_unknown after_rejection after_acceptance
  after_submission a (uncertain stage e) = after_unknown a stage e
  after_submission a (declined e) = after_rejection a e
  after_submission a (taken response close_error) = after_acceptance a response close_error

  unfoldable pub after_claim : SendAttempt → Body Out Out
  unfolding ◌>>=◌ submit_composed_message after_submission
  after_claim a = do submission ← submit_composed_message; after_submission a submission
