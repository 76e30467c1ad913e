-- ===== src/Drafts/Send.antt =====
-- internal/mail/draft_send.go: SendDraft. The context, the draft's directory, its lease, the checks of
-- its content, the sender and its hosts, the mutation lock and the keychain are calls that may fail and
-- change none of the files of `Disk`; so do the releases that the function defers, which are left out.
use mail_cli.Common.{ℕ, ◌+◌, Bool, true, false, ◌&&◌, ◌==◌, Option, none, some, []}
use mail_cli.Common.{Bytes, bytes_equal, if◌then◌else◌, length}
use mail_cli.Errors.{Failure, first_code}
use mail_cli.Drafts.Data.{
  Draft, DraftKind, new, forward, SendAttempt, SendReceipt, AcceptedMessageSpool,
  SendRecoveryIdentity,
}
use mail_cli.Drafts.Codes.{
  operation, join, not_found, validation_error, send_cleanup_failed,
  send_recovery_spool_persist_failed,
}
use mail_cli.Drafts.World.{
  Body, ◌>>=◌, ◌>>◌, pure, give_back, Answer, got, refused, or_return, return_if, join_answers,
  quiet, check, checks, obtain, ask_spool, ask_identity, invoke,
}
use mail_cli.Drafts.Claims.{
  DraftLibrary, is_blank, remove_draft_claims, begin_send_attempt, SendAttemptOptions,
}
use mail_cli.Drafts.Receipts.{Out, empty_result, result_for_receipt, read_active_send_receipt}
use mail_cli.Drafts.Files.{
  require_draft_revision, reject_claimed_draft, ReadDraft, found, missing, unreadable,
  read_draft_file, discard_draft_files, replay_send_attempt,
}
use mail_cli.Drafts.Submit.{after_claim}

abbrev pub stop : Failure → Out
stop e = (empty_result, some e)

unfoldable pub is_not_found : Failure → Bool
is_not_found e = elim (first_code e) [ none ↦ false | some code ↦ bytes_equal code not_found ]

-- The receipt of a finished send; a read that says `not_found` counts as none.
unfoldable pub receipt_or_return : Answer (Option SendReceipt) → Body Out (Option SendReceipt)
unfolding is_not_found
receipt_or_return (got r) = pure r
receipt_or_return (refused e) = if is_not_found e then pure none else give_back (stop e)

abbrev is_new : DraftKind → Bool
is_new new = true
is_new _ = false

abbrev is_forward : DraftKind → Bool
is_forward forward = true
is_forward _ = false

unfoldable pub recipient_count : Draft → ℕ
recipient_count d = length d.to + length d.cc_list + length d.bcc

module _ (lib : DraftLibrary) (ref expected : Bytes) where
  unfoldable pub receipt_without_draft : SendReceipt → Body Out Out
  unfolding ◌>>=◌ or_return require_draft_revision result_for_receipt remove_draft_claims quiet
      join_answers
  receipt_without_draft r = do
    or_return stop (require_draft_revision expected r.draft_revision)
    let result = result_for_receipt lib r
    claims ← remove_draft_claims lib
    lock ← quiet
    or_return (λ e. (result, some (operation send_cleanup_failed))) (join_answers claims lock)
    pure (result, none)

  unfoldable pub receipt_or_missing : Option SendReceipt → Body Out Out
  unfolding ◌>>=◌ or_return quiet receipt_without_draft
  receipt_or_missing (some r) = receipt_without_draft r
  receipt_or_missing none = do
    lock ← quiet
    or_return (λ e. stop (join (operation not_found) e)) lock
    pure (stop (operation not_found))

  unfoldable pub without_draft : Body Out Out
  unfolding ◌>>=◌ invoke read_active_send_receipt receipt_or_return receipt_or_missing
  without_draft = do
    read ← invoke (read_active_send_receipt lib ref)
    receipt ← receipt_or_return read
    receipt_or_missing receipt

  unfoldable pub receipt_with_draft : SendReceipt → Body Out Out
  unfolding ◌>>=◌ or_return require_draft_revision result_for_receipt invoke discard_draft_files
  receipt_with_draft r = do
    or_return stop (require_draft_revision expected r.draft_revision)
    let result = result_for_receipt lib r
    discarded ← invoke (discard_draft_files lib)
    or_return (λ e. (result, some (operation send_cleanup_failed))) discarded
    pure (record result { draft_retained = false }, none)

  unfoldable pub options_for :
      Draft
      → Bytes
      → Bytes
      → Option AcceptedMessageSpool
      → Option SendRecoveryIdentity
      → SendAttemptOptions
  options_for d message_id mime_fingerprint spool identity = record {
    draft_revision = d.revision;
    message_id = message_id;
    envelope_fingerprint = lib.envelope_fingerprint d message_id;
    mime_fingerprint = mime_fingerprint;
    recovery_spool = spool;
    recovery_identity = identity;
    baseline = none;
  }

  -- The claim is written, or the send ends without a submission.
  unfoldable pub claimed : Answer SendAttempt → Body Out Out
  unfolding ◌>>=◌ or_return quiet after_claim
  claimed (got a) = after_claim lib ref a
  claimed (refused e) = do cleaned ← quiet; or_return (λ f. stop (join e f)) cleaned; pure (stop e)

  -- What SendDraft does before the claim.
  unfoldable pub prepare_submission : Draft → Body Out SendAttemptOptions
  unfolding ◌>>=◌ check checks obtain ask_spool ask_identity or_return options_for recipient_count
  prepare_submission d = do
    return_if (is_new d.kind && is_blank lib d.from_address) (stop (operation validation_error))
    return_if (is_forward d.kind && recipient_count d == 0) (stop (operation validation_error))
    -- the transport, the sender, its hosts
    checks 3 stop
    pinned ← ask_identity
    identity ← or_return stop pinned
    -- the mutation lock
    check stop
    message_id ← obtain stop
    -- the envelope, the composed message, the password
    checks 3 stop
    mime_fingerprint ← obtain stop
    -- an unclaimed spool of an earlier send is removed
    check stop
    kept ← ask_spool
    spool ← or_return (λ e. stop (operation send_recovery_spool_persist_failed)) kept
    pure (options_for d message_id mime_fingerprint (some spool) (some identity))

  unfoldable pub begin_and_submit : SendAttemptOptions → Body Out Out
  unfolding ◌>>=◌ invoke begin_send_attempt claimed
  begin_and_submit options = do begun ← invoke (begin_send_attempt options); claimed begun

  unfoldable pub submit_draft : Draft → Body Out Out
  unfolding ◌>>=◌ prepare_submission begin_and_submit
  submit_draft d = do options ← prepare_submission d; begin_and_submit options

  unfoldable pub receipt_or_submit : Draft → Option SendReceipt → Body Out Out
  unfolding receipt_with_draft submit_draft
  receipt_or_submit d (some r) = receipt_with_draft r
  receipt_or_submit d none = submit_draft d

  unfoldable pub unclaimed : Draft → Body Out Out
  unfolding ◌>>=◌ invoke read_active_send_receipt receipt_or_return receipt_or_submit
  unclaimed d = do
    read ← invoke (read_active_send_receipt lib ref)
    receipt ← receipt_or_return read
    receipt_or_submit d receipt

  unfoldable pub replay : SendAttempt → Body Out Out
  unfolding ◌>>=◌ or_return require_draft_revision replay_send_attempt
  replay a = do
    or_return stop (require_draft_revision expected a.draft_revision)
    replay_send_attempt lib ref a

  abbrev is_set : Option Bytes → Bool
  is_set none = false
  is_set (some id) = true

  unfoldable pub replay_or_send : Draft → Option SendAttempt → Body Out Out
  unfolding replay unclaimed
  replay_or_send d (some a) = replay a
  replay_or_send d none = unclaimed d

  -- The checks of the draft and its other claims.
  unfoldable pub check_draft : Draft → Body Out (Unit {0})
  unfolding ◌>>=◌ or_return require_draft_revision check reject_claimed_draft recipient_count
  check_draft d = do
    or_return stop (require_draft_revision expected d.revision)
    check stop
    return_if (is_set d.handoff_attempt) (empty_result, reject_claimed_draft d)
    return_if (is_set d.save_attempt) (empty_result, reject_claimed_draft d)
    check stop
    return_if (recipient_count d == 0) (stop (operation validation_error))
    check stop

  unfoldable pub with_draft : Draft → Body Out Out
  unfolding ◌>>=◌ check_draft replay_or_send
  with_draft d = do check_draft d; replay_or_send d d.send_attempt

  unfoldable pub prepare_send : Body Out (Unit {0})
  unfolding ◌>>=◌ check checks
  prepare_send = do
    check stop
    return_if (bytes_equal expected []) (stop (operation validation_error))
    -- the directory of the drafts, the lease, the context again
    checks 3 stop

  unfoldable pub send_read : ReadDraft → Body Out Out
  unfolding with_draft without_draft
  send_read (found d) = with_draft d
  send_read missing = without_draft
  send_read (unreadable e) = pure (stop e)

  unfoldable pub send_draft : Body Out Out
  unfolding ◌>>=◌ prepare_send invoke read_draft_file send_read
  send_draft = do prepare_send; read ← invoke (read_draft_file lib); send_read read
