-- ===== src/Drafts/Reconcile.antt =====
-- internal/mail/draft_send.go: ReconcileDraft, which finishes a send that was interrupted by looking
-- for its message in the Sent mailbox, and never submits it again.
use mail_cli.Common.{◌&&◌}
use mail_cli.Common.{true, false, not, ◌||◌, Option, none, some, [], ◌∷◌}
use mail_cli.Common.{Bytes, bytes_equal, if◌then◌else◌}
use mail_cli.Errors.{Failure}
use mail_cli.Drafts.Data.{Draft, SendAttempt, SendReceipt}
use mail_cli.Drafts.Codes.{operation, send_cleanup_failed, send_reconcile_unavailable}
use mail_cli.Drafts.World.{
  Body, ◌>>=◌, ◌>>◌, pure, Answer, got, refused, or_return, return_if, join_answers, quiet, check,
  checks, ask_clock, invoke,
}
use mail_cli.Drafts.Claims.{DraftLibrary, remove_draft_claims}
use mail_cli.Drafts.Receipts.{Out, is_terminal, result_for_receipt, read_active_send_receipt}
use mail_cli.Drafts.Files.{
  ReadDraft, found, missing, unreadable, read_draft_file, discard_draft_files, replay_send_attempt,
}
use mail_cli.Drafts.Send.{stop, is_not_found}
use mail_cli.Drafts.Mirror.{
  Service, fail_on, fail_with, is_pending, is_set, is_unknown, not_found_with, not_observed_code,
  observe_send, observed_attempt, reconcile_mirror_pending, reconcile_unknown_via_imap, settle,
}

module _ (lib : DraftLibrary) (ref : Bytes) where
  unfoldable pub observe : SendAttempt → Option Bytes → Body Out Out
  unfolding ◌>>=◌ ask_clock observed_attempt settle
  observe a none = pure (fail_with lib ref a (not_observed_code a.outcome))
  observe a (some []) = pure (fail_with lib ref a (not_observed_code a.outcome))
  observe a (some (c ∷ cs)) = do now ← ask_clock; settle lib ref (observed_attempt (c ∷ cs) now a)

  unfoldable pub reconcile_with_gateway : Service → SendAttempt → Body Out Out
  unfolding ◌>>=◌ or_return observe_send observe
  reconcile_with_gateway service a = do
    return_if (not (service.has_gateway && service.has_reconciler))
        (fail_with lib ref a send_reconcile_unavailable)
    answered ← observe_send
    evidence ← or_return (fail_on lib ref a) answered
    observe a evidence

  unfoldable pub replayed_terminal : SendAttempt → Body Out Out
  unfolding ◌>>=◌ invoke replay_send_attempt
  replayed_terminal a = do
    replayed ← invoke (replay_send_attempt lib ref a)
    pure (record (replayed.0) { reconciled = true }, replayed.1)

  unfoldable pub without_baseline : Service → Draft → SendAttempt → Body Out Out
  unfolding reconcile_unknown_via_imap
  without_baseline service d a =
      if not (is_unknown a.outcome) || bytes_equal a.message_id []
      then pure (fail_with lib ref a send_reconcile_unavailable)
      else reconcile_unknown_via_imap lib ref service d a

  unfoldable pub reconcile_attempt : Service → Draft → SendAttempt → Body Out Out
  unfolding replayed_terminal reconcile_mirror_pending without_baseline reconcile_with_gateway
  reconcile_attempt service d a =
      if is_terminal a.outcome
      then replayed_terminal a
      else if is_pending a.outcome
      then reconcile_mirror_pending lib ref service a
      else if is_set a.observation_baseline
      then reconcile_with_gateway service a
      else without_baseline service d a

  unfoldable pub receipt_of_draft : SendReceipt → Body Out Out
  unfolding ◌>>=◌ or_return invoke result_for_receipt discard_draft_files
  receipt_of_draft r =
      let result = record (result_for_receipt lib r) { reconciled = true } in
      do
        discarded ← invoke (discard_draft_files lib)
        or_return (λ e. (result, some (operation send_cleanup_failed))) discarded
        pure (record result { draft_retained = false }, none)

  unfoldable pub receipt_or_unavailable : Option SendReceipt → Body Out Out
  unfolding receipt_of_draft
  receipt_or_unavailable (some r) = receipt_of_draft r
  receipt_or_unavailable none = pure (stop (operation send_reconcile_unavailable))

  unfoldable pub unattempted : Body Out Out
  unfolding ◌>>=◌ or_return invoke read_active_send_receipt receipt_or_unavailable
  unattempted = do
    read ← invoke (read_active_send_receipt lib ref)
    receipt ← or_return stop read
    receipt_or_unavailable receipt

  unfoldable pub receipt_alone : SendReceipt → Body Out Out
  unfolding ◌>>=◌ or_return result_for_receipt remove_draft_claims quiet join_answers
  receipt_alone r =
      let result = record (result_for_receipt lib r) { reconciled = true } in
      do
        claims ← remove_draft_claims lib
        lock ← quiet
        or_return (λ e. (result, some (operation send_cleanup_failed))) (join_answers claims lock)
        pure (result, none)

  unfoldable pub alone : Failure → Answer (Option SendReceipt) → Body Out Out
  unfolding receipt_alone is_not_found
  alone e (got none) = pure (stop e)
  alone e (got (some r)) = receipt_alone r
  alone e (refused f) = pure (stop (if is_not_found f then e else f))

  -- The lock is removed while the missing draft is read.
  unfoldable pub reconcile_without_draft : Body Out Out
  unfolding ◌>>=◌ quiet invoke read_active_send_receipt alone
  reconcile_without_draft = do
    lock ← quiet
    let missing_draft = not_found_with lock
    read ← invoke (read_active_send_receipt lib ref)
    alone missing_draft read

  unfoldable pub reconcile_claim : Service → Draft → Option SendAttempt → Body Out Out
  unfolding unattempted reconcile_attempt
  reconcile_claim service d none = unattempted
  reconcile_claim service d (some a) = reconcile_attempt service d a

  unfoldable pub reconcile_read : Service → ReadDraft → Body Out Out
  unfolding reconcile_claim reconcile_without_draft
  reconcile_read service (found d) = reconcile_claim service d d.send_attempt
  reconcile_read service missing = reconcile_without_draft
  reconcile_read service (unreadable e) = pure (stop e)

  unfoldable pub prepare_reconcile : Body Out (Unit {0})
  unfolding ◌>>=◌ check checks
  prepare_reconcile = do
    check stop
    -- the directory of the drafts, the lease, the context again
    checks 3 stop

  unfoldable pub reconcile_draft : Service → Body Out Out
  unfolding ◌>>=◌ prepare_reconcile invoke read_draft_file reconcile_read
  reconcile_draft service = do
    prepare_reconcile
    read ← invoke (read_draft_file lib)
    reconcile_read service read
