-- ===== src/Drafts/Receipts.antt =====
-- internal/mail/draft_claims.go and draft_state.go: the receipt of a finished send, written once, and
-- the results that a send reports.
use mail_cli.Common.{ℕ, ◌+◌, ◌*◌, ◌^◌, Bool, true, false, not, ◌&&◌, ◌||◌, ltb, ◌==◌}
use mail_cli.Common.{Option, none, some, [], Bytes, bytes_equal, if◌then◌else◌}
use mail_cli.Errors.{Failure}
use mail_cli.Drafts.Data.{
  SendOutcome, observed, accepted, sent, mirror_pending, unknown, TransportEvidence, SendAttempt,
  SendReceipt, SendResult,
}
use mail_cli.Drafts.Codes.{
  operation, send_receipt_invalid, send_receipt_expired, send_receipt_conflict,
}
use mail_cli.Drafts.World.{
  Disk, Fate, works, fails, fails_late, died, next, Body, ◌>>=◌, ◌>>◌, pure, ask, read_with, Exit,
  unchanged, Answer, got, refused, or_return, return_if, quiet, ask_clock, invoke,
}
use mail_cli.Drafts.Claims.{DraftLibrary, is_blank, valid_stored_draft_revision}

abbrev pub Out : Type 0
Out = SendResult × Option Failure

-- 30 days in nanoseconds.
abbrev pub send_receipt_retention : ℕ
send_receipt_retention = 30 * 24 * 3600 * 10 ^ 9

abbrev pub same_outcome : SendOutcome → SendOutcome → Bool
same_outcome observed observed = true
same_outcome accepted accepted = true
same_outcome sent sent = true
same_outcome mirror_pending mirror_pending = true
same_outcome unknown unknown = true
same_outcome _ _ = false

abbrev pub same_bool : Bool → Bool → Bool
same_bool true b = b
same_bool false b = not b

abbrev pub is_terminal : SendOutcome → Bool
is_terminal observed = true
is_terminal sent = true
is_terminal _ = false

-- `SendResult{}`
abbrev pub empty_result : SendResult
empty_result = record {
  draft_ref = [];
  attempt_id = [];
  outcome = none;
  accepted = false;
  submission_accepted = false;
  invocation_started = false;
  accepted_by_mail = false;
  sent_store_observed = false;
  sent_copy_observed = false;
  observed_message_ref = [];
  draft_retained = false;
  replayed = false;
  reconciled = false;
  receipt = none;
}

-- The transport evidence, or the empty one where a claim has none.
unfoldable pub evidence_of : SendAttempt → TransportEvidence
evidence_of a = elim a.transport [
  | some t ↦ t
  | none ↦ record {
    server_response = [];
    message_id = [];
    submission_stage = [];
    submission_accepted = false;
    mirror_mailbox = [];
    mirror_uid_validity = 0;
    mirror_uid = 0;
    mirror_attempt_id = [];
    mirror_appended = false;
    mirror_attempted = false;
    mirror_outcome_unknown = false;
  }
]

unfoldable pub send_receipts_equal : SendReceipt → SendReceipt → Bool
send_receipts_equal l r =
    bytes_equal l.draft_ref r.draft_ref
    && bytes_equal l.attempt_id r.attempt_id
    && bytes_equal l.draft_revision r.draft_revision
    && l.started_at == r.started_at
    && l.completed_at == r.completed_at
    && l.expires_at == r.expires_at
    && same_outcome l.outcome r.outcome
    && same_bool l.accepted r.accepted
    && same_bool l.submission_accepted r.submission_accepted
    && same_bool l.sent_copy_observed r.sent_copy_observed
    && bytes_equal l.observed_message_ref r.observed_message_ref
    && bytes_equal l.message_id r.message_id
    && bytes_equal l.server_response r.server_response
    && bytes_equal l.sent_mailbox r.sent_mailbox
    && l.uid_validity == r.uid_validity
    && l.uid == r.uid
    && same_bool l.sent_appended r.sent_appended

-- The fields of a retained receipt that `ensureSendReceipt` compares.
unfoldable pub matches_attempt : SendReceipt → SendReceipt → Bool
matches_attempt r derived =
    bytes_equal r.draft_ref derived.draft_ref
    && bytes_equal r.attempt_id derived.attempt_id
    && bytes_equal r.draft_revision derived.draft_revision
    && same_outcome r.outcome derived.outcome
    && same_bool r.accepted derived.accepted
    && same_bool r.submission_accepted derived.submission_accepted
    && same_bool r.sent_copy_observed derived.sent_copy_observed

unfoldable pub valid_send_receipt : Bytes → SendReceipt → Bool
unfolding valid_stored_draft_revision
valid_send_receipt ref r =
    bytes_equal r.draft_ref ref
    && not (bytes_equal r.attempt_id [])
    && not (r.started_at == 0)
    && not (r.completed_at == 0)
    && not (r.expires_at == 0)
    && not (ltb r.completed_at r.started_at)
    && not (ltb r.expires_at r.completed_at)
    && r.accepted
    && r.expires_at == r.completed_at + send_receipt_retention
    && valid_stored_draft_revision r.draft_revision
    && is_terminal r.outcome

module _ (lib : DraftLibrary) where
  unfoldable pub submission_accepted_for_attempt : SendAttempt → Bool
  submission_accepted_for_attempt a = elim a.transport [
    | none ↦ false
    | some t ↦ t.submission_accepted || not (is_blank lib t.server_response)
  ]

  unfoldable pub result_for_attempt : Bytes → SendAttempt → Bool → SendResult
  unfolding submission_accepted_for_attempt
  result_for_attempt ref a draft_retained = record {
    draft_ref = ref;
    attempt_id = a.id;
    outcome = some a.outcome;
    accepted = a.accepted_by_mail;
    submission_accepted = submission_accepted_for_attempt a;
    invocation_started = a.invocation_started;
    accepted_by_mail = a.accepted_by_mail;
    sent_store_observed = a.sent_store_observed;
    sent_copy_observed = a.sent_store_observed;
    observed_message_ref = a.observed_message_ref;
    draft_retained = draft_retained;
    replayed = false;
    reconciled = false;
    receipt = none;
  }

  unfoldable pub result_for_reconcile : Bytes → SendAttempt → SendResult
  unfolding result_for_attempt
  result_for_reconcile ref a = record (result_for_attempt ref a true) { reconciled = true }

  unfoldable pub receipt_from_attempt : Bytes → SendAttempt → SendReceipt
  unfolding submission_accepted_for_attempt evidence_of
  receipt_from_attempt ref a =
      let t = evidence_of a in
      record {
        draft_ref = ref;
        draft_revision = a.draft_revision;
        attempt_id = a.id;
        started_at = a.started_at;
        completed_at = a.updated_at;
        expires_at = a.updated_at + send_receipt_retention;
        outcome = a.outcome;
        accepted = a.accepted_by_mail || a.sent_store_observed;
        submission_accepted = submission_accepted_for_attempt a;
        sent_copy_observed = a.sent_store_observed;
        observed_message_ref = a.observed_message_ref;
        message_id = if bytes_equal t.message_id [] then a.message_id else t.message_id;
        server_response = t.server_response;
        sent_mailbox = t.mirror_mailbox;
        uid_validity = t.mirror_uid_validity;
        uid = t.mirror_uid;
        sent_appended = t.mirror_appended;
      }

  unfoldable pub normalize_send_receipt : SendReceipt → SendReceipt
  normalize_send_receipt r = record r {
    submission_accepted = r.submission_accepted || not (is_blank lib r.server_response);
    sent_copy_observed = r.sent_copy_observed || is_terminal r.outcome;
  }

  unfoldable pub result_for_receipt : SendReceipt → SendResult
  unfolding normalize_send_receipt
  result_for_receipt receipt =
      let r = normalize_send_receipt receipt in
      record {
        draft_ref = r.draft_ref;
        attempt_id = r.attempt_id;
        outcome = some r.outcome;
        accepted = r.accepted;
        submission_accepted = r.submission_accepted;
        invocation_started = true;
        accepted_by_mail = r.accepted;
        sent_store_observed = r.sent_copy_observed;
        sent_copy_observed = r.sent_copy_observed;
        observed_message_ref = [];
        draft_retained = false;
        replayed = true;
        reconciled = false;
        receipt = some r;
      }

  module _ (ref : Bytes) where
    unfoldable pub decoded_receipt : Option SendReceipt → Answer (Option SendReceipt)
    unfolding normalize_send_receipt valid_send_receipt
    decoded_receipt none = got none
    decoded_receipt (some written) = elim (lib.stored_receipt written) [
      | none ↦ refused (operation send_receipt_invalid)
      | some stored ↦
          let r = normalize_send_receipt stored in
          if valid_send_receipt ref r
          then got (some r)
          else refused (operation send_receipt_invalid)
    ]

    unfoldable pub read_send_receipt : {R : Type 0} → Body R (Answer (Option SendReceipt))
    unfolding decoded_receipt read_with
    read_send_receipt = read_with (λ d. decoded_receipt d.send_receipt)

    unfoldable pub active_at : ℕ → SendReceipt → Answer (Option SendReceipt)
    active_at now r =
        if not (ltb now r.expires_at)
        then refused (operation send_receipt_expired)
        else got (some r)

    unfoldable pub when_active :
        Option SendReceipt → Body (Answer (Option SendReceipt)) (Answer (Option SendReceipt))
    unfolding ◌>>=◌ ask_clock active_at
    when_active none = pure (got none)
    when_active (some r) = do now ← ask_clock; pure (active_at now r)

    unfoldable pub read_active_send_receipt :
        Body (Answer (Option SendReceipt)) (Answer (Option SendReceipt))
    unfolding ◌>>=◌ or_return read_send_receipt when_active
    read_active_send_receipt = do
      read ← read_send_receipt
      found ← or_return refused read
      when_active found

    -- `writePrivateDraftFile` with O_EXCL; `none` is os.ErrExist.
    abbrev pub create_receipt_step :
        {R : Type 0} → SendReceipt → Fate → Disk → Exit R (Answer Bool) × Disk
    create_receipt_step r works d = elim d.send_receipt [
      | some old ↦ (next (got false), d)
      | none ↦ (next (got true), record d { send_receipt = some r })
    ]
    create_receipt_step r (fails e) d = (next (refused e), d)
    create_receipt_step r (fails_late e) d = elim d.send_receipt [
      | some old ↦ (next (got false), d)
      | none ↦ (next (refused e), record d { send_receipt = some r })
    ]
    create_receipt_step r _ d = (died, d)

    unfoldable pub create_receipt : {R : Type 0} → SendReceipt → Body R (Answer Bool)
    unfolding ask
    create_receipt r = ask (create_receipt_step r) unchanged

    unfoldable pub same_or_conflict : SendReceipt → SendReceipt → Answer (Unit {0})
    unfolding send_receipts_equal
    same_or_conflict existing r =
        if send_receipts_equal existing r then got tt else refused (operation send_receipt_conflict)

    unfoldable pub found_or_conflict : SendReceipt → Option SendReceipt → Answer (Unit {0})
    unfolding same_or_conflict
    found_or_conflict r none = refused (operation send_receipt_conflict)
    found_or_conflict r (some existing) = same_or_conflict existing r

    unfoldable pub write_receipt : SendReceipt → Body (Answer (Unit {0})) (Answer (Unit {0}))
    unfolding ◌>>=◌ or_return quiet create_receipt read_send_receipt found_or_conflict
    write_receipt r = do
      encoded ← quiet
      or_return refused encoded
      written ← create_receipt r
      created ← or_return refused written
      if created then pure (got tt) else do
        read ← read_send_receipt
        existing ← or_return refused read
        pure (found_or_conflict r existing)

    unfoldable pub kept_or_written :
        SendReceipt → Option SendReceipt → Body (Answer (Unit {0})) (Answer (Unit {0}))
    unfolding same_or_conflict write_receipt
    kept_or_written r (some existing) = pure (same_or_conflict existing r)
    kept_or_written r none = write_receipt r

    unfoldable pub persist_send_receipt : SendReceipt → Body (Answer (Unit {0})) (Answer (Unit {0}))
    unfolding ◌>>=◌ or_return normalize_send_receipt valid_send_receipt read_send_receipt
        kept_or_written
    persist_send_receipt receipt =
        let r = normalize_send_receipt receipt in
        do
          return_if (not (valid_send_receipt ref r)) (refused (operation send_receipt_invalid))
          read ← read_send_receipt
          existing ← or_return refused read
          kept_or_written r existing

    unfoldable pub retained_receipt : ℕ → SendReceipt → SendReceipt → Answer SendReceipt
    unfolding matches_attempt
    retained_receipt now r derived =
        if not (ltb now r.expires_at)
        then refused (operation send_receipt_expired)
        else if not (matches_attempt r derived)
        then refused (operation send_receipt_conflict)
        else got r

    unfoldable pub retained_or_new :
        SendReceipt → Option SendReceipt → Body (Answer SendReceipt) (Answer SendReceipt)
    unfolding ◌>>=◌ or_return invoke ask_clock retained_receipt persist_send_receipt
    retained_or_new derived (some r) = do later ← ask_clock; pure (retained_receipt later r derived)
    retained_or_new derived none = do
      persisted ← invoke (persist_send_receipt derived)
      or_return refused persisted
      pure (got derived)

    unfoldable pub ensure_send_receipt :
        SendAttempt → Body (Answer SendReceipt) (Answer SendReceipt)
    unfolding ◌>>=◌ or_return receipt_from_attempt read_send_receipt ask_clock retained_or_new
    ensure_send_receipt a =
        let derived = receipt_from_attempt ref a in
        do
          now ← ask_clock
          return_if (not (ltb now derived.expires_at)) (refused (operation send_receipt_expired))
          read ← read_send_receipt
          existing ← or_return refused read
          retained_or_new derived existing
