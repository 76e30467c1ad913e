-- ===== src/Drafts/Files.antt =====
-- internal/mail/draft_state.go, draft_persistence.go and draft_revision.go: reading a draft with its
-- claims, discarding its files, and the end of a send whose Sent copy is observed.
use mail_cli.Common.{Bool, true, false, ◌&&◌, ◌||◌, Option, none, some, [], ◌∷◌, Bytes}
use mail_cli.Common.{bytes_equal, if◌then◌else◌}
use mail_cli.Errors.{Failure}
use mail_cli.Drafts.Data.{Draft, SendOutcome, accepted, mirror_pending, SendAttempt}
use mail_cli.Drafts.Codes.{
  operation, not_found, validation_error, draft_state_error, draft_revision_unavailable,
  draft_revision_conflict, send_receipt_persist_failed, send_receipt_unavailable,
  send_cleanup_failed, send_mirror_pending, send_not_observed, send_outcome_unknown,
  send_retry_blocked, draft_save_retry_blocked, handoff_retry_blocked,
}
use mail_cli.Drafts.World.{
  Disk, Fate, works, fails, died, next, Body, ◌>>=◌, ◌>>◌, pure, ask, read_with, Exit, unchanged,
  Answer, got, refused, or_return, join_answers, quiet, invoke,
}
use mail_cli.Drafts.Claims.{DraftLibrary, read_send_attempt, remove_draft_claims}
use mail_cli.Drafts.Receipts.{Out, result_for_attempt, ensure_send_receipt, is_terminal}

-- `requireDraftRevision`
unfoldable pub require_draft_revision : (expected current : Bytes) → Answer (Unit {0})
require_draft_revision [] current = refused (operation validation_error)
require_draft_revision (e ∷ es) [] = refused (operation draft_revision_unavailable)
require_draft_revision (e ∷ es) (c ∷ cs) =
    if bytes_equal (e ∷ es) (c ∷ cs) then got tt else refused (operation draft_revision_conflict)

unfoldable pub reject_claimed_draft : Draft → Option Failure
reject_claimed_draft d = elim d.send_attempt [
  | some a ↦ some (operation send_retry_blocked)
  | none ↦ elim d.save_attempt [
    | some id ↦ some (operation draft_save_retry_blocked)
    | none ↦ elim d.handoff_attempt [
      | some id ↦ some (operation handoff_retry_blocked)
      | none ↦ none
    ]
  ]
]

pub data ReadDraft : Type 0 where
  found : Draft → ReadDraft
  missing : ReadDraft
  unreadable : Failure → ReadDraft

abbrev pub invalid_state : Failure → ReadDraft
invalid_state e = unreadable (operation draft_state_error)

abbrev is_set : {A : Type 0} → Option A → Bool
is_set none = false
is_set (some a) = true

-- The claims that exclude each other.
unfoldable pub conflicting : Option SendAttempt → Option Bytes → Option Bytes → Bool
conflicting send save handoff =
    (is_set send && is_set save) || (is_set handoff && (is_set send || is_set save))

unfoldable pub load_document : {R : Type 0} → Body R (Answer (Option Draft))
unfolding read_with
load_document = read_with (λ d. got d.draft)

unfoldable pub read_save_claim : {R : Type 0} → Body R (Answer (Option Bytes))
unfolding read_with
read_save_claim = read_with (λ d. got d.save_claim)

unfoldable pub read_handoff_attempt : {R : Type 0} → Body R (Answer (Option Bytes))
unfolding read_with
read_handoff_attempt = read_with (λ d. got d.handoff_claim)

-- Removing the draft's file: whether it was there.
abbrev pub remove_step : {R : Type 0} → Fate → Disk → Exit R (Answer Bool) × Disk
remove_step works d = elim d.draft [
  | none ↦ (next (got false), d)
  | some x ↦ (next (got true), record d { draft = none })
]
remove_step (fails e) d = (next (refused e), d)
remove_step _ d = (died, d)

unfoldable pub remove_draft_file : {R : Type 0} → Body R (Answer Bool)
unfolding ask
remove_draft_file = ask remove_step unchanged

module _ (lib : DraftLibrary) where
  -- The draft with its revision, its content checked and its claims attached.
  unfoldable pub attached : Draft → Option SendAttempt → Option Bytes → Option Bytes → ReadDraft
  unfolding conflicting
  attached x send save handoff =
      if conflicting send save handoff
      then unreadable (operation draft_state_error)
      else found (record x {
        revision = lib.revision_of x;
        send_attempt = send;
        save_attempt = save;
        handoff_attempt = handoff;
      })

  unfoldable pub read_claims : Draft → Body ReadDraft ReadDraft
  unfolding ◌>>=◌ or_return quiet read_send_attempt read_save_claim read_handoff_attempt attached
  read_claims x = do
    checked ← quiet
    or_return invalid_state checked
    send_read ← read_send_attempt lib
    send ← or_return invalid_state send_read
    save_read ← read_save_claim
    save ← or_return invalid_state save_read
    handoff_read ← read_handoff_attempt
    handoff ← or_return invalid_state handoff_read
    pure (attached x send save handoff)

  unfoldable pub read_document : Option Draft → Body ReadDraft ReadDraft
  unfolding read_claims
  read_document none = pure missing
  read_document (some x) = read_claims x

  unfoldable pub read_draft_file : Body ReadDraft ReadDraft
  unfolding ◌>>=◌ or_return load_document read_document
  read_draft_file = do
    loaded ← load_document
    document ← or_return invalid_state loaded
    read_document document

  -- The removals that follow that of the draft's file; every one is tried.
  unfoldable pub remove_rest : {R : Type 0} → Body R (Answer (Unit {0}))
  unfolding ◌>>=◌ quiet remove_draft_claims join_answers
  remove_rest = do
    claims ← remove_draft_claims lib
    attachments ← quiet
    lock ← quiet
    pure (join_answers (join_answers claims attachments) lock)

  unfoldable pub missing_removed : {R : Type 0} → Body R (Answer (Unit {0}))
  unfolding ◌>>=◌ quiet join_answers
  missing_removed = do lock ← quiet; pure (join_answers (refused (operation not_found)) lock)

  abbrev handoff_failure : Option Bytes → Answer (Unit {0})
  handoff_failure none = got tt
  handoff_failure (some id) = refused (operation handoff_retry_blocked)

  unfoldable pub after_removal : Bool → Body (Answer (Unit {0})) (Answer (Unit {0}))
  unfolding ◌>>=◌ or_return quiet remove_rest missing_removed
  after_removal false = missing_removed
  after_removal true = do synced ← quiet; or_return refused synced; remove_rest

  unfoldable pub discard_document : Body (Answer (Unit {0})) (Answer (Unit {0}))
  unfolding ◌>>=◌ or_return remove_draft_file after_removal
  discard_document = do
    removal ← remove_draft_file
    removed ← or_return refused removal
    after_removal removed

  unfoldable pub discard_draft_files : Body (Answer (Unit {0})) (Answer (Unit {0}))
  unfolding ◌>>=◌ or_return read_handoff_attempt quiet discard_document
  discard_draft_files = do
    read ← read_handoff_attempt
    handoff ← or_return refused read
    or_return refused (handoff_failure handoff)
    snapshot ← quiet
    or_return refused snapshot
    discard_document

  module _ (ref : Bytes) where
    unfoldable pub finish_observed_send : SendAttempt → Bool → Body Out Out
    unfolding ◌>>=◌ or_return invoke result_for_attempt ensure_send_receipt discard_draft_files
    finish_observed_send a reconciled =
        let first = record (result_for_attempt lib ref a true) { reconciled = reconciled } in
        do
          ensured ← invoke (ensure_send_receipt lib ref a)
          receipt ← or_return (λ e. (first, some (operation send_receipt_persist_failed))) ensured
          let result = record first { receipt = some receipt }
          discarded ← invoke discard_draft_files
          or_return (λ e. (result, some (operation send_cleanup_failed))) discarded
          pure (record result { draft_retained = false }, none)

    unfoldable pub replay_terminal : SendAttempt → Body Out Out
    unfolding ◌>>=◌ or_return invoke result_for_attempt ensure_send_receipt discard_draft_files
    replay_terminal a =
        let first = record (result_for_attempt lib ref a true) { replayed = true } in
        do
          ensured ← invoke (ensure_send_receipt lib ref a)
          receipt ← or_return (λ e. (first, some (operation send_receipt_unavailable))) ensured
          let result = record first { receipt = some receipt }
          discarded ← invoke discard_draft_files
          or_return (λ e. (result, some (operation send_cleanup_failed))) discarded
          pure (record result { draft_retained = false }, none)

    abbrev blocked_code : SendOutcome → Bytes
    blocked_code mirror_pending = send_mirror_pending
    blocked_code accepted = send_not_observed
    blocked_code _ = send_outcome_unknown

    unfoldable pub replay_send_attempt : SendAttempt → Body Out Out
    unfolding replay_terminal result_for_attempt
    replay_send_attempt a =
        if is_terminal a.outcome
        then replay_terminal a
        else pure (
          record (result_for_attempt lib ref a true) { replayed = true },
          some (operation (blocked_code a.outcome)),
        )
