-- ===== src/Drafts/Requirement.antt =====
-- internal/mail/draft_reconcile_requirement.go: when the reconciliation of a draft needs the local Mail
-- store, whose gateway is then asked for the message.
use mail_cli.Common.{◌≡◌, refl, Bool, true, false, not, Option, none, some, Bytes, if◌then◌else◌}
use mail_cli.Drafts.Data.{Draft, SendAttempt}
use mail_cli.Drafts.World.{Body}
use mail_cli.Drafts.Claims.{DraftLibrary}
use mail_cli.Drafts.Receipts.{Out, is_terminal}
use mail_cli.Drafts.Files.{ReadDraft, found, missing, unreadable}
use mail_cli.Drafts.Mirror.{
  Service, is_pending, is_set, reconcile_mirror_pending, check_mirror, mirror_or_search,
  search_then_mirror, adopt_or_retry, retry_mirror, dispatch_mirror, append_answered, after_append,
  reconcile_unknown_via_imap,
}
use mail_cli.Drafts.Reconcile.{
  reconcile_read, reconcile_claim, reconcile_attempt, without_baseline, reconcile_with_gateway,
  replayed_terminal,
}

-- `read` is the draft with its claims, as far as it could be read, and `has_receipt` says whether an
-- active receipt was read.
unfoldable pub attempt_requires : SendAttempt → Bool
attempt_requires a =
    if is_terminal a.outcome
    then false
    else if is_pending a.outcome
    then false
    else is_set a.observation_baseline

unfoldable pub claim_requires : Option SendAttempt → Bool → Bool
unfolding attempt_requires
claim_requires none has_receipt = not has_receipt
claim_requires (some a) has_receipt = attempt_requires a

unfoldable pub draft_reconcile_requires_mail_store : ReadDraft → Bool → Bool
unfolding claim_requires
draft_reconcile_requires_mail_store (unreadable e) has_receipt = true
draft_reconcile_requires_mail_store missing has_receipt = not has_receipt
draft_reconcile_requires_mail_store (found d) has_receipt =
    claim_requires d.send_attempt has_receipt

module _ (lib : DraftLibrary) (ref : Bytes) (service : Service) (reconciles : Bool) where
  abbrev other : Service
  other = record service { has_reconciler = reconciles }

  pending_same :
      (a : SendAttempt)
      → reconcile_mirror_pending lib ref service a ≡ reconcile_mirror_pending lib ref other a
  unfolding reconcile_mirror_pending check_mirror mirror_or_search search_then_mirror adopt_or_retry
      retry_mirror dispatch_mirror append_answered after_append
  pending_same a = refl

  baseline_same :
      (d : Draft) (a : SendAttempt)
      → without_baseline lib ref service d a ≡ without_baseline lib ref other d a
  unfolding without_baseline reconcile_unknown_via_imap
  baseline_same d a = refl

  attempt_same :
      (d : Draft) (a : SendAttempt)
      → attempt_requires a ≡ false
      → reconcile_attempt lib ref service d a ≡ reconcile_attempt lib ref other d a
  unfolding reconcile_attempt attempt_requires
  attempt_same d a h =
      by_outcome (is_terminal a.outcome) (is_pending a.outcome) (is_set a.observation_baseline) h
    where
      by_outcome :
          (t p b : Bool)
          → (if t then false else if p then false else b) ≡ false
          → ◌≡◌ {A = Body Out Out}
              (if t
                then replayed_terminal lib ref a
                else if p
                then reconcile_mirror_pending lib ref service a
                else if b
                then reconcile_with_gateway lib ref service a
                else without_baseline lib ref service d a)
              (if t
                then replayed_terminal lib ref a
                else if p
                then reconcile_mirror_pending lib ref other a
                else if b
                then reconcile_with_gateway lib ref other a
                else without_baseline lib ref other d a)
      by_outcome true p b h = refl
      by_outcome false true b h = pending_same a
      by_outcome false false true h = cc
      by_outcome false false false h = baseline_same d a

  claim_same :
      (d : Draft) (o : Option SendAttempt) (r : Bool)
      → claim_requires o r ≡ false
      → reconcile_claim lib ref service d o ≡ reconcile_claim lib ref other d o
  unfolding claim_requires reconcile_claim
  claim_same d none r h = refl
  claim_same d (some a) r h = attempt_same d a h

  -- Where the reconciliation of a draft as read is said not to need the local Mail store, it is the same
  -- whether or not the gateway of the service, if it has one, is a `SendReconciler`.
  pub requirement_sound :
      (x : ReadDraft) (r : Bool)
      → draft_reconcile_requires_mail_store x r ≡ false
      → reconcile_read lib ref service x ≡ reconcile_read lib ref other x
  unfolding draft_reconcile_requires_mail_store reconcile_read
  requirement_sound (found d) r h = claim_same d d.send_attempt r h
  requirement_sound missing r h = refl
  requirement_sound (unreadable e) r h = refl
