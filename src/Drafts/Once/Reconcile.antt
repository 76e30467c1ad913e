-- ===== src/Drafts/Once/Reconcile.antt =====
-- internal/mail/draft_send.go: ReconcileDraft keeps the invariant.
use mail_cli.Common.{ℕ, ◌≡◌, refl, Bool, true, false, Option, none, some, [], ◌∷◌, Bytes}
use mail_cli.Common.{if◌then◌else◌}
use mail_cli.Errors.{Failure}
use mail_cli.Drafts.Data.{Draft, SendAttempt, SendReceipt}
use mail_cli.Drafts.World.{World, Answer, got, refused, invoke}
use mail_cli.Drafts.Claims.{DraftLibrary}
use mail_cli.Drafts.Receipts.{is_terminal, read_active_send_receipt}
use mail_cli.Drafts.Files.{ReadDraft, found, missing, unreadable, read_draft_file}
use mail_cli.Drafts.Mirror.{Service, is_set, reconcile_mirror_pending, is_pending}
use mail_cli.Drafts.Reconcile.{
  observe, reconcile_with_gateway, replayed_terminal, without_baseline, reconcile_attempt,
  receipt_of_draft, receipt_or_unavailable, unattempted, receipt_alone, alone,
  reconcile_without_draft, reconcile_claim, reconcile_read, prepare_reconcile, reconcile_draft,
}
use mail_cli.Drafts.Triples.{Ends, bind-Ends, invoke-Ends}
use mail_cli.Drafts.Keeps.{Keeps, body_rules, Keeps-weaker}
use mail_cli.Drafts.Once.{Once, Loose}
use mail_cli.Drafts.Once.Files.{
  discard_draft_files-Keeps, replay_send_attempt-Keeps, read_active_send_receipt-Keeps,
  receipt-Once, removed_claims-Keeps,
}
use mail_cli.Drafts.Once.Read.{Loaded, ReadFact, read_draft_file-Ends}
use mail_cli.Drafts.Once.Mirror.{
  look_rules, reconcile_mirror_pending-Ends, reconcile_unknown-Keeps, settle-observed_attempt-Keeps,
}

module _ (lib : DraftLibrary) (ref : Bytes) (n : ℕ) where
  observe-Keeps : (a : SendAttempt) (seen : Option Bytes) → Keeps (Once n) (observe lib ref a seen)
  unfolding observe
  observe-Keeps a none = search body_rules
  observe-Keeps a (some []) = search body_rules
  observe-Keeps a (some (c ∷ cs)) =
      search (body_rules, settle-observed_attempt-Keeps lib ref n) depth 14

  reconcile_with_gateway-Keeps :
      (service : Service) (a : SendAttempt)
      → Keeps (Once n) (reconcile_with_gateway lib ref service a)
  unfolding reconcile_with_gateway
  reconcile_with_gateway-Keeps service a = search (look_rules, observe-Keeps) depth 20

  replayed_terminal-Keeps : (a : SendAttempt) → Keeps (Once n) (replayed_terminal lib ref a)
  unfolding replayed_terminal
  replayed_terminal-Keeps a = search (body_rules, replay_send_attempt-Keeps) depth 14

  without_baseline-Keeps :
      (service : Service) (d : Draft) (a : SendAttempt)
      → Keeps (Once n) (without_baseline lib ref service d a)
  unfolding without_baseline
  without_baseline-Keeps service d a =
      search (body_rules, reconcile_unknown-Keeps lib ref n) depth 14

  other_outcome-Keeps :
      (service : Service) (d : Draft) (a : SendAttempt)
      → Keeps (Once n) (
          if is_set a.observation_baseline
          then reconcile_with_gateway lib ref service a
          else without_baseline lib ref service d a)
  other_outcome-Keeps service d a =
      search (body_rules, reconcile_with_gateway-Keeps, without_baseline-Keeps)

  reconcile_attempt-Ends :
      (service : Service) (d : Draft) (a : SendAttempt) (w : World)
      → Loaded n (some a) w.disk
      → Ends (Once n) (λ r. Once n) (λ r. Once n) (reconcile_attempt lib ref service d a w)
  unfolding reconcile_attempt
  reconcile_attempt-Ends service d a w h =
      by_outcome (is_terminal a.outcome) (is_pending a.outcome) refl
    where
      by_outcome :
          (terminal pending : Bool)
          → is_terminal a.outcome ≡ terminal
          → Ends
              (Once n)
              (λ r. Once n)
              (λ r. Once n)
              ((if terminal
                  then replayed_terminal lib ref a
                  else if pending
                  then reconcile_mirror_pending lib ref service a
                  else if is_set a.observation_baseline
                  then reconcile_with_gateway lib ref service a
                  else without_baseline lib ref service d a)
                w)
      by_outcome true pending e = (replayed_terminal-Keeps a).run w h.once
      by_outcome false true e = reconcile_mirror_pending-Ends lib ref n service a w e h
      by_outcome false false e = (other_outcome-Keeps service d a).run w h.once

  active-Keeps : Keeps (Once n) (read_active_send_receipt lib ref)
  active-Keeps = read_active_send_receipt-Keeps lib ref (Once n) (λ d r h. receipt-Once h r)

  receipt_of_draft-Keeps : (r : SendReceipt) → Keeps (Once n) (receipt_of_draft lib ref r)
  unfolding receipt_of_draft
  receipt_of_draft-Keeps r = search (body_rules, discard_draft_files-Keeps) depth 14

  receipt_or_unavailable-Keeps :
      (o : Option SendReceipt) → Keeps (Once n) (receipt_or_unavailable lib ref o)
  unfolding receipt_or_unavailable
  receipt_or_unavailable-Keeps none = search body_rules
  receipt_or_unavailable-Keeps (some r) = receipt_of_draft-Keeps r

  unattempted-Keeps : Keeps (Once n) (unattempted lib ref)
  unfolding unattempted
  unattempted-Keeps = search (body_rules, active-Keeps, receipt_or_unavailable-Keeps) depth 14

  receipt_alone-Keeps : (r : SendReceipt) → Keeps (Loose n) (receipt_alone lib ref r)
  unfolding receipt_alone
  receipt_alone-Keeps r = search (body_rules, removed_claims-Keeps) depth 20

  alone-Keeps :
      (e : Failure) (x : Answer (Option SendReceipt)) → Keeps (Loose n) (alone lib ref e x)
  unfolding alone
  alone-Keeps e (got none) = search body_rules
  alone-Keeps e (got (some r)) = receipt_alone-Keeps r
  alone-Keeps e (refused f) = search body_rules

  active_without_draft-Keeps : Keeps (Loose n) (read_active_send_receipt lib ref)
  active_without_draft-Keeps = read_active_send_receipt-Keeps lib ref (Loose n) (λ d r h. record {
    once = receipt-Once h.once r;
    without_claim = receipt-Once h.without_claim r;
  })

  reconcile_without_draft-Keeps : Keeps (Loose n) (reconcile_without_draft lib ref)
  unfolding reconcile_without_draft
  reconcile_without_draft-Keeps =
      search (body_rules, active_without_draft-Keeps, alone-Keeps) depth 14

  reconcile_claim-Ends :
      (service : Service) (d : Draft) (o : Option SendAttempt) (w : World)
      → Loaded n o w.disk
      → Ends (Once n) (λ r. Once n) (λ r. Once n) (reconcile_claim lib ref service d o w)
  unfolding reconcile_claim
  reconcile_claim-Ends service d none w h = unattempted-Keeps.run w h.once
  reconcile_claim-Ends service d (some a) w h = reconcile_attempt-Ends service d a w h

  unread-Keeps :
      (service : Service) (e : Failure)
      → Keeps (Once n) (reconcile_read lib ref service (unreadable e))
  unfolding reconcile_read
  unread-Keeps service e = search body_rules

  reconcile_read-Ends :
      (service : Service) (x : ReadDraft) (w : World)
      → ReadFact n x w.disk
      → Ends (Once n) (λ r. Once n) (λ r. Once n) (reconcile_read lib ref service x w)
  unfolding reconcile_read
  reconcile_read-Ends service (found d) w h = reconcile_claim-Ends service d d.send_attempt w h
  reconcile_read-Ends service missing w h =
      Keeps-weaker (Once n) (Loose n) (λ d k. k.once) reconcile_without_draft-Keeps w h
  reconcile_read-Ends service (unreadable e) w h = (unread-Keeps service e).run w h

  prepare_reconcile-Keeps : Keeps (Once n) (prepare_reconcile lib ref)
  unfolding prepare_reconcile
  prepare_reconcile-Keeps = search body_rules depth 20

  pub reconcile_draft-Keeps : (service : Service) → Keeps (Once n) (reconcile_draft lib ref service)
  unfolding reconcile_draft
  reconcile_draft-Keeps service = record {
    run = λ w h.
        bind-Ends (Once n) (λ r. Once n) (λ u. Once n) (λ r. Once n) (prepare_reconcile lib ref) _ w
          (prepare_reconcile-Keeps.run w h)
          (λ u v k.
            bind-Ends (Once n) (λ r. Once n) (ReadFact n) (λ r. Once n)
              (invoke (read_draft_file lib)) _ v
              (invoke-Ends (Once n) (λ r. Once n) (ReadFact n) (read_draft_file lib) v
                (read_draft_file-Ends lib n v k))
              (λ x t l. reconcile_read-Ends service x t l));
  }
