-- ===== src/Drafts/Once/Files.antt =====
-- internal/mail/draft_claims.go and draft_state.go: receipts, removed claims and discarded files keep
-- the invariant, so a finished send leaves nothing that could be sent again.
use mail_cli.Common.{ℕ, Bool, true, false, Option, none, some, Bytes, arith}
use mail_cli.Drafts.Data.{Draft, SendAttempt, SendReceipt}
use mail_cli.Drafts.World.{
  Disk, World, Fate, works, fails, Answer, got, refused, or_return, Exit, ask, unchanged,
}
use mail_cli.Drafts.Claims.{
  DraftLibrary, remove_send_attempt, remove_spool, read_send_attempt, remove_draft_claims,
}
use mail_cli.Drafts.Receipts.{
  read_send_receipt, read_active_send_receipt, when_active, kept_or_written, retained_or_new,
  create_receipt, create_receipt_step, write_receipt, persist_send_receipt, ensure_send_receipt,
}
use mail_cli.Drafts.Files.{
  discard_draft_files, discard_document, after_removal, remove_rest, missing_removed,
  remove_draft_file, remove_step, read_handoff_attempt, finish_observed_send, replay_terminal,
  replay_send_attempt,
}
use mail_cli.Drafts.Triples.{Ends, Steps, bind-Ends, ask-Ends}
use mail_cli.Drafts.Keeps.{Keeps, body_rules, write-Keeps, option-Keeps, ask-Keeps, Keeps-weaker}
use mail_cli.Drafts.Once.{Once, Loose, Once-without_draft}

-- Claims that may go.
module _ (lib : DraftLibrary) (I : Disk → Type 0)
    (loose : (d : Disk) → I d → I (record d { send_claim = none })) where
  remove_spool-Keeps : {R : Type 0} (a : Option SendAttempt) → Keeps I {R = R} (remove_spool lib a)
  unfolding remove_spool
  remove_spool-Keeps none = search body_rules
  remove_spool-Keeps (some a) =
      option-Keeps I a.recovery_spool (search body_rules) (λ s. search body_rules)

  pub remove_send_attempt-Keeps : Keeps I (remove_send_attempt lib)
  unfolding remove_send_attempt read_send_attempt
  remove_send_attempt-Keeps = search (body_rules, remove_spool-Keeps, write-Keeps)

  module _ (save : (d : Disk) → I d → I (record d { save_claim = none }))
      (handoff : (d : Disk) → I d → I (record d { handoff_claim = none })) where
    pub remove_draft_claims-Keeps : {R : Type 0} → Keeps I {R = R} (remove_draft_claims lib)
    unfolding remove_draft_claims
    remove_draft_claims-Keeps = search (body_rules, remove_send_attempt-Keeps, write-Keeps)

-- Receipts that may be written.
module _ (lib : DraftLibrary) (ref : Bytes) (I : Disk → Type 0)
    (receipt : (d : Disk) (r : SendReceipt) → I d → I (record d { send_receipt = some r })) where
  when_active-Keeps : (o : Option SendReceipt) → Keeps I (when_active lib ref o)
  unfolding when_active
  when_active-Keeps none = search body_rules
  when_active-Keeps (some r) = search body_rules

  pub read_active_send_receipt-Keeps : Keeps I (read_active_send_receipt lib ref)
  unfolding read_active_send_receipt read_send_receipt
  read_active_send_receipt-Keeps = search (body_rules, when_active-Keeps)

  create_receipt-Keeps : {R : Type 0} (r : SendReceipt) → Keeps I {R = R} (create_receipt lib ref r)
  unfolding create_receipt
  create_receipt-Keeps {R = R} r =
      ask-Keeps I (create_receipt_step lib ref r) unchanged (λ d i. i)
        (λ fate d. steps fate d d.send_receipt)
    where
      steps :
          (fate : Fate) (d : Disk) (old : Option SendReceipt)
          → I d
          → Steps I {R = R} (λ r. I) (λ a. I) (create_receipt_step lib ref r fate d)
      steps fate d old i = ground (arith, receipt d r)

  write_receipt-Keeps : (r : SendReceipt) → Keeps I (write_receipt lib ref r)
  unfolding write_receipt read_send_receipt
  write_receipt-Keeps r = search (body_rules, create_receipt-Keeps) depth 12

  kept_or_written-Keeps :
      (r : SendReceipt) (o : Option SendReceipt) → Keeps I (kept_or_written lib ref r o)
  unfolding kept_or_written
  kept_or_written-Keeps r none = write_receipt-Keeps r
  kept_or_written-Keeps r (some e) = search body_rules

  persist_send_receipt-Keeps : (r : SendReceipt) → Keeps I (persist_send_receipt lib ref r)
  unfolding persist_send_receipt read_send_receipt
  persist_send_receipt-Keeps r = search (body_rules, kept_or_written-Keeps)

  retained_or_new-Keeps :
      (r : SendReceipt) (o : Option SendReceipt) → Keeps I (retained_or_new lib ref r o)
  unfolding retained_or_new
  retained_or_new-Keeps r none = search (body_rules, persist_send_receipt-Keeps)
  retained_or_new-Keeps r (some e) = search body_rules

  pub ensure_send_receipt-Keeps : (a : SendAttempt) → Keeps I (ensure_send_receipt lib ref a)
  unfolding ensure_send_receipt read_send_receipt
  ensure_send_receipt-Keeps a = search (body_rules, retained_or_new-Keeps)

module _ {n : ℕ} {d : Disk} (h : Once n d) where
  save-Once : Once n (record d { save_claim = none })
  save-Once = record { submitted = h.submitted; mirrored = h.mirrored; bounded = h.bounded }

  handoff-Once : Once n (record d { handoff_claim = none })
  handoff-Once = record { submitted = h.submitted; mirrored = h.mirrored; bounded = h.bounded }

  pub receipt-Once : (r : SendReceipt) → Once n (record d { send_receipt = some r })
  receipt-Once r = record { submitted = h.submitted; mirrored = h.mirrored; bounded = h.bounded }

module _ {n : ℕ} {d : Disk} (h : Loose n d) where
  claim-Loose : Loose n (record d { send_claim = none })
  claim-Loose = record { once = h.without_claim; without_claim = h.without_claim }

  save-Loose : Loose n (record d { save_claim = none })
  save-Loose = record { once = save-Once h.once; without_claim = save-Once h.without_claim }

  handoff-Loose : Loose n (record d { handoff_claim = none })
  handoff-Loose = record {
    once = handoff-Once h.once;
    without_claim = handoff-Once h.without_claim;
  }

module _ (lib : DraftLibrary) (ref : Bytes) (n : ℕ) where
  pub removed_claims-Keeps : {R : Type 0} → Keeps (Loose n) {R = R} (remove_draft_claims lib)
  removed_claims-Keeps =
      remove_draft_claims-Keeps lib (Loose n) (λ d. claim-Loose) (λ d. save-Loose)
        (λ d. handoff-Loose)

  pub removed_attempt-Keeps : Keeps (Loose n) (remove_send_attempt lib)
  removed_attempt-Keeps = remove_send_attempt-Keeps lib (Loose n) (λ d. claim-Loose)

  remove_rest-Keeps : {R : Type 0} → Keeps (Loose n) {R = R} (remove_rest lib)
  unfolding remove_rest
  remove_rest-Keeps = search (body_rules, removed_claims-Keeps)

  missing_removed-Keeps : {R : Type 0} → Keeps (Once n) {R = R} (missing_removed lib)
  unfolding missing_removed
  missing_removed-Keeps = search body_rules

  -- What is known after the draft's file was removed, or was not there.
  abbrev Removed : Answer Bool → Disk → Type 0
  Removed (got true) d = Loose n d
  Removed (got false) d = Once n d
  Removed (refused e) d = Once n d

  abbrev Left : Bool → Disk → Type 0
  Left true d = Loose n d
  Left false d = Once n d

  removed-Keeps : Keeps (Loose n) (after_removal lib true)
  unfolding after_removal
  removed-Keeps = search (body_rules, remove_rest-Keeps)

  after_removal-Ends :
      (removed : Bool) (w : World)
      → Left removed w.disk
      → Ends (Once n) (λ r. Once n) (λ a. Once n) (after_removal lib removed w)
  unfolding after_removal
  after_removal-Ends false w h = missing_removed-Keeps.run w h
  after_removal-Ends true w h = Keeps-weaker (Once n) (Loose n) (λ d l. l.once) removed-Keeps w h

  or_return-Left :
      (x : Answer Bool) (w : World)
      → Removed x w.disk
      → Ends (Once n) {R = Answer (Unit {0})} (λ r. Once n) Left (or_return refused x w)
  unfolding Ends or_return
  or_return-Left (got true) w h = h
  or_return-Left (got false) w h = h
  or_return-Left (refused e) w h = h

  remove_step-Steps :
      (fate : Fate) (d : Disk)
      → Once n d
      → Steps (Once n) {R = Answer (Unit {0})} (λ r. Once n) Removed (remove_step fate d)
  remove_step-Steps works d h = removed d.draft
    where
      removed :
          (o : Option Draft)
          → Steps
              (Once n)
              {R = Answer (Unit {0})}
              (λ r. Once n)
              Removed
              (elim o [
                | none ↦ (Exit.next (got false), d)
                | some x ↦ (Exit.next (got true), record d { draft = none })
              ])
      removed none = h
      removed (some x) = Once-without_draft h
  remove_step-Steps (fails e) d h = h
  remove_step-Steps _ d h = h

  discard_document-Keeps : Keeps (Once n) (discard_document lib)
  unfolding discard_document remove_draft_file
  discard_document-Keeps = record {
    run = λ w h.
        bind-Ends (Once n) (λ r. Once n) Removed (λ a. Once n) (ask remove_step unchanged) _ w
          (ask-Ends (Once n) (λ r. Once n) Removed remove_step unchanged w h
            (λ fate. remove_step-Steps fate w.disk h))
          (λ x v k.
            bind-Ends (Once n) (λ r. Once n) Left (λ a. Once n) (or_return refused x)
              (after_removal lib) v (or_return-Left x v k) (λ b u l. after_removal-Ends b u l));
  }

  pub discard_draft_files-Keeps : Keeps (Once n) (discard_draft_files lib)
  unfolding discard_draft_files read_handoff_attempt
  discard_draft_files-Keeps = search (body_rules, discard_document-Keeps) depth 14

  once_ensure_send_receipt-Keeps :
      (a : SendAttempt) → Keeps (Once n) (ensure_send_receipt lib ref a)
  once_ensure_send_receipt-Keeps =
      ensure_send_receipt-Keeps lib ref (Once n) (λ d r h. receipt-Once h r)

  pub finish_observed_send-Keeps :
      (a : SendAttempt) (b : Bool) → Keeps (Once n) (finish_observed_send lib ref a b)
  unfolding finish_observed_send
  finish_observed_send-Keeps a b =
      search (body_rules, once_ensure_send_receipt-Keeps, discard_draft_files-Keeps) depth 14

  replay_terminal-Keeps : (a : SendAttempt) → Keeps (Once n) (replay_terminal lib ref a)
  unfolding replay_terminal
  replay_terminal-Keeps a =
      search (body_rules, once_ensure_send_receipt-Keeps, discard_draft_files-Keeps) depth 14

  pub replay_send_attempt-Keeps : (a : SendAttempt) → Keeps (Once n) (replay_send_attempt lib ref a)
  unfolding replay_send_attempt
  replay_send_attempt-Keeps a = search (body_rules, replay_terminal-Keeps)
