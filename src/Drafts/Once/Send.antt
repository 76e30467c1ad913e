-- ===== src/Drafts/Once/Send.antt =====
-- internal/mail/draft_send.go: SendDraft keeps the invariant from its first check to its last write.
use mail_cli.Common.{◌+◌}
use mail_cli.Common.{ℕ, ◌≤◌, ◌≡◌, Option, none, some, Bytes, arith}
use mail_cli.Errors.{Failure}
use mail_cli.Drafts.Data.{Draft, SendAttempt, SendReceipt}
use mail_cli.Drafts.World.{
  Disk, World, Fate, works, fails, fails_late, Answer, got, refused, or_return, invoke, unchanged,
  ask_text, ask_clock,
}
use mail_cli.Drafts.Claims.{
  DraftLibrary, SendAttemptOptions, begin_send_attempt, create_claim, create_step, claim_created,
  new_attempt,
}
use mail_cli.Drafts.Receipts.{Out, read_active_send_receipt}
use mail_cli.Drafts.Files.{ReadDraft, found, missing, unreadable, read_draft_file}
use mail_cli.Drafts.Send.{
  receipt_or_return, receipt_without_draft, receipt_or_missing, without_draft, receipt_with_draft,
  claimed, prepare_submission, begin_and_submit, submit_draft, receipt_or_submit, unclaimed, replay,
  replay_or_send, check_draft, with_draft, prepare_send, send_read, send_draft,
}
use mail_cli.Drafts.Triples.{
  Ends, bind-Ends, ask-Ends, invoke-Ends, or_return-Ends, ask_text-Stays, ask_clock-Stays, after,
}
use mail_cli.Drafts.Keeps.{Keeps, body_rules, Keeps-weaker, Keeps-leads}
use mail_cli.Drafts.Once.{Once, Loose}
use mail_cli.Drafts.Once.Files.{
  discard_draft_files-Keeps, replay_send_attempt-Keeps, read_active_send_receipt-Keeps,
  receipt-Once, removed_claims-Keeps,
}
use mail_cli.Drafts.Once.Claims.{Once-replace, Ready, allowed-claim}
use mail_cli.Drafts.Once.Submit.{after_claim-Ends}
use mail_cli.Drafts.Once.Read.{Loaded, ReadFact, read_draft_file-Ends}

-- The draft has no claim, so nothing of it was sent.
pub record Unsent (n : ℕ) (d : Disk) : Type 0 where
  pub once : Once n d
  pub unclaimed : d.send_claim ≡ none
  pub unsubmitted : d.submissions ≡ 0
  pub uncopied : d.copies ≤ d.unclosed

Loaded-Unsent : (n : ℕ) (d : Disk) → Loaded n none d → Unsent n d
Loaded-Unsent n d h = record {
  once = h.once;
  unclaimed = h.same;
  unsubmitted = unsubmitted;
  uncopied = uncopied;
}
  where
    unsubmitted : d.submissions ≡ 0
    unsubmitted =
        let s : d.submissions ≤ 0 = rw (h.there, h.same) at h.once.submitted in omega arith

    uncopied : d.copies ≤ d.unclosed
    uncopied =
        let s : d.copies ≤ 0 + d.unclosed = rw (h.there, h.same) at h.once.mirrored in omega arith

Unsent-Ready :
    {n : ℕ} {d : Disk} (a : SendAttempt)
    → 1 ≤ n
    → Unsent n d
    → Ready n (record d { send_claim = some a })
Unsent-Ready {n} {d} a room h =
    let once = Once-replace a h.once (omega (arith, h.uncopied)) in
    record {
      loose = record {
        once = once;
        without_claim = record {
          submitted = omega (arith, h.unsubmitted);
          mirrored = omega (arith, h.uncopied);
          bounded = h.once.bounded;
        };
      };
      once_more = record {
        submitted = omega (arith, h.unsubmitted, allowed-claim d.draft a);
        mirrored = once.mirrored;
        bounded = omega (arith, h.unsubmitted, room);
      };
      uncopied = h.uncopied;
    }

module _ (n : ℕ) (room : 1 ≤ n) where
  abbrev Begun : Answer SendAttempt → Disk → Type 0
  Begun (got a) d = Ready n d
  Begun (refused e) d = Once n d

  created-Begun :
      (old : Option SendAttempt) (a : SendAttempt) (fate : Fate) (d : Disk)
      → Unsent n d
      → let (x, e) = claim_created old a fate d in Begun x e
  unfolding claim_created
  created-Begun (some old) a fate d h = h.once
  created-Begun none a works d h = Unsent-Ready a room h
  created-Begun none a (fails_late e) d h = (Unsent-Ready a room h).loose.once
  created-Begun none a (fails e) d h = h.once
  created-Begun none a _ d h = h.once

  create-Ends :
      (a : SendAttempt) (w : World) → Unsent n w.disk → Ends (Once n) Begun Begun (create_claim a w)
  unfolding create_claim
  create-Ends a w h =
      ask-Ends (Once n) Begun Begun (create_step a) unchanged w h.once
        (λ fate. created-Begun w.disk.send_claim a fate w.disk h)

  abbrev plain : (d : Disk) → Unsent n d → Once n d
  plain d h = h.once

  begin-Ends :
      (o : SendAttemptOptions) (w : World)
      → Unsent n w.disk
      → Ends (Once n) Begun Begun (begin_send_attempt o w)
  unfolding begin_send_attempt
  begin-Ends o w h =
      after (Once n) (Unsent n) plain Begun Begun ask_text _ w
        (ask_text-Stays (Once n) (Unsent n) plain Begun) h
        (λ x v k.
          bind-Ends (Once n) Begun (λ id. Unsent n) Begun (or_return refused x) _ v
            (or_return-Ends (Once n) Begun (λ id. Unsent n) refused x v (λ e. k.once) (λ id e. k))
            (λ id t l.
              after (Once n) (Unsent n) plain Begun Begun ask_clock _ t
                (ask_clock-Stays (Once n) (Unsent n) plain Begun) l
                (λ now q m. create-Ends (new_attempt o id now) q m)))

  module _ (lib : DraftLibrary) (ref expected : Bytes) where
    refused-Keeps : (e : Failure) → Keeps (Once n) (claimed lib ref expected (refused e))
    unfolding claimed
    refused-Keeps e = search body_rules depth 14

    claimed-Ends :
        (x : Answer SendAttempt) (w : World)
        → Begun x w.disk
        → Ends (Once n) (λ r. Once n) (λ r. Once n) (claimed lib ref expected x w)
    unfolding claimed
    claimed-Ends (got a) w h = after_claim-Ends lib ref n a w h
    claimed-Ends (refused e) w h = (refused-Keeps e).run w h

    prepare_submission-Keeps :
        (d : Draft) → Keeps (Unsent n) (prepare_submission lib ref expected d)
    unfolding prepare_submission
    prepare_submission-Keeps d = search body_rules depth 60

    submit_draft-Ends :
        (d : Draft) (w : World)
        → Unsent n w.disk
        → Ends (Once n) (λ r. Once n) (λ r. Once n) (submit_draft lib ref expected d w)
    unfolding submit_draft begin_and_submit
    submit_draft-Ends d w h =
        bind-Ends (Once n) (λ r. Once n) (λ o. Unsent n) (λ r. Once n)
          (prepare_submission lib ref expected d) _ w
          (Keeps-leads (Once n) (Unsent n) plain (prepare_submission-Keeps d) w h)
          (λ o v k.
            bind-Ends (Once n) (λ r. Once n) Begun (λ r. Once n) (invoke (begin_send_attempt o)) _ v
              (invoke-Ends (Once n) (λ r. Once n) Begun (begin_send_attempt o) v (begin-Ends o v k))
              (λ x t l. claimed-Ends x t l))

    active-Keeps : Keeps (Once n) (read_active_send_receipt lib ref)
    active-Keeps = read_active_send_receipt-Keeps lib ref (Once n) (λ d r h. receipt-Once h r)

    active_before_send-Keeps : Keeps (Unsent n) (read_active_send_receipt lib ref)
    active_before_send-Keeps = read_active_send_receipt-Keeps lib ref (Unsent n) (λ d r h. record {
      once = receipt-Once h.once r;
      unclaimed = h.unclaimed;
      unsubmitted = h.unsubmitted;
      uncopied = h.uncopied;
    })

    invoked-Keeps : Keeps (Unsent n) {R = Out} (invoke (read_active_send_receipt lib ref))
    invoked-Keeps = search (body_rules, active_before_send-Keeps)

    receipt_or_return-Keeps :
        (I : Disk → Type 0) (x : Answer (Option SendReceipt)) → Keeps I (receipt_or_return x)
    unfolding receipt_or_return
    receipt_or_return-Keeps I (got r) = search body_rules
    receipt_or_return-Keeps I (refused e) = search body_rules

    receipt_with_draft-Keeps :
        (r : SendReceipt) → Keeps (Once n) (receipt_with_draft lib ref expected r)
    unfolding receipt_with_draft
    receipt_with_draft-Keeps r = search (body_rules, discard_draft_files-Keeps) depth 20

    receipt_or_submit-Ends :
        (d : Draft) (o : Option SendReceipt) (w : World)
        → Unsent n w.disk
        → Ends (Once n) (λ r. Once n) (λ r. Once n) (receipt_or_submit lib ref expected d o w)
    unfolding receipt_or_submit
    receipt_or_submit-Ends d none w h = submit_draft-Ends d w h
    receipt_or_submit-Ends d (some r) w h = (receipt_with_draft-Keeps r).run w h.once

    unclaimed-Ends :
        (d : Draft) (w : World)
        → Unsent n w.disk
        → Ends (Once n) (λ r. Once n) (λ r. Once n) (unclaimed lib ref expected d w)
    unfolding unclaimed
    unclaimed-Ends d w h =
        bind-Ends (Once n) (λ r. Once n) (λ x. Unsent n) (λ r. Once n)
          (invoke (read_active_send_receipt lib ref)) _ w
          (Keeps-leads (Once n) (Unsent n) plain invoked-Keeps w h)
          (λ x v k.
            bind-Ends (Once n) (λ r. Once n) (λ o. Unsent n) (λ r. Once n) (receipt_or_return x) _ v
              (Keeps-leads (Once n) (Unsent n) plain (receipt_or_return-Keeps (Unsent n) x) v k)
              (λ o t l. receipt_or_submit-Ends d o t l))

    replay-Keeps : (a : SendAttempt) → Keeps (Once n) (replay lib ref expected a)
    unfolding replay
    replay-Keeps a = search (body_rules, replay_send_attempt-Keeps) depth 12

    replay_or_send-Ends :
        (d : Draft) (o : Option SendAttempt) (w : World)
        → Loaded n o w.disk
        → Ends (Once n) (λ r. Once n) (λ r. Once n) (replay_or_send lib ref expected d o w)
    unfolding replay_or_send
    replay_or_send-Ends d none w h = unclaimed-Ends d w (Loaded-Unsent n w.disk h)
    replay_or_send-Ends d (some a) w h = (replay-Keeps a).run w h.once

    check_draft-Keeps : (I : Disk → Type 0) (d : Draft) → Keeps I (check_draft lib ref expected d)
    unfolding check_draft
    check_draft-Keeps I d = search body_rules depth 30

    with_draft-Ends :
        (d : Draft) (w : World)
        → Loaded n d.send_attempt w.disk
        → Ends (Once n) (λ r. Once n) (λ r. Once n) (with_draft lib ref expected d w)
    unfolding with_draft
    with_draft-Ends d w h =
        let P = Loaded n d.send_attempt in
        bind-Ends (Once n) (λ r. Once n) (λ u. P) (λ r. Once n) (check_draft lib ref expected d) _ w
          (Keeps-leads (Once n) P (λ e k. k.once) (check_draft-Keeps P d) w h)
          (λ u v k. replay_or_send-Ends d d.send_attempt v k)

module _ (n : ℕ) (room : 1 ≤ n) (lib : DraftLibrary) (ref expected : Bytes) where
  active_without_draft-Keeps : Keeps (Loose n) (read_active_send_receipt lib ref)
  active_without_draft-Keeps = read_active_send_receipt-Keeps lib ref (Loose n) (λ d r h. record {
    once = receipt-Once h.once r;
    without_claim = receipt-Once h.without_claim r;
  })

  receipt_without_draft-Keeps :
      (r : SendReceipt) → Keeps (Loose n) (receipt_without_draft lib ref expected r)
  unfolding receipt_without_draft
  receipt_without_draft-Keeps r = search (body_rules, removed_claims-Keeps) depth 20

  receipt_or_missing-Keeps :
      (o : Option SendReceipt) → Keeps (Loose n) (receipt_or_missing lib ref expected o)
  unfolding receipt_or_missing
  receipt_or_missing-Keeps none = search body_rules depth 14
  receipt_or_missing-Keeps (some r) = receipt_without_draft-Keeps r

  without_draft-Keeps : Keeps (Loose n) (without_draft lib ref expected)
  unfolding without_draft
  without_draft-Keeps =
      search
        (body_rules, active_without_draft-Keeps, receipt_or_return-Keeps, receipt_or_missing-Keeps)
        depth 20

  prepare_send-Keeps : Keeps (Once n) (prepare_send lib ref expected)
  unfolding prepare_send
  prepare_send-Keeps = search body_rules depth 20

  unread-Keeps : (e : Failure) → Keeps (Once n) (send_read lib ref expected (unreadable e))
  unfolding send_read
  unread-Keeps e = search body_rules

  send_read-Ends :
      (x : ReadDraft) (w : World)
      → ReadFact n x w.disk
      → Ends (Once n) (λ r. Once n) (λ r. Once n) (send_read lib ref expected x w)
  unfolding send_read
  send_read-Ends (found d) w h = with_draft-Ends n room lib ref expected d w h
  send_read-Ends missing w h =
      Keeps-weaker (Once n) (Loose n) (λ d k. k.once) without_draft-Keeps w h
  send_read-Ends (unreadable e) w h = (unread-Keeps e).run w h

  pub send_draft-Keeps : Keeps (Once n) (send_draft lib ref expected)
  unfolding send_draft
  send_draft-Keeps = record {
    run = λ w h.
        bind-Ends (Once n) (λ r. Once n) (λ u. Once n) (λ r. Once n) (prepare_send lib ref expected)
          _ w (prepare_send-Keeps.run w h)
          (λ u v k.
            bind-Ends (Once n) (λ r. Once n) (ReadFact n) (λ r. Once n)
              (invoke (read_draft_file lib)) _ v
              (invoke-Ends (Once n) (λ r. Once n) (ReadFact n) (read_draft_file lib) v
                (read_draft_file-Ends lib n v k))
              (λ x t l. send_read-Ends x t l));
  }
