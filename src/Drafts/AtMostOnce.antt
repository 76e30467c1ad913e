-- ===== src/Drafts/AtMostOnce.antt =====
-- internal/mail/draft_send.go: any number of sends and reconciliations of one draft, one after the
-- other under the draft's lease, each of which may be killed at any call.
use mail_cli.Common.{◌+◌}
use mail_cli.Common.{◌≤◌, ◌≡◌, ◌≢◌, none, some, List, [], ◌∷◌, Bytes, arith}
use mail_cli.Drafts.Data.{Draft}
use mail_cli.Drafts.World.{Disk, World, Fate, Exit}
use mail_cli.Drafts.Claims.{DraftLibrary}
use mail_cli.Drafts.Receipts.{Out}
use mail_cli.Drafts.Send.{send_draft}
use mail_cli.Drafts.Mirror.{Service}
use mail_cli.Drafts.Reconcile.{reconcile_draft}
use mail_cli.Drafts.Triples.{Ends}
use mail_cli.Drafts.Once.{Once, allowed-le-one}
use mail_cli.Drafts.Once.Send.{send_draft-Keeps}
use mail_cli.Drafts.Once.Reconcile.{reconcile_draft-Keeps}

-- A call of the command, with what its surroundings answer.
pub data Call : Type 0 where
  send : (expected_revision : Bytes) → List Fate → Call
  reconcile : Service → List Fate → Call

-- The disk after a run, however it ended.
abbrev pub disk_after : Exit Out Out × World → Disk
disk_after (x, w) = w.disk

ends_kept :
    (I : Disk → Type 0) (e : Exit Out Out × World) → Ends I (λ r. I) (λ a. I) e → I (disk_after e)
unfolding Ends
ends_kept I (Exit.died, w) h = h
ends_kept I (Exit.returned r, w) h = h
ends_kept I (Exit.next a, w) h = h

module _ (lib : DraftLibrary) (ref : Bytes) where
  unfoldable pub run_call : Call → Disk → Disk
  unfolding send_draft reconcile_draft
  run_call (send expected script) d =
      disk_after (send_draft lib ref expected (record { disk = d; script = script }))
  run_call (reconcile service script) d =
      disk_after (reconcile_draft lib ref service (record { disk = d; script = script }))

  unfoldable pub run_calls : List Call → Disk → Disk
  unfolding run_call
  run_calls [] d = d
  run_calls (c ∷ cs) d = run_calls cs (run_call c d)

  run_call-Once : (c : Call) (d : Disk) → Once 1 d → Once 1 (run_call c d)
  unfolding run_call
  run_call-Once (send expected script) d h =
      let w : World = record { disk = d; script = script } in
      ends_kept (Once 1) (send_draft lib ref expected w)
        ((send_draft-Keeps 1 (omega arith) lib ref expected).run w h)
  run_call-Once (reconcile service script) d h =
      let w : World = record { disk = d; script = script } in
      ends_kept (Once 1) (reconcile_draft lib ref service w)
        ((reconcile_draft-Keeps lib ref 1 service).run w h)

  run_calls-Once : (cs : List Call) (d : Disk) → Once 1 d → Once 1 (run_calls cs d)
  unfolding run_calls
  run_calls-Once [] d h = h
  run_calls-Once (c ∷ cs) d h = run_calls-Once cs (run_call c d) (run_call-Once c d h)

  nothing_sent-Once : (d : Disk) → d.submissions ≡ 0 → d.copies ≡ 0 → Once 1 d
  nothing_sent-Once d s c = record {
    submitted = omega (arith, s);
    mirrored = omega (arith, c);
    bounded = omega (arith, s);
  }

  -- From any files of a draft that was not sent, any sequence of sends and reconciliations, each
  -- possibly killed at any call of its surroundings, submits the message at most once; and it stores at
  -- most one copy of it in the Sent mailbox, and one more for each APPEND that succeeded while closing
  -- the composed message failed.
  pub sent_at_most_once :
      (cs : List Call) (d : Disk)
      → d.submissions ≡ 0
      → d.copies ≡ 0
      → ((run_calls cs d).submissions ≤ 1)
        × ((run_calls cs d).copies ≤ 1 + (run_calls cs d).unclosed)
  sent_at_most_once cs d s c =
      let h = run_calls-Once cs d (nothing_sent-Once d s c) in
      let e = run_calls cs d in
      let bound = allowed-le-one e.draft e.send_claim in
      (h.bounded, omega (arith, h.mirrored, bound.1))

  -- After any such sequence, while the draft is there, a message that was submitted has its send claim
  -- on the disk.
  pub submitted_has_claim :
      (cs : List Call) (d : Disk)
      → d.submissions ≡ 0
      → d.copies ≡ 0
      → (x : Draft) → (run_calls cs d).draft ≡ some x
      → (run_calls cs d).submissions ≡ 1
      → (run_calls cs d).send_claim ≢ none
  submitted_has_claim cs d s c x there one unclaimed =
      let h = run_calls-Once cs d (nothing_sent-Once d s c) in
      let le : (run_calls cs d).submissions ≤ 0 = rw (there, unclaimed) at h.submitted in
      omega (arith, le, one)

  -- A reconciliation after any such sequence submits nothing.
  pub reconcile_submits_nothing :
      (cs : List Call) (d : Disk) (service : Service) (script : List Fate)
      → d.submissions ≡ 0
      → d.copies ≡ 0
      → let e = run_calls cs d in
        (run_call (reconcile service script) e).submissions ≤ e.submissions
  unfolding run_call
  reconcile_submits_nothing cs d service script s c =
      let h = run_calls-Once cs d (nothing_sent-Once d s c) in
      let e = run_calls cs d in
      let same : Once e.submissions e = record {
        submitted = h.submitted;
        mirrored = h.mirrored;
        bounded = omega arith;
      } in
      let w : World = record { disk = e; script = script } in
      (ends_kept (Once e.submissions) (reconcile_draft lib ref service w)
        ((reconcile_draft-Keeps lib ref e.submissions service).run w same)).bounded
