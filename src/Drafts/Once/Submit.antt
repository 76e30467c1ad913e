-- ===== src/Drafts/Once/Submit.antt =====
-- internal/mail/draft_send.go: from the claim to the end of the send the invariant is kept. The claim
-- is on the disk before the submission, and says that a copy may exist before the APPEND.
use mail_cli.Common.{◌+◌}
use mail_cli.Common.{ℕ, ◌≤◌, ◌≡◌, true, Option, Bytes, bit, arith}
use mail_cli.Errors.{Failure, is_mirror_outcome_uncertain}
use mail_cli.Drafts.Data.{SendAttempt, AppendEvidence}
use mail_cli.Drafts.World.{
  Disk, World, Fate, fails, accepts, unsure, mirrors, mirrors_unclosed, ◌>>=◌, ◌>>◌, Answer, got,
  refused, or_return, invoke, pure, ask_text, ask_clock,
}
use mail_cli.Drafts.Claims.{DraftLibrary, replace_send_attempt}
use mail_cli.Drafts.Receipts.{Out}
use mail_cli.Drafts.Submit.{
  Submission, taken, uncertain, declined, submit_composed_message, submit_step, one_more_submission,
  mirror_composed_message, mirror_step, more_copies, armed, mirror_failed, mirrored,
  submission_accepted, after_unknown, after_rejection, after_mirror_failure, after_mirror,
  after_append, after_acceptance, after_submission, after_claim, arming_failed,
  persist_mirror_attempt_before_dispatch,
}
use mail_cli.Drafts.Triples.{
  Ends, Steps, bind-Ends, ask-Ends, invoke-Ends, pure-Ends, write-Ends, or_return-Ends, answer-Ends,
  ask_text-Stays, ask_clock-Stays, after,
}
use mail_cli.Drafts.Keeps.{Keeps, body_rules, write-Keeps, Keeps-weaker}
use mail_cli.Drafts.Once.{Once, Loose, is_settled}
use mail_cli.Drafts.Once.Files.{finish_observed_send-Keeps, removed_attempt-Keeps}
use mail_cli.Drafts.Once.Claims.{
  Once-replace, Uncopied, Ready, Open, Uncopied-replace, Uncopied-submitted, Open-replace,
  is_settled-armed, is_settled-mirrored, is_settled-failed, is_settled-le-one,
}

-- The APPEND failed with `e`; a copy that it may have stored is counted.
pub record Failed (n : ℕ) (e : Failure) (d : Disk) : Type 0 where
  pub once : Once n d
  pub counted : d.copies ≤ bit (is_mirror_outcome_uncertain e) + d.unclosed

module _ (n : ℕ) {R : Type 0} where
  pub replace_settled-Keeps :
      (a : SendAttempt) → is_settled a ≡ true → Keeps (Once n) {R = R} (replace_send_attempt a)
  unfolding replace_send_attempt
  replace_settled-Keeps a s =
      write-Keeps (Once n) _ (λ d h. Once-replace a h (rw s (is_settled-le-one n d h)))

  replaced_any-Keeps : (a : SendAttempt) → Keeps (Uncopied n) {R = R} (replace_send_attempt a)
  unfolding replace_send_attempt
  replaced_any-Keeps a = write-Keeps (Uncopied n) _ (λ d. Uncopied-replace a)

  pub replaced_after_error-Keeps :
      (e : Failure) (now : ℕ) (a : SendAttempt)
      → Keeps (Failed n e) {R = R} (replace_send_attempt (mirror_failed e now a))
  unfolding replace_send_attempt
  replaced_after_error-Keeps e now a = write-Keeps (Failed n e) _ (λ d h. record {
    once =
        Once-replace (mirror_failed e now a) h.once
          (omega (arith, h.counted, is_settled-failed e now a));
    counted = h.counted;
  })

  replace_mirrored-Keeps :
      (v : AppendEvidence) (now : ℕ) (a : SendAttempt)
      → Keeps (Once n) {R = R} (replace_send_attempt (mirrored v now a))
  replace_mirrored-Keeps v now a =
      replace_settled-Keeps (mirrored v now a) (is_settled-mirrored v now a)

module _ (n : ℕ) where
  -- After the claim was armed, and after the APPEND.
  abbrev pub ArmedAnswer : Answer SendAttempt → Disk → Type 0
  ArmedAnswer (got b) d = Open n d
  ArmedAnswer (refused e) d = Once n d

  abbrev pub Appended : Answer AppendEvidence → Disk → Type 0
  Appended (got v) d = Once n d
  Appended (refused e) d = Failed n e d

  abbrev ArmedWrite : Answer (Unit {0}) → Disk → Type 0
  ArmedWrite (got u) d = Open n d
  ArmedWrite (refused e) d = Once n d

  abbrev plain : (d : Disk) → Uncopied n d → Once n d
  plain d h = h.once

  armed_write :
      (a : SendAttempt) (id : Bytes) (now : ℕ) (w : World)
      → Uncopied n w.disk
      → Ends (Once n) ArmedAnswer ArmedWrite (replace_send_attempt (armed id now a) w)
  unfolding replace_send_attempt
  armed_write a id now w h =
      let open_ = Open-replace (armed id now a) (is_settled-armed id now a) h in
      write-Ends (Once n) ArmedAnswer ArmedWrite _ w h.once open_ (λ e. (h.once, open_.once))

  pub persist-Ends :
      (a : SendAttempt) (w : World)
      → Uncopied n w.disk
      → Ends (Once n) ArmedAnswer ArmedAnswer (persist_mirror_attempt_before_dispatch a w)
  unfolding persist_mirror_attempt_before_dispatch
  persist-Ends a w h =
      after (Once n) (Uncopied n) plain ArmedAnswer ArmedAnswer ask_text _ w
        (ask_text-Stays (Once n) (Uncopied n) plain ArmedAnswer) h
        (λ drawn v k.
          bind-Ends (Once n) ArmedAnswer (λ id. Uncopied n) ArmedAnswer (or_return refused drawn) _
            v
            (or_return-Ends (Once n) ArmedAnswer (λ id. Uncopied n) refused drawn v (λ e. k.once)
              (λ id e. k))
            (λ id u l. clocked id u l))
    where
      stored :
          (b : SendAttempt) (x : Answer (Unit {0})) (v : World)
          → ArmedWrite x v.disk
          → Ends (Once n) ArmedAnswer ArmedAnswer ((or_return refused x >> pure (got b)) v)
      stored b x v k =
          bind-Ends (Once n) ArmedAnswer (λ u. Open n) ArmedAnswer (or_return refused x) _ v
            (answer-Ends (Once n) ArmedAnswer (λ u. Open n) ArmedWrite refused x v (λ e l. l)
              (λ u l. l) k)
            (λ u t l. pure-Ends (Once n) ArmedAnswer ArmedAnswer (got b) t l)

      clocked :
          (id : Bytes) (v : World)
          → Uncopied n v.disk
          → Ends (Once n) ArmedAnswer ArmedAnswer (
              (do
                now ← ask_clock
                let b = armed id now a
                s ← replace_send_attempt b
                or_return refused s
                pure (got b))
                v)
      clocked id v k =
          after (Once n) (Uncopied n) plain ArmedAnswer ArmedAnswer ask_clock _ v
            (ask_clock-Stays (Once n) (Uncopied n) plain ArmedAnswer) k
            (λ now u l.
              bind-Ends (Once n) ArmedAnswer ArmedWrite ArmedAnswer
                (replace_send_attempt (armed id now a)) _ u (armed_write a id now u l)
                (stored (armed id now a)))

  -- The answer to the APPEND.
  pub mirror-Ends :
      (w : World)
      → Open n w.disk
      → Ends (Once n) {R = Out} (λ r. Once n) Appended (mirror_composed_message w)
  unfolding mirror_composed_message
  mirror-Ends w h =
      ask-Ends (Once n) (λ r. Once n) Appended mirror_step (more_copies 1) w h.once_more steps
    where
      steps :
          (fate : Fate) → Steps (Once n) {R = Out} (λ r. Once n) Appended (mirror_step fate w.disk)
      steps (mirrors v) = h.once_more
      steps (fails e) = record {
        once = record {
          submitted = h.once.submitted;
          mirrored = ground (arith, h.once_more.mirrored, h.once.mirrored);
          bounded = h.once.bounded;
        };
        counted = omega (arith, h.uncopied);
      }
      steps (mirrors_unclosed e) = record {
        once = record {
          submitted = h.once.submitted;
          mirrored = omega (arith, h.once.mirrored);
          bounded = h.once.bounded;
        };
        counted = omega (arith, h.uncopied);
      }
      steps _ = h.once

module _ (lib : DraftLibrary) (ref : Bytes) (n : ℕ) where
  after_unknown-Keeps :
      (a : SendAttempt) (stage : Bytes) (e : Failure)
      → Keeps (Uncopied n) (after_unknown lib ref a stage e)
  unfolding after_unknown
  after_unknown-Keeps a stage e = search (body_rules, replaced_any-Keeps) depth 14

  after_rejection-Keeps :
      (a : SendAttempt) (e : Failure) → Keeps (Loose n) (after_rejection lib ref a e)
  unfolding after_rejection
  after_rejection-Keeps a e = search (body_rules, removed_attempt-Keeps) depth 14

  after_mirror_failure-Keeps :
      (a : SendAttempt) (c : Option Failure) (e : Failure)
      → Keeps (Failed n e) (after_mirror_failure lib ref a c e)
  unfolding after_mirror_failure
  after_mirror_failure-Keeps a c e = search (body_rules, replaced_after_error-Keeps) depth 14

  after_mirror-Keeps :
      (a : SendAttempt) (c : Option Failure) (v : AppendEvidence)
      → Keeps (Once n) (after_mirror lib ref a c v)
  unfolding after_mirror
  after_mirror-Keeps a c v =
      search (body_rules, replace_mirrored-Keeps, finish_observed_send-Keeps) depth 16

  after_append-Ends :
      (a : SendAttempt) (c : Option Failure) (x : Answer AppendEvidence) (w : World)
      → Appended n x w.disk
      → Ends (Once n) (λ r. Once n) (λ r. Once n) (after_append lib ref a c x w)
  unfolding after_append
  after_append-Ends a c (got v) w h = (after_mirror-Keeps a c v).run w h
  after_append-Ends a c (refused e) w h =
      Keeps-weaker (Once n) (Failed n e) (λ d k. k.once) (after_mirror_failure-Keeps a c e) w h

  after_acceptance-Ends :
      (a : SendAttempt) (response : Bytes) (c : Option Failure) (w : World)
      → Uncopied n w.disk
      → Ends (Once n) (λ r. Once n) (λ r. Once n) (after_acceptance lib ref a response c w)
  unfolding after_acceptance
  after_acceptance-Ends a response c w h =
      let b = submission_accepted response a in
      let persist = persist_mirror_attempt_before_dispatch b in
      let give = arming_failed lib ref b c in
      bind-Ends (Once n) (λ r. Once n) (ArmedAnswer n) (λ r. Once n) (invoke persist) _ w
        (invoke-Ends (Once n) (λ r. Once n) (ArmedAnswer n) persist w (persist-Ends n b w h))
        (λ x v k.
          bind-Ends (Once n) (λ r. Once n) (λ b. Open n) (λ r. Once n) (or_return give x) _ v
            (answer-Ends (Once n) (λ r. Once n) (λ b. Open n) (ArmedAnswer n) give x v (λ e l. l)
              (λ b l. l) k)
            (λ b u l.
              bind-Ends (Once n) (λ r. Once n) (Appended n) (λ r. Once n) mirror_composed_message _
                u (mirror-Ends n u l) (λ y t m. after_append-Ends b c y t m)))

  -- After the submission.
  abbrev Submitted : Submission → Disk → Type 0
  Submitted (declined e) d = Loose n d
  Submitted (uncertain stage e) d = Uncopied n d
  Submitted (taken response c) d = Uncopied n d

  after_submission-Ends :
      (a : SendAttempt) (s : Submission) (w : World)
      → Submitted s w.disk
      → Ends (Once n) (λ r. Once n) (λ r. Once n) (after_submission lib ref a s w)
  unfolding after_submission
  after_submission-Ends a (declined e) w h =
      Keeps-weaker (Once n) (Loose n) (λ d k. k.once) (after_rejection-Keeps a e) w h
  after_submission-Ends a (uncertain stage e) w h =
      Keeps-weaker (Once n) (Uncopied n) (λ d k. k.once) (after_unknown-Keeps a stage e) w h
  after_submission-Ends a (taken response c) w h = after_acceptance-Ends a response c w h

  submit-Ends :
      (w : World)
      → Ready n w.disk
      → Ends (Once n) {R = Out} (λ r. Once n) Submitted (submit_composed_message w)
  unfolding submit_composed_message
  submit-Ends w h =
      ask-Ends (Once n) (λ r. Once n) Submitted submit_step one_more_submission w h.once_more steps
    where
      steps :
          (fate : Fate) → Steps (Once n) {R = Out} (λ r. Once n) Submitted (submit_step fate w.disk)
      steps (accepts response c) = Uncopied-submitted h
      steps (unsure stage e) = Uncopied-submitted h
      steps (fails e) = h.loose
      steps _ = h.loose.once

  pub after_claim-Ends :
      (a : SendAttempt) (w : World)
      → Ready n w.disk
      → Ends (Once n) (λ r. Once n) (λ r. Once n) (after_claim lib ref a w)
  unfolding after_claim
  after_claim-Ends a w h =
      bind-Ends (Once n) (λ r. Once n) Submitted (λ r. Once n) submit_composed_message _ w
        (submit-Ends w h) (λ s v k. after_submission-Ends a s v k)
