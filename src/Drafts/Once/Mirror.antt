-- ===== src/Drafts/Once/Mirror.antt =====
-- internal/mail/draft_send.go: `reconcileUnknownViaImap` and `reconcileMirrorPending` keep a message at
-- one submission and one copy.
use mail_cli.Common.{◌+◌}
use mail_cli.Common.{ℕ, ◌≤◌, ◌≡◌, refl, Bool, true, false, Option, none, some, [], Bytes}
use mail_cli.Common.{bit, arith, not, ◌&&◌, ◌==◌, if◌then◌else◌}
use mail_cli.Errors.{Failure}
use mail_cli.Drafts.Data.{Draft, SendAttempt, AppendEvidence}
use mail_cli.Drafts.World.{
  Disk, World, Fate, fails, finds, absent, text, Answer, got, refused, or_return, check, invoke,
  pure, unchanged,
}
use mail_cli.Drafts.Claims.{DraftLibrary}
use mail_cli.Drafts.Receipts.{Out, evidence_of, is_terminal}
use mail_cli.Drafts.Submit.{
  adopted, located, mirrored, mirror_composed_message, persist_mirror_attempt_before_dispatch,
}
use mail_cli.Drafts.Mirror.{
  Service, Match, search_uid, search_step, find_sent_box, box_step, observe_send, observed_attempt,
  fail_on, fail_with, settle, adopt_observed_sent_message, locate, or_no_box,
  reconcile_unknown_via_imap, after_append, after_append_failure, append_answered, state_failed,
  dispatch_mirror, retry_mirror, adopt_or_retry, search_sent, search_then_mirror, mirror_or_search,
  check_mirror, reconcile_mirror_pending,
}
use mail_cli.Drafts.Codes.{send_mirror_outcome_unknown}
use mail_cli.Drafts.Triples.{
  Ends, Steps, bind-Ends, invoke-Ends, pure-Ends, answer-Ends, after, check-Stays,
}
use mail_cli.Drafts.Keeps.{Keeps, body_rules, ask-Keeps, Keeps-weaker, Keeps-leads}
use mail_cli.Drafts.Once.{Once, is_settled}
use mail_cli.Drafts.Once.Files.{finish_observed_send-Keeps}
use mail_cli.Drafts.Once.Claims.{Uncopied, Open, is_settled-mirrored}
use mail_cli.Drafts.Once.Submit.{
  Failed, ArmedAnswer, Appended, persist-Ends, mirror-Ends, replace_settled-Keeps,
  replaced_after_error-Keeps,
}
use mail_cli.Drafts.Once.Read.{Loaded}

-- The calls that only look.
module _ (I : Disk → Type 0) {R : Type 0} where
  pub search_uid-Keeps : Keeps I {R = R} search_uid
  unfolding search_uid
  search_uid-Keeps = ask-Keeps I search_step unchanged (λ d i. i) steps
    where
      steps :
          (fate : Fate) (d : Disk) → I d → Steps I {R = R} (λ r. I) (λ a. I) (search_step fate d)
      steps (finds uid validity count) d i = i
      steps absent d i = i
      steps (fails e) d i = i
      steps _ d i = i

  pub find_sent_box-Keeps : Keeps I {R = R} find_sent_box
  unfolding find_sent_box
  find_sent_box-Keeps = ask-Keeps I box_step unchanged (λ d i. i) steps
    where
      steps : (fate : Fate) (d : Disk) → I d → Steps I {R = R} (λ r. I) (λ a. I) (box_step fate d)
      steps (text box) d i = i
      steps absent d i = i
      steps (fails e) d i = i
      steps _ d i = i

  pub observe_send-Keeps : Keeps I {R = R} observe_send
  unfolding observe_send
  observe_send-Keeps = find_sent_box-Keeps

pub or_no_box-Keeps : (I : Disk → Type 0) (r : Out) (o : Option Bytes) → Keeps I (or_no_box r o)
unfolding or_no_box
or_no_box-Keeps I r none = search body_rules
or_no_box-Keeps I r (some box) = search body_rules

pub ruleset look_rules =
    (body_rules, search_uid-Keeps, find_sent_box-Keeps, observe_send-Keeps, or_no_box-Keeps)

pub is_settled-adopted :
    (box : Bytes) (uid validity now : ℕ) (a : SendAttempt)
    → is_settled (adopted box uid validity now a) ≡ true
unfolding is_settled adopted
is_settled-adopted box uid validity now a = refl

pub is_settled-located :
    (box : Bytes) (uid validity now : ℕ) (a : SendAttempt)
    → is_settled (located box uid validity now a) ≡ true
unfolding is_settled located
is_settled-located box uid validity now a = refl

pub is_settled-observed :
    (ref : Bytes) (now : ℕ) (a : SendAttempt) → is_settled (observed_attempt ref now a) ≡ true
unfolding is_settled observed_attempt
is_settled-observed ref now a = refl

-- Under the claim of an attempt that is neither terminal nor armed no copy was stored.
pub Loaded-Uncopied :
    {n : ℕ} {d : Disk} (a : SendAttempt) → is_settled a ≡ false → Loaded n (some a) d → Uncopied n d
Loaded-Uncopied {n} {d} a open_claim h =
    let c : d.copies ≤ bit (is_settled a) + d.unclosed = rw (h.there, h.same) at h.once.mirrored in
    record { once = h.once; uncopied = omega (arith, rw open_claim at c) }

module _ (lib : DraftLibrary) (ref : Bytes) (n : ℕ) where
  pub settle-Keeps : (b : SendAttempt) → is_settled b ≡ true → Keeps (Once n) (settle lib ref b)
  unfolding settle
  settle-Keeps b s = search (body_rules, replace_settled-Keeps, finish_observed_send-Keeps) depth 14

  pub settle-adopted-Keeps :
      (box : Bytes) (uid validity now : ℕ) (a : SendAttempt)
      → Keeps (Once n) (settle lib ref (adopted box uid validity now a))
  settle-adopted-Keeps box uid validity now a =
      settle-Keeps _ (is_settled-adopted box uid validity now a)

  pub settle-located-Keeps :
      (box : Bytes) (uid validity now : ℕ) (a : SendAttempt)
      → Keeps (Once n) (settle lib ref (located box uid validity now a))
  settle-located-Keeps box uid validity now a =
      settle-Keeps _ (is_settled-located box uid validity now a)

  pub settle-observed_attempt-Keeps :
      (seen : Bytes) (now : ℕ) (a : SendAttempt)
      → Keeps (Once n) (settle lib ref (observed_attempt seen now a))
  settle-observed_attempt-Keeps seen now a = settle-Keeps _ (is_settled-observed seen now a)

  pub settle-mirrored-Keeps :
      (v : AppendEvidence) (now : ℕ) (a : SendAttempt)
      → Keeps (Once n) (settle lib ref (mirrored v now a))
  settle-mirrored-Keeps v now a = settle-Keeps _ (is_settled-mirrored v now a)

  pub adopt-Keeps :
      (a : SendAttempt) (box : Bytes) (m : Match)
      → Keeps (Once n) (adopt_observed_sent_message lib ref a box m)
  unfolding adopt_observed_sent_message
  adopt-Keeps a box m = search (body_rules, settle-adopted-Keeps) depth 20

  pub locate-Keeps :
      (a : SendAttempt) (box : Bytes) (m : Match) → Keeps (Once n) (locate lib ref a box m)
  unfolding locate
  locate-Keeps a box m = search (body_rules, settle-located-Keeps) depth 20

  pub reconcile_unknown-Keeps :
      (service : Service) (d : Draft) (a : SendAttempt)
      → Keeps (Once n) (reconcile_unknown_via_imap lib ref service d a)
  unfolding reconcile_unknown_via_imap
  reconcile_unknown-Keeps service d a = search (look_rules, locate-Keeps) depth 40

  pub after_append-Keeps :
      (service : Service) (a : SendAttempt) (box : Bytes) (v : AppendEvidence)
      → Keeps (Once n) (after_append lib ref service a box v)
  unfolding after_append
  after_append-Keeps service a box v =
      search (look_rules, adopt-Keeps, settle-mirrored-Keeps) depth 20

  pub after_append_failure-Keeps :
      (a : SendAttempt) (e : Failure) → Keeps (Failed n e) (after_append_failure lib ref a e)
  unfolding after_append_failure
  after_append_failure-Keeps a e = search (body_rules, replaced_after_error-Keeps) depth 14

  pub append_answered-Ends :
      (service : Service) (a : SendAttempt) (box : Bytes) (x : Answer AppendEvidence) (w : World)
      → Appended n x w.disk
      → Ends (Once n) (λ r. Once n) (λ r. Once n) (append_answered lib ref service a box x w)
  unfolding append_answered
  append_answered-Ends service a box (got v) w h = (after_append-Keeps service a box v).run w h
  append_answered-Ends service a box (refused e) w h =
      Keeps-weaker (Once n) (Failed n e) (λ d k. k.once) (after_append_failure-Keeps a e) w h

  pub dispatch_mirror-Ends :
      (service : Service) (a : SendAttempt) (box : Bytes) (w : World)
      → Uncopied n w.disk
      → Ends (Once n) (λ r. Once n) (λ r. Once n) (dispatch_mirror lib ref service a box w)
  unfolding dispatch_mirror
  dispatch_mirror-Ends service a box w h =
      let I = Once n in
      let persist = persist_mirror_attempt_before_dispatch a in
      let give = state_failed lib ref a in
      after I (Uncopied n) (λ d k. k.once) (λ r. I) (λ r. I) (check (fail_on lib ref a)) _ w
        (check-Stays I (Uncopied n) (λ d k. k.once) (λ r. I) (λ r d k. k.once) (fail_on lib ref a))
        h
        (λ u v k.
          bind-Ends I (λ r. I) (ArmedAnswer n) (λ r. I) (invoke persist) _ v
            (invoke-Ends I (λ r. I) (ArmedAnswer n) persist v (persist-Ends n a v k))
            (λ x t l.
              bind-Ends I (λ r. I) (λ b. Open n) (λ r. I) (or_return give x) _ t
                (answer-Ends I (λ r. I) (λ b. Open n) (ArmedAnswer n) give x t (λ e m. m) (λ b m. m)
                  l)
                (λ b q m.
                  bind-Ends I (λ r. I) (Appended n) (λ r. I) mirror_composed_message _ q
                    (mirror-Ends n q m) (λ y s o. append_answered-Ends service b box y s o))))

  pub retry_mirror-Ends :
      (service : Service) (a : SendAttempt) (box : Bytes) (w : World)
      → is_terminal a.outcome ≡ false
      → Loaded n (some a) w.disk
      → Ends (Once n) (λ r. Once n) (λ r. Once n) (retry_mirror lib ref service a box w)
  unfolding retry_mirror is_settled
  retry_mirror-Ends service a box w open_claim h =
      by_flag (evidence_of a).mirror_outcome_unknown refl
    where
      by_flag :
          (b : Bool)
          → (evidence_of a).mirror_outcome_unknown ≡ b
          → Ends
              (Once n)
              (λ r. Once n)
              (λ r. Once n)
              ((if b
                  then pure (fail_with lib ref a send_mirror_outcome_unknown)
                  else dispatch_mirror lib ref service a box)
                w)
      by_flag true e = pure-Ends (Once n) (λ r. Once n) (λ r. Once n) _ w h.once
      by_flag false e =
          dispatch_mirror-Ends service a box w (Loaded-Uncopied a (rw (open_claim, e) refl) h)

  pub adopt_or_retry-Ends :
      (service : Service) (a : SendAttempt) (box : Bytes) (m : Match) (w : World)
      → is_terminal a.outcome ≡ false
      → Loaded n (some a) w.disk
      → Ends (Once n) (λ r. Once n) (λ r. Once n) (adopt_or_retry lib ref service a box m w)
  unfolding adopt_or_retry
  adopt_or_retry-Ends service a box m w open_claim h = by_match (not (m.uid == 0) && m.count == 1)
    where
      by_match :
          (b : Bool)
          → Ends
              (Once n)
              (λ r. Once n)
              (λ r. Once n)
              ((if b
                  then adopt_observed_sent_message lib ref a box m
                  else retry_mirror lib ref service a box)
                w)
      by_match true = (adopt-Keeps a box m).run w h.once
      by_match false = retry_mirror-Ends service a box w open_claim h

  pub search_sent-Keeps : (I : Disk → Type 0) (a : SendAttempt) → Keeps I (search_sent lib ref a)
  unfolding search_sent
  search_sent-Keeps I a = search look_rules depth 30

  pub search_then_mirror-Ends :
      (service : Service) (a : SendAttempt) (w : World)
      → is_terminal a.outcome ≡ false
      → Loaded n (some a) w.disk
      → Ends (Once n) (λ r. Once n) (λ r. Once n) (search_then_mirror lib ref service a w)
  unfolding search_then_mirror
  search_then_mirror-Ends service a w open_claim h =
      let P = Loaded n (some a) in
      bind-Ends (Once n) (λ r. Once n) (λ x. P) (λ r. Once n) (search_sent lib ref a) _ w
        (Keeps-leads (Once n) P (λ d k. k.once) (search_sent-Keeps P a) w h)
        (λ x v k. adopt_or_retry-Ends service a x.0 x.1 v open_claim k)

  pub mirror_or_search-Ends :
      (service : Service) (a : SendAttempt) (w : World)
      → is_terminal a.outcome ≡ false
      → Loaded n (some a) w.disk
      → Ends (Once n) (λ r. Once n) (λ r. Once n) (mirror_or_search lib ref service a w)
  unfolding mirror_or_search
  mirror_or_search-Ends service a w open_claim h = by_client service.has_imap
    where
      by_client :
          (b : Bool)
          → Ends
              (Once n)
              (λ r. Once n)
              (λ r. Once n)
              ((if b
                  then search_then_mirror lib ref service a
                  else retry_mirror lib ref service a [])
                w)
      by_client true = search_then_mirror-Ends service a w open_claim h
      by_client false = retry_mirror-Ends service a [] w open_claim h

  pub check_mirror-Keeps :
      (I : Disk → Type 0) (service : Service) (a : SendAttempt)
      → Keeps I (check_mirror lib ref service a)
  unfolding check_mirror
  check_mirror-Keeps I service a = search body_rules depth 30

  pub reconcile_mirror_pending-Ends :
      (service : Service) (a : SendAttempt) (w : World)
      → is_terminal a.outcome ≡ false
      → Loaded n (some a) w.disk
      → Ends (Once n) (λ r. Once n) (λ r. Once n) (reconcile_mirror_pending lib ref service a w)
  unfolding reconcile_mirror_pending
  reconcile_mirror_pending-Ends service a w open_claim h =
      let P = Loaded n (some a) in
      bind-Ends (Once n) (λ r. Once n) (λ u. P) (λ r. Once n) (check_mirror lib ref service a) _ w
        (Keeps-leads (Once n) P (λ d k. k.once) (check_mirror-Keeps P service a) w h)
        (λ u v k. mirror_or_search-Ends service a v open_claim k)
