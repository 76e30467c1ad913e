-- ===== src/Drafts/Once/Claims.antt =====
-- internal/mail/draft_claims.go and draft_send.go: which claims may be written over which, and how far
-- they make room for a submission and a copy.
use mail_cli.Common.{◌+◌}
use mail_cli.Common.{ℕ, ◌≤◌, ◌≡◌, refl, true, Option, none, some, Bytes, bit, arith}
use mail_cli.Errors.{Failure, is_mirror_outcome_uncertain}
use mail_cli.Drafts.Data.{Draft, SendAttempt, AppendEvidence}
use mail_cli.Drafts.World.{Disk}
use mail_cli.Drafts.Receipts.{evidence_of}
use mail_cli.Drafts.Submit.{one_more_submission, more_copies, armed, mirror_failed, mirrored}
use mail_cli.Drafts.Once.{
  Once, Loose, is_settled, allowed-le-one, allowed_submissions, allowed_copies,
}

-- A claim may be written over any other when no copy needs it, or when it accounts for one itself.
pub allowed-claim :
    (x : Option Draft) (a : SendAttempt)
    → (1 ≤ allowed_submissions x (some a)) × (bit (is_settled a) ≤ allowed_copies x (some a))
allowed-claim none a = ground arith
allowed-claim (some x) a = (omega arith, omega arith)

pub Once-replace :
    {n : ℕ} {d : Disk} (a : SendAttempt)
    → Once n d
    → d.copies ≤ bit (is_settled a) + d.unclosed
    → Once n (record d { send_claim = some a })
Once-replace {n} {d} a h c = record {
  submitted =
      omega (arith, allowed-claim d.draft a, allowed-le-one d.draft d.send_claim, h.submitted);
  mirrored = omega (arith, allowed-claim d.draft a, c);
  bounded = h.bounded;
}

-- No copy was stored but those whose message could not be closed.
pub record Uncopied (n : ℕ) (d : Disk) : Type 0 where
  pub once : Once n d
  pub uncopied : d.copies ≤ d.unclosed

-- There is room for a submission, and none was made; and room for a copy.
pub record Ready (n : ℕ) (d : Disk) : Type 0 where
  pub loose : Loose n d
  pub once_more : Once n (one_more_submission d)
  pub uncopied : d.copies ≤ d.unclosed

pub record Open (n : ℕ) (d : Disk) : Type 0 where
  pub once : Once n d
  pub once_more : Once n (more_copies 1 d)
  pub uncopied : d.copies ≤ d.unclosed

module _ {n : ℕ} {d : Disk} where
  pub Uncopied-replace :
      (a : SendAttempt) → Uncopied n d → Uncopied n (record d { send_claim = some a })
  Uncopied-replace a h = record {
    once = Once-replace a h.once (omega (arith, h.uncopied));
    uncopied = h.uncopied;
  }

  pub Uncopied-submitted : Ready n d → Uncopied n (one_more_submission d)
  Uncopied-submitted h = record { once = h.once_more; uncopied = h.uncopied }

  -- An armed claim makes room for one copy.
  pub Open-replace :
      (a : SendAttempt)
      → is_settled a ≡ true
      → Uncopied n d
      → Open n (record d { send_claim = some a })
  Open-replace a settled h =
      let once = Once-replace a h.once (omega (arith, h.uncopied)) in
      record {
        once = once;
        once_more = record {
          submitted = once.submitted;
          mirrored = ground (arith, allowed-claim d.draft a, h.uncopied);
          bounded = once.bounded;
        };
        uncopied = h.uncopied;
      }

pub is_settled-armed : (id : Bytes) (now : ℕ) (a : SendAttempt) → is_settled (armed id now a) ≡ true
unfolding is_settled armed evidence_of
is_settled-armed id now a = ground arith

pub is_settled-mirrored :
    (v : AppendEvidence) (now : ℕ) (a : SendAttempt) → is_settled (mirrored v now a) ≡ true
unfolding is_settled mirrored
is_settled-mirrored v now a = refl

pub is_settled-failed :
    (e : Failure) (now : ℕ) (a : SendAttempt)
    → bit (is_mirror_outcome_uncertain e) ≤ bit (is_settled (mirror_failed e now a))
unfolding is_settled mirror_failed evidence_of
is_settled-failed e now a = ground arith

pub is_settled-le-one : (n : ℕ) (d : Disk) → Once n d → d.copies ≤ 1 + d.unclosed
is_settled-le-one n d h = omega (arith, h.mirrored, allowed-le-one d.draft d.send_claim)
