-- ===== src/Drafts/Once.antt =====
-- The invariant of a draft's files that keeps a message from being sent or mirrored twice, and the
-- pieces of internal/mail/draft_state.go and draft_claims.go that keep it.
pub mod Files
pub mod Claims
pub mod Submit
pub mod Read
pub mod Send
pub mod Mirror
pub mod Reconcile
use mail_cli.Common.{◌+◌}
use mail_cli.Common.{
  ℕ, ◌≤◌, ◌≡◌, refl, Bool, true, false, ◌||◌, Option, none, some, Bytes, bit, arith,
}
use mail_cli.Errors.{Failure}
use mail_cli.Drafts.Data.{Draft, SendAttempt, SendReceipt}
use mail_cli.Drafts.World.{
  Disk, World, Fate, works, fails, fails_late, Body, ◌>>=◌, Answer, got, refused, or_return, write,
  quiet, ask_clock, invoke, read_with, unchanged, pure, join_answers, return_if,
}
use mail_cli.Drafts.Claims.{
  DraftLibrary, read_send_attempt, remove_spool, remove_send_attempt, remove_draft_claims,
  replace_send_attempt, decoded_claim,
}
use mail_cli.Drafts.Receipts.{evidence_of, is_terminal}
use mail_cli.Drafts.Triples.{
  Ends, Steps, bind-Ends, invoke-Ends, ask-Ends, or_return-Ends, pure-Ends, read-Ends, write-Ends,
  Stays, quiet-Stays, ask_clock-Stays, or_return-Stays, return_if-Stays, read-Stays, after,
}

-- A claim that no APPEND follows: the copy was seen, or one may have been stored.
unfoldable pub is_settled : SendAttempt → Bool
unfolding evidence_of
is_settled a = is_terminal a.outcome || (evidence_of a).mirror_outcome_unknown

-- How many submissions and copies the files account for. Without the draft nothing is sent any more.
abbrev pub allowed_submissions : Option Draft → Option SendAttempt → ℕ
allowed_submissions none claim = 1
allowed_submissions (some x) none = 0
allowed_submissions (some x) (some a) = 1

abbrev pub allowed_copies : Option Draft → Option SendAttempt → ℕ
allowed_copies none claim = 1
allowed_copies (some x) none = 0
allowed_copies (some x) (some a) = bit (is_settled a)

-- The message was submitted at most once, and at most `n` times, and its copy stored at most once but
-- for the copies whose message could not be closed.
pub record Once (n : ℕ) (d : Disk) : Type 0 where
  pub submitted : d.submissions ≤ allowed_submissions d.draft d.send_claim
  pub mirrored : d.copies ≤ allowed_copies d.draft d.send_claim + d.unclosed
  pub bounded : d.submissions ≤ n

-- The claim may go or be replaced by any other: nothing was sent, or the draft is gone.
pub record Loose (n : ℕ) (d : Disk) : Type 0 where
  pub once : Once n d
  pub without_claim : Once n (record d { send_claim = none })

pub allowed-le-one :
    (x : Option Draft) (c : Option SendAttempt)
    → (allowed_submissions x c ≤ 1) × (allowed_copies x c ≤ 1)
allowed-le-one none c = (omega arith, omega arith)
allowed-le-one (some x) none = (omega arith, omega arith)
allowed-le-one (some x) (some a) = (omega arith, ground arith)

pub Once-without_draft : {n : ℕ} {d : Disk} → Once n d → Loose n (record d { draft = none })
Once-without_draft {n} {d} h =
    let bound = allowed-le-one d.draft d.send_claim in
    let gone : Once n (record d { draft = none }) = record {
      submitted = omega (arith, h.submitted, bound.0);
      mirrored = omega (arith, h.mirrored, bound.1);
      bounded = h.bounded;
    } in
    record {
      once = gone;
      without_claim = record {
        submitted = gone.submitted;
        mirrored = gone.mirrored;
        bounded = gone.bounded;
      };
    }

pub Once-absent : {n : ℕ} {d : Disk} → d.draft ≡ none → Once n d → Loose n d
Once-absent {n} {d} e h =
    let gone = (Once-without_draft h).without_claim in
    record {
      once = h;
      without_claim = record {
        submitted = rw e gone.submitted;
        mirrored = rw e gone.mirrored;
        bounded = gone.bounded;
      };
    }
