-- ===== src/Flags/Replies.antt =====
-- internal/transport/imapclient/flags.go: what an answer to a command on flags has shown.
use mail_cli.Common.{ℕ, zero, suc, ◌≡◌, refl, Bool, true, false, if◌then◌else◌}
use mail_cli.Common.{Option, none, some, List, [], ◌∷◌, Bytes, inl, inr, ◌⊎◌, Option-cases}
use mail_cli.Errors.{Failure}
use mail_cli.Flags.{FlagPermissions}
use mail_cli.Flags.Observe.{Line, FlagObservation, no_observation, consume, consume_all, Reported}
use mail_cli.Flags.Reports.{observed-Reported}
use mail_cli.Flags.Commands.{
  Reply, undelivered, unanswered, answered, Status, ok, no_status, bad, Session, Command,
  FlagCommandResult, read_lines, read_flag_result, run_command, next_reply, rest_of, updated,
  maximum_flag_response_count,
}

-- A reply has a FETCH line of the message with these flags.
unfoldable pub Seen : ℕ → List Bytes → List Reply → Type 0
Seen uid fs [] = ⊥
Seen uid fs (answered ls s ∷ rs) = Reported uid fs ls ⊎ Seen uid fs rs
Seen uid fs (undelivered e ∷ rs) = Seen uid fs rs
Seen uid fs (unanswered e ∷ rs) = Seen uid fs rs

read_lines-consume_all :
    (n uid : ℕ) (ls : List Line) (st : Status) (p : FlagPermissions) (o : FlagObservation)
    → (read_lines n uid ls st p o).0.failure ≡ none
    → consume_all uid ls o ≡ some (read_lines n uid ls st p o).0.observation
unfolding read_lines consume_all
read_lines-consume_all zero uid ls st p o h = cc
read_lines-consume_all (suc n) uid [] ok p o h = refl
read_lines-consume_all (suc n) uid [] no_status p o h = cc
read_lines-consume_all (suc n) uid [] bad p o h = cc
read_lines-consume_all (suc n) uid (l ∷ ls) st p o h = elim (Option-cases (consume uid l o)) [
  | inl e ↦ cc (rw (e, read_lines) at h)
  | inr (q, e) ↦
      rw (e, consume_all, read_lines)
        (read_lines-consume_all n uid ls st (updated l p) q (rw (e, read_lines) at h))
]

-- Both branches of a test, and both cases of an error.
pub by_test :
    {A : Type 0} (P : A → Type 0) (b : Bool) {x y : A} → P x → P y → P (if b then x else y)
by_test P true p q = p
by_test P false p q = q

pub by_failure :
    {A : Type 0} (P : A → Type 0) (o : Option Failure) {f : Failure → A} {y : A}
    → ((e : Failure) → P (f e))
    → (o ≡ none → P y)
    → P (elim o [ none ↦ y | some e ↦ f e ])
by_failure P none p q = q refl
by_failure P (some e) p q = p e

module _ (uid : ℕ) (S : List Bytes → Type 0) where
  unfoldable pub Tail : Session → Type 0
  Tail s = (fs : List Bytes) → Seen uid fs s.replies → S fs

  unfoldable pub Proved : FlagCommandResult → Type 0
  Proved r = r.failure ≡ none → r.observation.observed ≡ true → S r.observation.flags

  tail_of : (rs : List Reply) (fs : List Bytes) → Seen uid fs (rest_of rs) → Seen uid fs rs
  unfolding Seen
  tail_of [] fs h = h
  tail_of (undelivered e ∷ rs) fs h = h
  tail_of (unanswered e ∷ rs) fs h = h
  tail_of (answered ls s ∷ rs) fs h = inr h

  run-Tail : (c : Command) (s : Session) → Tail s → Tail (run_command uid c s).1
  unfolding run_command Tail
  run-Tail c s t fs h = t fs (tail_of s.replies fs h)

  reply-Proved :
      (rs : List Reply) (p : FlagPermissions)
      → ((fs : List Bytes) → Seen uid fs rs → S fs)
      → Proved (read_flag_result uid (next_reply rs) p).0
  unfolding Proved Seen read_flag_result
  reply-Proved [] p t h o = cc
  reply-Proved (undelivered e ∷ rs) p t h o = cc
  reply-Proved (unanswered e ∷ rs) p t h o = cc
  reply-Proved (answered ls st ∷ rs) p t h o =
      let r = (read_lines maximum_flag_response_count uid ls st p no_observation).0 in
      t r.observation.flags (
        inl (
          observed-Reported uid ls r.observation
            (read_lines-consume_all maximum_flag_response_count uid ls st p no_observation h) o))

  run-Proved : (c : Command) (s : Session) → Tail s → Proved (run_command uid c s).0
  unfolding run_command Tail
  run-Proved c s t = reply-Proved s.replies s.permissions t

  -- The same for the identifier that the evidence has.
  pub run :
      (c : Command) (u : ℕ) (s : Session)
      → u ≡ uid
      → Tail s
      → Proved (run_command u c s).0 × Tail (run_command u c s).1
  run c u s e t = rw e (run-Proved c s t, run-Tail c s t)
