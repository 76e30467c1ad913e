-- ===== src/Flags/Reports.antt =====
-- internal/transport/imapclient/flags.go: an observation is what a line of the server reported.
use mail_cli.Common.{ℕ, ◌≡◌, refl, true, false, none, some, List, [], ◌∷◌}
use mail_cli.Common.{arith, subst, inl, inr, ◌⊎◌, Option-cases}
use mail_cli.Flags.Observe.{
  Line, FlagObservation, no_observation, consume, consume_all, consume_target, consume_other,
  consume_expunge, Reported, Kept, consume-Kept, fetch_line, expunge_line, permission_line,
  other_line, bad_line, noted,
}

-- The first line's result, and the rest.
consumed :
    (uid : ℕ) (l : Line) (ls : List Line) (p q : FlagObservation)
    → consume_all uid (l ∷ ls) p ≡ some q
    → (m : FlagObservation) × (consume uid l p ≡ some m) × (consume_all uid ls m ≡ some q)
unfolding consume_all
consumed uid l ls p q h = elim (Option-cases (consume uid l p)) [
  | inl e ↦ cc (rw (e, consume_all) at h)
  | inr (m, e) ↦ (m, e, rw (e, consume_all) at h)
]

all-Reported :
    (uid : ℕ) (ls : List Line) (p q : FlagObservation)
    → consume_all uid ls p ≡ some q
    → q.observed ≡ true
    → Reported uid q.flags ls ⊎ ((p.observed ≡ true) × (q.flags ≡ p.flags))
unfolding Reported consume_all
all-Reported uid [] p q h o = inr (ground arith)
all-Reported uid (l ∷ ls) p q h o =
    let (m, first, rest) = consumed uid l ls p q h in
    by_rest m first (all-Reported uid ls m q rest o)
  where
    by_first :
        (m : FlagObservation)
        → q.flags ≡ m.flags
        → Kept uid l p m
        → Reported uid q.flags (l ∷ ls) ⊎ ((p.observed ≡ true) × (q.flags ≡ p.flags))
    by_first m same (inl (sequence, e)) = inl (inl (sequence, rw same e))
    by_first m same (inr (seen, e)) = inr (seen, rw same e)

    by_rest :
        (m : FlagObservation)
        → consume uid l p ≡ some m
        → Reported uid q.flags ls ⊎ ((m.observed ≡ true) × (q.flags ≡ m.flags))
        → Reported uid q.flags (l ∷ ls) ⊎ ((p.observed ≡ true) × (q.flags ≡ p.flags))
    by_rest m first (inl r) = inl (inr r)
    by_rest m first (inr (seen, same)) = by_first m same (consume-Kept uid l p m first seen)

-- The flags of an observation that stands at the end of a response are those of a FETCH line of that
-- response for the same message.
pub observed-Reported :
    (uid : ℕ) (ls : List Line) (q : FlagObservation)
    → consume_all uid ls no_observation ≡ some q
    → q.observed ≡ true
    → Reported uid q.flags ls
observed-Reported uid ls q h o = elim (all-Reported uid ls no_observation q h o) [
  | inl r ↦ r
  | inr (never, same) ↦ cc never
]

-- A message that was expunged is not observed.
abbrev Gone : FlagObservation → Type 0
Gone o = o.missing ≡ true → o.observed ≡ false

consume-Gone :
    (uid : ℕ) (l : Line) (p q : FlagObservation) → consume uid l p ≡ some q → Gone p → Gone q
unfolding consume consume_target consume_other consume_expunge noted
consume-Gone uid (fetch_line sequence none flags) p q h g m = ground arith
consume-Gone uid (fetch_line sequence (some u) none) p q h g m = ground arith
consume-Gone uid (fetch_line sequence (some u) (some flags)) p q h g m = ground arith
consume-Gone uid (expunge_line sequence) p q h g m = ground arith
consume-Gone uid (permission_line fs) p q h g m = ground arith
consume-Gone uid other_line p q h g m = ground arith
consume-Gone uid bad_line p q h g m = cc

all-Gone :
    (uid : ℕ) (ls : List Line) (p q : FlagObservation)
    → consume_all uid ls p ≡ some q
    → Gone p
    → Gone q
unfolding consume_all
all-Gone uid [] p q h g = let e : p ≡ q = ground arith in subst Gone e g
all-Gone uid (l ∷ ls) p q h g =
    let (k, first, rest) = consumed uid l ls p q h in
    all-Gone uid ls k q rest (consume-Gone uid l p k first g)

-- After a response in which the message was expunged its flags are not observed.
pub missing_unobserved :
    (uid : ℕ) (ls : List Line) (q : FlagObservation)
    → consume_all uid ls no_observation ≡ some q
    → q.missing ≡ true
    → q.observed ≡ false
missing_unobserved uid ls q h = all-Gone uid ls no_observation q h (λ m. refl)
