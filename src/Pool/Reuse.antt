-- ===== src/Pool/Reuse.antt =====
-- Which session `borrowSession` and `releaseSession` of internal/transport/imapclient/pool.go keep,
-- reuse and drop.
use mail_cli.Common.{ℕ, ◌≤◌, ◌<◌, ◌≡◌, ◌^◌, refl, true, false, not, ◌&&◌, ◌||◌, inl, inr}
use mail_cli.Common.{Option, none, some, List, [], ◌∷◌, ◌++◌, arith, length, All, ltb}
use mail_cli.Common.{Bool-cases, Option-cases, ◌⊎◌, ap, length-append, ltb→lt, ◌≢◌}
use mail_cli.Pool.{
  PooledSession, AccountPool, sweep, is_reusable, stays_on_borrow, take_idle, in_flight,
  BorrowRound, swept, reused, dial, wait, reuse_or_dial, borrow_round, next_credential_generation,
  set_in_use, signal_pool, after,
}
use mail_cli.Pool.Count.{total-sweep, after-eq-some, Found}
use mail_cli.Common.{total, ==_iff, ◌+◌}

abbrev pub IsStaleIdle : ℕ → PooledSession → Type 0
IsStaleIdle generation p =
    (p.in_use ≡ false) × ((p.invalidated ≡ true) ⊎ (p.credential_generation ≢ generation))

abbrev pub IsBusy : PooledSession → Type 0
IsBusy p = p.in_use ≡ true

stale_idle :
    (generation : ℕ) (p : PooledSession)
    → stays_on_borrow generation p ≡ false
    → IsStaleIdle generation p
unfolding stays_on_borrow is_reusable
stale_idle generation p h = elim (Bool-cases p.invalidated) [
  | inl v ↦ (ground arith, inl v)
  | inr v ↦ (ground arith, inr (λ e. ground (arith, ==_iff p.credential_generation generation)))
]

All-append {ℓ κ} :
    {A : Type ℓ} (P : A → Type κ) (xs ys : List A) → All P xs → All P ys → All P (xs ++ ys)
All-append P [] ys hx hy = hy
All-append P (x ∷ xs) ys hx hy = (hx.0, All-append P xs ys hx.1 hy)

sweep_stale :
    (generation : ℕ) (ps : List PooledSession)
    → All (IsStaleIdle generation) (sweep (stays_on_borrow generation) ps).1
unfolding sweep
sweep_stale generation [] = tt
sweep_stale generation (p ∷ ps) = elim (Bool-cases (stays_on_borrow generation p)) [
  | inl e ↦ rw e (sweep_stale generation ps)
  | inr e ↦ rw e (
      All-append (IsStaleIdle generation) _ (p ∷ []) (sweep_stale generation ps)
        (stale_idle generation p e, tt))
]

after-eq-none :
    (p : PooledSession) (o : Option (PooledSession × List PooledSession))
    → after p o ≡ none
    → o ≡ none
after-eq-none p none h = refl
after-eq-none p (some (q, qs)) h = cc

List-cases {ℓ} : {A : Type ℓ} (xs : List A) → (xs ≡ []) ⊎ ((x : A) × (ys : List A) × (xs ≡ x ∷ ys))
List-cases [] = inl refl
List-cases (x ∷ xs) = inr (x, xs, refl)

-- A round that removed nothing and found nothing to reuse saw only sessions in use.
All-IsBusy :
    (generation : ℕ) (ps : List PooledSession)
    → (sweep (stays_on_borrow generation) ps).1 ≡ []
    → take_idle generation ps ≡ none
    → All IsBusy ps
unfolding sweep take_idle stays_on_borrow
All-IsBusy generation [] h h' = tt
All-IsBusy generation (p ∷ ps) h h' = elim (Bool-cases (p.in_use || is_reusable generation p)) [
  | inl e ↦ elim (Bool-cases (not p.in_use && is_reusable generation p)) [
    | inl free ↦ cc (rw free at h')
    | inr busy ↦ (
      ground arith,
      All-IsBusy generation ps (rw e at h)
          (after-eq-none p (take_idle generation ps) (rw busy at h')),
    )
  ]
  | inr e ↦ absurd (
      omega (
        arith,
        ap length (rw e at h),
        length-append (sweep (stays_on_borrow generation) ps).1 (p ∷ []),
      ))
]

-- The sessions of `ps` are those of `kept` and of `gone`, each as often.
abbrev pub Parts : List PooledSession → List PooledSession → List PooledSession → Type 0
Parts ps kept gone = (f : PooledSession → ℕ) → total f kept + total f gone ≡ total f ps

-- `qs` has the idle, reusable session `q` of `ps` in use, and is otherwise the same.
abbrev pub TakenInUse :
    ℕ → PooledSession → List PooledSession → List PooledSession → PooledSession → Type 0
TakenInUse generation p ps qs q =
    (p ≡ set_in_use true q)
    × (q.in_use ≡ false)
    × (q.invalidated ≡ false)
    × (q.credential_generation ≡ generation)
    × ((f : PooledSession → ℕ) → total f qs + f q ≡ total f ps + f p)

taken_in_use :
    (generation : ℕ) (ps : List PooledSession) (p : PooledSession) (qs : List PooledSession)
    → take_idle generation ps ≡ some (p, qs)
    → (q : PooledSession) × TakenInUse generation p ps qs q
unfolding take_idle is_reusable
taken_in_use generation [] p qs h = cc
taken_in_use generation (x ∷ ps) p qs h =
    elim (Bool-cases (not x.in_use && is_reusable generation x)) [
      | inl e ↦
          let same : Found (set_in_use true x) (set_in_use true x ∷ ps) p qs = rw e at h in
          let ep : p ≡ set_in_use true x = cc in
          let eq : qs ≡ set_in_use true x ∷ ps = cc in
          (
            x,
            (
              ep,
              ground arith,
              ground arith,
              ground (arith, ==_iff x.credential_generation generation),
              λ f. rw (ep, eq) (omega arith),
            ),
          )
      | inr e ↦
          let (rest, found, eq) = after-eq-some x p (take_idle generation ps) qs (rw e at h) in
          let (q, (same, idle, valid, current, sum)) = taken_in_use generation ps p rest found in
          (q, (same, idle, valid, current, λ f. rw eq (omega (arith, sum f))))
    ]

-- How a round of `borrowSession` ends, and the sessions `after` it: it removes sessions that are idle
-- and cannot be reused, and no others; or it marks an idle session that can be reused; or, with no idle
-- session left, it dials below the limit and waits at it, and the sessions stay as they are.
abbrev pub BorrowRoundSpec :
    {G : Type 0} → ℕ → ℕ → AccountPool G → BorrowRound → (after : List PooledSession) → Type 0
BorrowRoundSpec limit generation pool (swept stale) after =
    All (IsStaleIdle generation) stale × (stale ≢ []) × Parts pool.sessions after stale
BorrowRoundSpec limit generation pool (reused p) after =
    (q : PooledSession) × TakenInUse generation p pool.sessions after q
BorrowRoundSpec limit generation pool dial after =
    All IsBusy pool.sessions × (in_flight pool < limit) × (after ≡ pool.sessions)
BorrowRoundSpec limit generation pool (wait n) after =
    All IsBusy pool.sessions × (limit ≤ in_flight pool) × (after ≡ pool.sessions)

module _ {G : Type 0} (limit generation : ℕ) (pool : AccountPool G) where
  reuse_or_dial-Spec :
      (sweep (stays_on_borrow generation) pool.sessions).1 ≡ []
      → BorrowRoundSpec limit generation pool
          (reuse_or_dial limit generation pool).0
          (reuse_or_dial limit generation pool).1.sessions
  unfolding reuse_or_dial
  reuse_or_dial-Spec clean = elim (Option-cases (take_idle generation pool.sessions)) [
    | inl e ↦
        rw (e, reuse_or_dial)
          (elim (Bool-cases (ltb (in_flight pool) limit)) [
            | inl room ↦
                rw room (All-IsBusy generation pool.sessions clean e, ltb→lt _ _ room, refl)
            | inr full ↦ rw full (All-IsBusy generation pool.sessions clean e, ground arith, refl)
          ])
    | inr ((p, ps), e) ↦ rw (e, reuse_or_dial) (taken_in_use generation pool.sessions p ps e)
  ]

  -- One round of the loop of `borrowSession` removes only sessions that are idle and are invalidated or
  -- of another generation, and keeps every other one; or it marks one idle session of the current
  -- generation that is not invalidated as in use and changes no other; or it dials, only when every
  -- session is in use and there is room under the limit, or waits, only when every session is in use
  -- and there is none, and the sessions stay.
  pub borrow_round-Spec :
      BorrowRoundSpec limit generation pool
        (borrow_round limit generation pool).0
        (borrow_round limit generation pool).1.sessions
  unfolding borrow_round signal_pool
  borrow_round-Spec =
      let parted : Parts pool.sessions (sweep (stays_on_borrow generation) pool.sessions).0
          (sweep (stays_on_borrow generation) pool.sessions).1 =
        λ f. total-sweep f (stays_on_borrow generation) pool.sessions in
      elim (List-cases (sweep (stays_on_borrow generation) pool.sessions).1) [
        | inl e ↦ rw (e, borrow_round) (reuse_or_dial-Spec e)
        | inr (p, ps, e) ↦
            rw (e, borrow_round)
              (rw e at (sweep_stale generation pool.sessions), λ h. cc, rw e at parted)
      ]

-- Advancing a uint64 generation gives another one, and never 0.
pub next_credential_generation_fresh :
    (g : ℕ)
    → g < 2 ^ 64
    → (next_credential_generation g ≢ g)
      × (0 < next_credential_generation g)
      × (next_credential_generation g < 2 ^ 64)
unfolding next_credential_generation
next_credential_generation_fresh g h = ground arith
