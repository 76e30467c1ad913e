-- ===== src/Pool/Sections.antt =====
-- What each section of internal/transport/imapclient/pool.go does to the counts of a pool: the
-- sessions, the sessions in use, and the places that dialling and dedicated connections take.
use mail_cli.Common.{ℕ, ◌+◌, ◌≤◌, ◌<◌, ◌≡◌, refl, inl, inr}
use mail_cli.Common.{Option, none, some, List, [], ◌∷◌, arith}
use mail_cli.Common.{length, total, bit, ltb, ◌==◌}
use mail_cli.Common.{Bool-cases, Option-cases}
use mail_cli.Pool.{
  PooledSession, OperationClass, AccountPool, sweep, stays_on_borrow, take_idle, evict_idle,
  in_flight, signal_pool, BorrowRound, swept, reused, dial, wait, reuse_or_dial, borrow_round,
  DedicatedRound, granted, evicted, blocked, dedicated_round,
}
use mail_cli.Pool.Threads.{Thread, borrowing, dialing, holding, dedicating, dedicated_holding}
use mail_cli.Pool.Count.{
  present, used, total-sweep, total-sweep_kept, length-sweep, take_idle-Taken, evict_idle-total,
  evict_idle-length,
}

-- What a thread counts for.
abbrev pub dials : Thread → ℕ
dials (dialing c generation) = 1
dials _ = 0

abbrev pub dedicates : Thread → ℕ
dedicates dedicated_holding = 1
dedicates _ = 0

abbrev pub holds : ℕ → Thread → ℕ
holds id (holding c id') = bit (id' == id)
holds id _ = 0

abbrev pub of_next : (Thread → ℕ) → Option Thread → ℕ
of_next f none = 0
of_next f (some t) = f t

module _ {G : Type 0} where
  -- A pool whose capacity is kept and whose pointers are distinct and allocated.
  pub record Sound (limit n : ℕ) (p : AccountPool G) : Type 0 where
    pub fits : length p.sessions + p.connecting + p.dedicated ≤ limit
    pub distinct : (id : ℕ) → total (present id) p.sessions ≤ 1
    pub fresh : (id : ℕ) → n ≤ id → total (present id) p.sessions ≡ 0

  -- From `p` to `q` a thread moved from `t` to `t'`, and the counts moved with it.
  pub record Moved (limit n : ℕ) (p q : AccountPool G) (t : Thread) (t' : Option Thread)
      : Type 0 where
    pub connecting_eq : q.connecting + dials t ≡ p.connecting + of_next dials t'
    pub dedicated_eq : q.dedicated + dedicates t ≡ p.dedicated + of_next dedicates t'
    pub used_eq :
        (id : ℕ)
        → total (used id) q.sessions + holds id t
          ≡ total (used id) p.sessions + of_next (holds id) t'
    pub sound : Sound limit n q

  abbrev pub SameRest : AccountPool G → AccountPool G → Type 0
  SameRest p q = (q.operations ≡ p.operations) × (q.state_gate ≡ p.state_gate)

  module _ {limit n : ℕ} {p : AccountPool G} (ok : Sound limit n p) (c : OperationClass) where
    pub Sound-shrink :
        (q : AccountPool G)
        → length q.sessions + q.connecting + q.dedicated ≤ limit
        → ((id : ℕ) → total (present id) q.sessions ≤ total (present id) p.sessions)
        → Sound limit n q
    Sound-shrink q fits le = record {
      fits = fits;
      distinct = λ id. omega (arith, le id, ok.distinct id);
      fresh = λ id h. omega (arith, le id, ok.fresh id h);
    }

    -- A section that changes nothing.
    pub same-Moved : (t : Thread) → Moved limit n p p t (some t)
    same-Moved t = record {
      connecting_eq = refl;
      dedicated_eq = refl;
      used_eq = λ id. refl;
      sound = ok;
    }

    -- What one round of `borrowSession` does, by how it ends.
    abbrev pub BorrowMoved : ℕ → BorrowRound × AccountPool G → Type 0
    BorrowMoved generation (swept stale, q) =
        Moved limit n p q (borrowing c) (some (borrowing c)) × SameRest p q
    BorrowMoved generation (reused x, q) =
        Moved limit n p q (borrowing c) (some (holding c x.id)) × SameRest p q
    BorrowMoved generation (dial, q) =
        Moved limit n p q (borrowing c) (some (dialing c generation)) × SameRest p q
    BorrowMoved generation (wait m, q) =
        Moved limit n p q (borrowing c) (some (borrowing c)) × SameRest p q

    take_idle-BorrowMoved :
        (generation : ℕ) (x : PooledSession) (xs : List PooledSession)
        → take_idle generation p.sessions ≡ some (x, xs)
        → BorrowMoved generation (reused x, record p { sessions = xs })
    take_idle-BorrowMoved generation x xs h =
        let t = take_idle-Taken generation p.sessions x xs h in
        (
          record {
            connecting_eq = omega arith;
            dedicated_eq = omega arith;
            used_eq = λ id. omega (arith, t.used_eq id);
            sound =
                Sound-shrink (record p { sessions = xs }) (omega (arith, t.length_eq, ok.fits))
                  (λ id. omega (arith, t.present_eq id));
          },
          (refl, refl),
        )

    swept-BorrowMoved :
        (generation : ℕ) (stale : List PooledSession)
        → BorrowMoved generation (
          swept stale,
          signal_pool (record p { sessions = (sweep (stays_on_borrow generation) p.sessions).0 }),
        )
    unfolding signal_pool
    swept-BorrowMoved generation stale =
        let keep = stays_on_borrow generation in
        (
          record {
            connecting_eq = omega arith;
            dedicated_eq = omega arith;
            used_eq = λ id. omega (
              arith,
              total-sweep_kept (used id) keep (λ q e. unfold stays_on_borrow in ground arith)
                  p.sessions,
            );
            sound =
                Sound-shrink _ (omega (arith, length-sweep keep p.sessions, ok.fits))
                  (λ id. omega (arith, total-sweep (present id) keep p.sessions));
          },
          (refl, refl),
        )

    dial-BorrowMoved :
        (generation : ℕ)
        → in_flight p < limit
        → BorrowMoved generation (dial, record p { connecting = p.connecting + 1 })
    unfolding in_flight
    dial-BorrowMoved generation h = (
      record {
        connecting_eq = omega arith;
        dedicated_eq = omega arith;
        used_eq = λ id. omega arith;
        sound =
            Sound-shrink (record p { connecting = p.connecting + 1 }) (omega arith)
              (λ id. omega arith);
      },
      (refl, refl),
    )

    reuse_or_dial-BorrowMoved :
        (generation : ℕ) → BorrowMoved generation (reuse_or_dial limit generation p)
    unfolding reuse_or_dial
    reuse_or_dial-BorrowMoved generation = elim (Option-cases (take_idle generation p.sessions)) [
      | inl e ↦
          rw (e, reuse_or_dial)
            (elim (Bool-cases (ltb (in_flight p) limit)) [
              | inl room ↦ rw room (dial-BorrowMoved generation (ground arith))
              | inr full ↦ rw full (same-Moved (borrowing c), (refl, refl))
            ])
      | inr ((x, xs), e) ↦ rw (e, reuse_or_dial) (take_idle-BorrowMoved generation x xs e)
    ]

    pub borrow_round-BorrowMoved :
        (generation : ℕ) → BorrowMoved generation (borrow_round limit generation p)
    unfolding borrow_round
    borrow_round-BorrowMoved generation =
        elim (sweep (stays_on_borrow generation) p.sessions).1
          as (λ stale. BorrowMoved generation (elim stale [
            | [] ↦ reuse_or_dial limit generation p
            | x ∷ xs ↦ (
              swept (x ∷ xs),
              signal_pool
                  (record p { sessions = (sweep (stays_on_borrow generation) p.sessions).0 }),
            )
          ])) [
            | [] ↦ reuse_or_dial-BorrowMoved generation
            | x ∷ xs ↦ swept-BorrowMoved generation (x ∷ xs)
          ]

    -- `acquireDedicated` counts itself in, or evicts an idle session.
    abbrev pub DedicatedMoved : DedicatedRound × AccountPool G → Type 0
    DedicatedMoved (granted, q) =
        Moved limit n p q dedicating (some dedicated_holding) × SameRest p q
    DedicatedMoved (evicted x, q) = Moved limit n p q dedicating (some dedicating) × SameRest p q
    DedicatedMoved (blocked m, q) = Moved limit n p q dedicating (some dedicating) × SameRest p q

    evict-DedicatedMoved :
        (x : PooledSession) (xs : List PooledSession)
        → evict_idle p.sessions ≡ some (x, xs)
        → DedicatedMoved (evicted x, signal_pool (record p { sessions = xs }))
    unfolding signal_pool
    evict-DedicatedMoved x xs h =
        let idle = (evict_idle-total (used 0) p.sessions x xs h).0 in
        (
          record {
            connecting_eq = omega arith;
            dedicated_eq = omega arith;
            used_eq = λ id. ground (arith, evict_idle-total (used id) p.sessions x xs h, idle);
            sound =
                Sound-shrink _ (omega (arith, evict_idle-length p.sessions x xs h, ok.fits))
                  (λ id. omega (arith, (evict_idle-total (present id) p.sessions x xs h).1));
          },
          (refl, refl),
        )

    grant-DedicatedMoved :
        in_flight p < limit
        → DedicatedMoved (granted, signal_pool (record p { dedicated = p.dedicated + 1 }))
    unfolding in_flight signal_pool
    grant-DedicatedMoved h = (
      record {
        connecting_eq = omega arith;
        dedicated_eq = omega arith;
        used_eq = λ id. omega arith;
        sound =
            Sound-shrink (signal_pool (record p { dedicated = p.dedicated + 1 })) (omega arith)
              (λ id. omega arith);
      },
      (refl, refl),
    )

    pub dedicated_round-DedicatedMoved : DedicatedMoved (dedicated_round limit p)
    unfolding dedicated_round
    dedicated_round-DedicatedMoved = elim (Bool-cases (ltb (in_flight p) limit)) [
      | inl room ↦ rw room (grant-DedicatedMoved (ground arith))
      | inr full ↦ rw full (elim (Option-cases (evict_idle p.sessions)) [
        | inl e ↦ rw e (same-Moved dedicating, (refl, refl))
        | inr ((x, xs), e) ↦ rw e (evict-DedicatedMoved x xs e)
      ])
    ]
