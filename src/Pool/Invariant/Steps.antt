-- ===== src/Pool/Invariant/Steps.antt =====
-- Every step of the system keeps the invariant, so it holds wherever the goroutines get.
use mail_cli.Common.{ℕ, ◌+◌, ◌≤◌, ◌≡◌, refl, ◌∙◌, Option, none, some, List, [], ◌∷◌, ◌++◌}
use mail_cli.Common.{arith, length, total, subst, Bool-cases, inl, inr, ◌&&◌, ◌==◌, ◌-◌}
use mail_cli.Pool.{
  mutation, AccountPool, gate_weight, pool_locked, new_pool, remove_empty_pool, operation_done,
  dial_done, dial_failed, dedicated_done,
}
use mail_cli.Pool.Threads.{
  WeightedSemaphore, Thread, acquiring, borrowing, dialing, holding, dedicating, dedicated_holding,
  leaving, departing, System, current, Section, admit, admit_dedicated, refuse, sweep_stale, reuse,
  start_dial, borrow_wait, borrow_canceled, connected, connect_failed, use_session, put_back, grant,
  evict, dedicated_wait, dedicated_canceled, dedicated_release, give_gate_back, count_out,
}
use mail_cli.Pool.Sections.{
  Sound, Moved, dials, dedicates, holds, BorrowMoved, borrow_round-BorrowMoved, DedicatedMoved,
  dedicated_round-DedicatedMoved,
}
use mail_cli.Pool.Ends.{
  dial_done-Moved, dial_failed-Moved, dedicated_done-Moved, touch-Moved, release_session-Moved,
}
use mail_cli.Pool.Count.{used}
use mail_cli.Pool.Invariant.Defs.{weight, IsConsistent, Gated, total-threads, length-total}
use mail_cli.Pool.Invariant.Preserved.{After, Moved-IsConsistent, plain, idle, gated}

pub total-empty {ℓ} : {A : Type ℓ} (f : A → ℕ) (xs : List A) → length xs ≡ 0 → total f xs ≡ 0
total-empty f [] h = refl
total-empty f (x ∷ xs) h = absurd (omega arith)

module _ {G : Type 0} where
  pub new_pool-Sound : (limit n : ℕ) (gate : G) → Sound limit n (new_pool gate)
  new_pool-Sound limit n gate = record {
    fits = omega arith;
    distinct = λ id. omega arith;
    fresh = λ id h. refl;
  }

  -- What is looked up after an empty pool was removed from the map.
  pub emptied :
      (P : AccountPool G → Type 0) (gate : G) (q : AccountPool G)
      → P q
      → (q.operations ≡ 0
          → length q.sessions ≡ 0
          → q.connecting ≡ 0
          → q.dedicated ≡ 0
          → P (new_pool gate))
      → P (pool_locked gate (remove_empty_pool q))
  unfolding remove_empty_pool
  emptied P gate q stays gone =
      elim (Bool-cases (
        q.operations == 0 && (length q.sessions == 0 && (q.connecting == 0 && q.dedicated == 0)))) [
          | inl e ↦ rw e (gone (ground arith) (ground arith) (ground arith) (ground arith))
          | inr e ↦ rw e stays
        ]

module _ (sem : WeightedSemaphore) (limit : ℕ) where
  module _ (s : System sem limit) (xs ys : List Thread) (inv : IsConsistent sem limit s) where
    admitted :
        (t t' : Thread) (g : sem.Gate)
        → s.threads ≡ xs ++ (t ∷ ys)
        → weight limit t ≡ 0
        → sem.acquire (current sem limit s).state_gate (weight limit t') ≡ some g
        → dials t ≡ dials t'
        → dedicates t ≡ dedicates t'
        → ((j : ℕ) → holds j t ≡ holds j t')
        → IsConsistent sem limit (
            After sem limit s xs ys
              (some t')
              (some (record (current sem limit s) { state_gate = g }))
              s.next_id)
    admitted t t' g e zero_weight h d d' same =
        let gate = (current sem limit s).state_gate in
        let w = weight limit t' in
        gated sem limit s xs ys t t' g inv e d d' same (omega (arith, sem.acquire_held gate w g h))
          (sem.acquire_size gate w g h ∙ inv.gate_size)
          (omega (arith, sem.acquire_fits gate w g h, inv.gate_size))

    CountedOut : AccountPool sem.Gate → Type 0
    CountedOut q =
        Moved limit s.next_id (current sem limit s) q departing none
        × Gated sem limit (current sem limit s) q departing none

    counted_out :
        s.threads ≡ xs ++ (departing ∷ ys)
        → Moved limit s.next_id
            (current sem limit s)
            (pool_locked (sem.new_weighted limit) (operation_done (current sem limit s)))
            departing
            none
          × Gated sem limit
              (current sem limit s)
              (pool_locked (sem.new_weighted limit) (operation_done (current sem limit s)))
              departing
              none
    unfolding operation_done CountedOut
    counted_out e =
        let p = current sem limit s in
        let last : p.operations ≡ length xs + 1 + length ys = omega (
          arith,
          inv.counted,
          total-threads (λ _. 1) s.threads xs ys departing e,
          length-total s.threads,
          length-total xs,
          length-total ys,
        ) in
        emptied CountedOut (sem.new_weighted limit) (record p { operations = p.operations - 1 })
          (
            record {
              connecting_eq = refl;
              dedicated_eq = refl;
              used_eq = λ j. refl;
              sound = record {
                fits = inv.sound.fits;
                distinct = inv.sound.distinct;
                fresh = inv.sound.fresh;
              };
            },
            record {
              operations_eq = omega arith;
              held_eq = refl;
              size_eq = inv.gate_size;
              fits = inv.gate_fits;
            },
          )
          (λ no_operations no_sessions no_connecting no_dedicated.
            let idle : total (weight limit) s.threads ≡ 0 = omega (
              arith,
              total-threads (weight limit) s.threads xs ys departing e,
              total-empty (weight limit) xs (omega arith),
              total-empty (weight limit) ys (omega arith),
            ) in
            (
              record {
                connecting_eq = omega arith;
                dedicated_eq = omega arith;
                used_eq = λ j. omega (arith, total-empty (used j) p.sessions no_sessions);
                sound = new_pool-Sound limit s.next_id (sem.new_weighted limit);
              },
              record {
                operations_eq = omega arith;
                held_eq = omega (arith, sem.new_held limit, inv.gate_held, idle);
                size_eq = sem.new_size limit;
                fits = omega (arith, sem.new_held limit);
              },
            ))

    pub Section-IsConsistent :
        {t : Thread} {t' : Option Thread} {pool : Option (AccountPool sem.Gate)} {id : ℕ}
        → s.threads ≡ xs ++ (t ∷ ys)
        → Section sem limit s t t' pool id
        → IsConsistent sem limit (After sem limit s xs ys t' pool id)
    Section-IsConsistent e (admit c g h) =
        admitted (acquiring c) (borrowing c) g e refl h refl refl (λ j. refl)
    Section-IsConsistent e (admit_dedicated g h) =
        admitted (acquiring mutation) dedicating g e refl h refl refl (λ j. refl)
    Section-IsConsistent e (refuse c) =
        idle sem limit s xs ys (acquiring c) departing inv e refl refl refl (λ j. refl)
    Section-IsConsistent e (sweep_stale c stale pool h) =
        plain sem limit s xs ys (borrowing c) (borrowing c) pool s.next_id inv e refl (
          subst (BorrowMoved inv.sound c s.generation) h
            (borrow_round-BorrowMoved inv.sound c s.generation))
    Section-IsConsistent e (reuse c p pool h) =
        plain sem limit s xs ys (borrowing c) (holding c p.id) pool s.next_id inv e refl (
          subst (BorrowMoved inv.sound c s.generation) h
            (borrow_round-BorrowMoved inv.sound c s.generation))
    Section-IsConsistent e (start_dial c pool h) =
        plain sem limit s xs ys (borrowing c) (dialing c s.generation) pool s.next_id inv e refl (
          subst (BorrowMoved inv.sound c s.generation) h
            (borrow_round-BorrowMoved inv.sound c s.generation))
    Section-IsConsistent e (borrow_wait c n pool h) =
        plain sem limit s xs ys (borrowing c) (borrowing c) pool s.next_id inv e refl (
          subst (BorrowMoved inv.sound c s.generation) h
            (borrow_round-BorrowMoved inv.sound c s.generation))
    Section-IsConsistent e (borrow_canceled c) =
        idle sem limit s xs ys (borrowing c) (leaving c) inv e refl refl refl (λ j. refl)
    Section-IsConsistent e (connected c generation) =
        plain sem limit s xs ys (dialing c generation) (holding c s.next_id) _ _ inv e refl (
          dial_done-Moved inv.sound c generation (
              omega (
                arith,
                inv.dialing_eq,
                total-threads dials s.threads xs ys (dialing c generation) e,
              )),
          unfold dial_done in (refl, refl),
        )
    Section-IsConsistent e (connect_failed c generation) =
        plain sem limit s xs ys (dialing c generation) (leaving c) _ _ inv e refl (
          dial_failed-Moved inv.sound c generation (
              omega (
                arith,
                inv.dialing_eq,
                total-threads dials s.threads xs ys (dialing c generation) e,
              )),
          unfold dial_failed in (refl, refl),
        )
    Section-IsConsistent e (use_session c id dirty selected uidvalidity) =
        plain sem limit s xs ys (holding c id) (holding c id) _ _ inv e refl
          (touch-Moved inv.sound c id dirty selected uidvalidity, (refl, refl))
    Section-IsConsistent e (put_back c id canceled) =
        plain sem limit s xs ys (holding c id) (leaving c) _ _ inv e refl (
          release_session-Moved inv.sound c canceled s.generation id (
            ground
              (arith, inv.held_eq id, total-threads (holds id) s.threads xs ys (holding c id) e)))
    Section-IsConsistent e (grant pool h) =
        plain sem limit s xs ys dedicating dedicated_holding pool s.next_id inv e refl (
          subst (DedicatedMoved inv.sound mutation) h
            (dedicated_round-DedicatedMoved inv.sound mutation))
    Section-IsConsistent e (evict p pool h) =
        plain sem limit s xs ys dedicating dedicating pool s.next_id inv e refl (
          subst (DedicatedMoved inv.sound mutation) h
            (dedicated_round-DedicatedMoved inv.sound mutation))
    Section-IsConsistent e (dedicated_wait n pool h) =
        plain sem limit s xs ys dedicating dedicating pool s.next_id inv e refl (
          subst (DedicatedMoved inv.sound mutation) h
            (dedicated_round-DedicatedMoved inv.sound mutation))
    Section-IsConsistent e dedicated_canceled =
        idle sem limit s xs ys dedicating (leaving mutation) inv e refl refl refl (λ j. refl)
    Section-IsConsistent e dedicated_release =
        plain sem limit s xs ys dedicated_holding (leaving mutation) _ _ inv e refl (
          dedicated_done-Moved inv.sound (
              omega (
                arith,
                inv.dedicated_eq,
                total-threads dedicates s.threads xs ys dedicated_holding e,
              )),
          unfold dedicated_done in (refl, refl),
        )
    Section-IsConsistent e (give_gate_back c) =
        let gate = (current sem limit s).state_gate in
        let w = gate_weight limit c in
        let room : w ≤ sem.held gate =
          omega
            (arith, inv.gate_held, total-threads (weight limit) s.threads xs ys (leaving c) e) in
        gated sem limit s xs ys (leaving c) departing (sem.release gate w) inv e refl refl
          (λ j. refl) (omega (arith, sem.release_held gate w room))
          (sem.release_size gate w ∙ inv.gate_size)
          (omega (arith, sem.release_held gate w room, inv.gate_fits))
    Section-IsConsistent e count_out =
        let (m, g) = counted_out e in
        Moved-IsConsistent sem limit s xs ys departing none (operation_done (current sem limit s))
          s.next_id inv e m g
