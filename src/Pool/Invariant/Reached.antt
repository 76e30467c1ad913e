-- ===== src/Pool/Invariant/Reached.antt =====
-- The invariant holds wherever the goroutines get.
use mathlib.Core.Option
use mail_cli.Common.{ℕ, refl, Option, none, some, List, ◌∷◌, arith}
use mail_cli.Pool.{
  OperationClass, AccountPool, pool_locked, remove_empty_pool, operation_start,
  invalidate_credentials, signal_pool,
}
use mail_cli.Pool.Threads.{
  WeightedSemaphore, System, current, Step, enter, run, invalidate, Reach, start, next, initial,
  Thread, acquiring,
}
use mail_cli.Pool.Ends.{invalidated, invalidated-Sound}
use mail_cli.Pool.Count.{used}
use mail_cli.Pool.Invariant.Defs.{weight, Consistent, IsConsistent}
use mail_cli.Pool.Invariant.Steps.{Section-IsConsistent, emptied, new_pool-Sound, total-empty}

module _ (sem : WeightedSemaphore) (limit : ℕ) where
  initial-IsConsistent : IsConsistent sem limit (initial sem limit)
  initial-IsConsistent = record {
    sound = new_pool-Sound limit 0 (sem.new_weighted limit);
    dialing_eq = refl;
    dedicated_eq = refl;
    counted = refl;
    held_eq = λ id. refl;
    gate_held = sem.new_held limit;
    gate_size = sem.new_size limit;
    gate_fits = omega (arith, sem.new_held limit);
  }

  enter-IsConsistent :
      (s : System sem limit) (c : OperationClass)
      → IsConsistent sem limit s
      → IsConsistent sem limit (record s {
        pool = some (operation_start (current sem limit s));
        threads = acquiring c ∷ s.threads;
      })
  unfolding operation_start
  enter-IsConsistent s c inv = record {
    sound = record {
      fits = inv.sound.fits;
      distinct = inv.sound.distinct;
      fresh = inv.sound.fresh;
    };
    dialing_eq = omega (arith, inv.dialing_eq);
    dedicated_eq = omega (arith, inv.dedicated_eq);
    counted = omega (arith, inv.counted);
    held_eq = λ id. omega (arith, inv.held_eq id);
    gate_held = omega (arith, inv.gate_held);
    gate_size = inv.gate_size;
    gate_fits = inv.gate_fits;
  }

  module _ (ts : List Thread) (n : ℕ) where
    invalidated-IsConsistent :
        (p : AccountPool sem.Gate) (inv : Consistent sem limit p ts n)
        → Consistent sem limit (signal_pool (record p { sessions = invalidated inv.sound })) ts n
    unfolding signal_pool
    invalidated-IsConsistent p inv =
        let (kept, sound) = invalidated-Sound inv.sound in
        record {
          sound = record { fits = sound.fits; distinct = sound.distinct; fresh = sound.fresh };
          dialing_eq = inv.dialing_eq;
          dedicated_eq = inv.dedicated_eq;
          counted = inv.counted;
          held_eq = λ id. omega (arith, kept id, inv.held_eq id);
          gate_held = inv.gate_held;
          gate_size = inv.gate_size;
          gate_fits = inv.gate_fits;
        }

    emptied-IsConsistent :
        (q : AccountPool sem.Gate)
        → Consistent sem limit q ts n
        → Consistent sem limit (pool_locked (sem.new_weighted limit) (remove_empty_pool q)) ts n
    emptied-IsConsistent q inv =
        emptied (λ r. Consistent sem limit r ts n) (sem.new_weighted limit) q inv
          (λ no_operations no_sessions no_connecting no_dedicated. record {
            sound = new_pool-Sound limit n (sem.new_weighted limit);
            dialing_eq = omega (arith, inv.dialing_eq);
            dedicated_eq = omega (arith, inv.dedicated_eq);
            counted = omega (arith, inv.counted);
            held_eq =
                λ id. omega (arith, inv.held_eq id, total-empty (used id) q.sessions no_sessions);
            gate_held = omega (
              arith,
              sem.new_held limit,
              inv.counted,
              total-empty (weight limit) ts (omega (arith, inv.counted)),
            );
            gate_size = sem.new_size limit;
            gate_fits = omega (arith, sem.new_held limit);
          })

    invalidate-IsConsistent :
        (pool : Option (AccountPool sem.Gate))
        → Consistent sem limit (pool_locked (sem.new_weighted limit) pool) ts n
        → Consistent sem limit
            (pool_locked
              (sem.new_weighted limit)
              (Option.bind pool (λ p. (invalidate_credentials p).1)))
            ts
            n
    unfolding invalidate_credentials Option.bind
    invalidate-IsConsistent none inv = inv
    invalidate-IsConsistent (some p) inv = emptied-IsConsistent _ (invalidated-IsConsistent p inv)

  Step-IsConsistent :
      {s t : System sem limit}
      → IsConsistent sem limit s
      → Step sem limit s t
      → IsConsistent sem limit t
  Step-IsConsistent {s} inv (enter c) = enter-IsConsistent s c inv
  Step-IsConsistent {s} inv (run xs ys t t' pool id e section) =
      Section-IsConsistent sem limit s xs ys inv e section
  Step-IsConsistent {s} inv invalidate = invalidate-IsConsistent s.threads s.next_id s.pool inv

  pub Reach-IsConsistent : {s : System sem limit} → Reach sem limit s → IsConsistent sem limit s
  Reach-IsConsistent start = initial-IsConsistent
  Reach-IsConsistent (next r step) = Step-IsConsistent (Reach-IsConsistent r) step
