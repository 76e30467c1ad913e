-- ===== src/Pool/Invariant/Preserved.antt =====
-- Every section keeps the invariant.
use mail_cli.Common.{ℕ, ◌+◌, ◌≤◌, ◌≡◌, refl, Option, some, List, ◌∷◌, ◌++◌}
use mail_cli.Common.{arith}
use mail_cli.Pool.{AccountPool, pool_locked}
use mail_cli.Pool.Threads.{WeightedSemaphore, Thread, System, current, resume}
use mail_cli.Pool.Sections.{Moved, dials, dedicates, holds, SameRest}
use mail_cli.Pool.Invariant.Defs.{
  weight, IsConsistent, Gated, total-resume, total-threads, length-total,
}

module _ (sem : WeightedSemaphore) (limit : ℕ) where
  abbrev pub After :
      (s : System sem limit) (xs ys : List Thread) (t' : Option Thread)
      → Option (AccountPool sem.Gate)
      → ℕ
      → System sem limit
  After s xs ys t' pool id = record s { pool = pool; threads = xs ++ resume t' ys; next_id = id }

  -- A thread that moves with its counts keeps the invariant.
  pub Moved-IsConsistent :
      (s : System sem limit) (xs ys : List Thread) (t : Thread) (t' : Option Thread)
      (pool : Option (AccountPool sem.Gate)) (id : ℕ)
      → IsConsistent sem limit s
      → s.threads ≡ xs ++ (t ∷ ys)
      → Moved limit id (current sem limit s) (pool_locked (sem.new_weighted limit) pool) t t'
      → Gated sem limit (current sem limit s) (pool_locked (sem.new_weighted limit) pool) t t'
      → IsConsistent sem limit (After s xs ys t' pool id)
  Moved-IsConsistent s xs ys t t' pool id inv e m g = record {
    sound = m.sound;
    dialing_eq = omega (
      arith,
      m.connecting_eq,
      inv.dialing_eq,
      total-threads dials s.threads xs ys t e,
      total-resume dials xs ys t',
    );
    dedicated_eq = omega (
      arith,
      m.dedicated_eq,
      inv.dedicated_eq,
      total-threads dedicates s.threads xs ys t e,
      total-resume dedicates xs ys t',
    );
    counted = omega (
      arith,
      g.operations_eq,
      inv.counted,
      total-threads (λ _. 1) s.threads xs ys t e,
      total-resume (λ _. 1) xs ys t',
      length-total s.threads,
      length-total (xs ++ resume t' ys),
    );
    held_eq = λ j. omega (
      arith,
      m.used_eq j,
      inv.held_eq j,
      total-threads (holds j) s.threads xs ys t e,
      total-resume (holds j) xs ys t',
    );
    gate_held = omega (
      arith,
      g.held_eq,
      inv.gate_held,
      total-threads (weight limit) s.threads xs ys t e,
      total-resume (weight limit) xs ys t',
    );
    gate_size = g.size_eq;
    gate_fits = g.fits;
  }

  Gated-same :
      (s : System sem limit) (q : AccountPool sem.Gate) (t t' : Thread)
      → IsConsistent sem limit s
      → SameRest (current sem limit s) q
      → weight limit t ≡ weight limit t'
      → Gated sem limit (current sem limit s) q t (some t')
  Gated-same s q t t' inv (same_operations, same_gate) w = record {
    operations_eq = omega arith;
    held_eq = rw same_gate (omega arith);
    size_eq = rw same_gate inv.gate_size;
    fits = rw same_gate inv.gate_fits;
  }

  -- A section of the kind that leaves the operations and the gate alone.
  pub plain :
      (s : System sem limit) (xs ys : List Thread) (t t' : Thread) (q : AccountPool sem.Gate)
      (id : ℕ)
      → IsConsistent sem limit s
      → s.threads ≡ xs ++ (t ∷ ys)
      → weight limit t ≡ weight limit t'
      → Moved limit id (current sem limit s) q t (some t') × SameRest (current sem limit s) q
      → IsConsistent sem limit (After s xs ys (some t') (some q) id)
  plain s xs ys t t' q id inv e w (m, r) =
      Moved-IsConsistent s xs ys t (some t') (some q) id inv e m (Gated-same s q t t' inv r w)

  -- A thread goes on at another place and the pool stays as it is.
  pub idle :
      (s : System sem limit) (xs ys : List Thread) (t t' : Thread)
      → IsConsistent sem limit s
      → s.threads ≡ xs ++ (t ∷ ys)
      → weight limit t ≡ weight limit t'
      → dials t ≡ dials t'
      → dedicates t ≡ dedicates t'
      → ((j : ℕ) → holds j t ≡ holds j t')
      → IsConsistent sem limit (After s xs ys (some t') s.pool s.next_id)
  idle s xs ys t t' inv e w d d' h =
      Moved-IsConsistent s xs ys t (some t') s.pool s.next_id inv e
        (record {
          connecting_eq = omega arith;
          dedicated_eq = omega arith;
          used_eq = λ j. omega (arith, h j);
          sound = inv.sound;
        })
        (Gated-same s _ t t' inv (refl, refl) w)

  -- `acquire` returned: the thread holds its weight from now on.
  pub gated :
      (s : System sem limit) (xs ys : List Thread) (t t' : Thread) (g : sem.Gate)
      → IsConsistent sem limit s
      → s.threads ≡ xs ++ (t ∷ ys)
      → dials t ≡ dials t'
      → dedicates t ≡ dedicates t'
      → ((j : ℕ) → holds j t ≡ holds j t')
      → sem.held g + weight limit t ≡ sem.held (current sem limit s).state_gate + weight limit t'
      → sem.size g ≡ limit
      → sem.held g ≤ limit
      → IsConsistent sem limit (
          After s xs ys
            (some t')
            (some (record (current sem limit s) { state_gate = g }))
            s.next_id)
  gated s xs ys t t' g inv e d d' h held size fits =
      Moved-IsConsistent s xs ys t (some t')
        (some (record (current sem limit s) { state_gate = g })) s.next_id inv e
        (record {
          connecting_eq = omega arith;
          dedicated_eq = omega arith;
          used_eq = λ j. omega (arith, h j);
          sound = record {
            fits = inv.sound.fits;
            distinct = inv.sound.distinct;
            fresh = inv.sound.fresh;
          };
        })
        (record { operations_eq = refl; held_eq = held; size_eq = size; fits = fits })
