-- ===== src/Pool/Invariant/Defs.antt =====
-- The invariant of the pool, and how a section that moves one thread keeps it.
use mail_cli.Common.{ℕ, ◌+◌, ◌≤◌, ◌≡◌, refl, ap, ◌∙◌, Option, none, some}
use mail_cli.Common.{List, [], ◌∷◌, ◌++◌, arith, length, total, total-append, total-split}
use mail_cli.Pool.{mutation, AccountPool, gate_weight}
use mail_cli.Pool.Threads.{
  WeightedSemaphore, Thread, acquiring, borrowing, dialing, holding, dedicating, dedicated_holding,
  leaving, departing, System, current, resume,
}
use mail_cli.Pool.Sections.{Sound, dials, dedicates, holds, of_next}
use mail_cli.Pool.Count.{used}

-- What a thread holds of the state gate.
abbrev pub weight : ℕ → Thread → ℕ
weight limit (acquiring c) = 0
weight limit (borrowing c) = gate_weight limit c
weight limit (dialing c generation) = gate_weight limit c
weight limit (holding c id) = gate_weight limit c
weight limit dedicating = gate_weight limit mutation
weight limit dedicated_holding = gate_weight limit mutation
weight limit (leaving c) = gate_weight limit c
weight limit departing = 0

module _ (sem : WeightedSemaphore) (limit : ℕ) where
  -- Every counter of the pool is the number of threads that it counts, every session in use is held
  -- by a thread and by one only, and the gate is held to the sum of the threads' weights.
  pub record Consistent (p : AccountPool sem.Gate) (ts : List Thread) (n : ℕ) : Type 0 where
    pub sound : Sound limit n p
    pub dialing_eq : p.connecting ≡ total dials ts
    pub dedicated_eq : p.dedicated ≡ total dedicates ts
    pub counted : p.operations ≡ length ts
    pub held_eq : (id : ℕ) → total (used id) p.sessions ≡ total (holds id) ts
    pub gate_held : sem.held p.state_gate ≡ total (weight limit) ts
    pub gate_size : sem.size p.state_gate ≡ limit
    pub gate_fits : sem.held p.state_gate ≤ limit

  abbrev pub IsConsistent : System sem limit → Type 0
  IsConsistent s = Consistent (current sem limit s) s.threads s.next_id

  -- The gate and the operations across a section.
  pub record Gated (p q : AccountPool sem.Gate) (t : Thread) (t' : Option Thread) : Type 0 where
    pub operations_eq : q.operations + 1 ≡ p.operations + of_next (λ _. 1) t'
    pub held_eq :
        sem.held q.state_gate + weight limit t ≡ sem.held p.state_gate + of_next (weight limit) t'
    pub size_eq : sem.size q.state_gate ≡ limit
    pub fits : sem.held q.state_gate ≤ limit

pub total-resume :
    (f : Thread → ℕ) (xs ys : List Thread) (t : Option Thread)
    → total f (xs ++ resume t ys) ≡ total f xs + of_next f t + total f ys
total-resume f xs ys none = omega (arith, total-append f xs ys)
total-resume f xs ys (some t) = total-split f xs ys t

pub length-total : (ts : List Thread) → length ts ≡ total (λ _. 1) ts
length-total [] = refl
length-total (t ∷ ts) = omega (arith, length-total ts)

pub total-threads :
    (f : Thread → ℕ) (ts xs ys : List Thread) (t : Thread)
    → ts ≡ xs ++ (t ∷ ys)
    → total f ts ≡ total f xs + f t + total f ys
total-threads f ts xs ys t e = ap (total f) e ∙ total-split f xs ys t
