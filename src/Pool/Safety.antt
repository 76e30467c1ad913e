-- ===== src/Pool/Safety.antt =====
-- Safety of the session pool of internal/transport/imapclient/pool.go in every reachable state of its
-- goroutines.
use mail_cli.Common.{ℕ, ◌+◌, ◌≤◌, ◌≡◌, refl, List, [], ◌∷◌, ◌++◌, arith, length, total}
use mail_cli.Pool.{OperationClass, independent_read, selected_state_read, mutation, gate_weight}
use mail_cli.Pool.Threads.{
  WeightedSemaphore, Thread, acquiring, borrowing, dialing, holding, dedicating, dedicated_holding,
  leaving, departing, System, current, Reach,
}
use mail_cli.Pool.Sections.{dials, dedicates, holds}
use mail_cli.Pool.Count.{used, used-le-present}
use mail_cli.Pool.Invariant.{Reach-IsConsistent}
use mail_cli.Pool.Invariant.Defs.{weight, total-threads, IsConsistent}

-- A thread that the state gate has not admitted, or has seen off.
abbrev pub IsOutside : Thread → Type 0
IsOutside (acquiring c) = Unit
IsOutside departing = Unit
IsOutside _ = ⊥

abbrev pub AllOutside : List Thread → Type 0
AllOutside [] = Unit
AllOutside (t ∷ ts) = IsOutside t × AllOutside ts

-- A thread inside the gate on behalf of a mutation.
abbrev pub IsMutating : Thread → Type 0
IsMutating (borrowing c) = c ≡ mutation
IsMutating (dialing c generation) = c ≡ mutation
IsMutating (holding c id) = c ≡ mutation
IsMutating dedicating = Unit
IsMutating dedicated_holding = Unit
IsMutating (leaving c) = c ≡ mutation
IsMutating _ = ⊥

module _ (limit : ℕ) (positive : 1 ≤ limit) where
  gate_weight_pos : (c : OperationClass) → 1 ≤ gate_weight limit c
  unfolding gate_weight
  gate_weight_pos independent_read = omega arith
  gate_weight_pos selected_state_read = omega arith
  gate_weight_pos mutation = positive

  IsOutside-of_weight : (t : Thread) → weight limit t ≡ 0 → IsOutside t
  IsOutside-of_weight (acquiring c) h = tt
  IsOutside-of_weight departing h = tt
  IsOutside-of_weight (borrowing c) h = absurd (omega (arith, gate_weight_pos c))
  IsOutside-of_weight (dialing c generation) h = absurd (omega (arith, gate_weight_pos c))
  IsOutside-of_weight (holding c id) h = absurd (omega (arith, gate_weight_pos c))
  IsOutside-of_weight dedicating h = absurd (omega (arith, gate_weight_pos mutation))
  IsOutside-of_weight dedicated_holding h = absurd (omega (arith, gate_weight_pos mutation))
  IsOutside-of_weight (leaving c) h = absurd (omega (arith, gate_weight_pos c))

  all_outside : (ts : List Thread) → total (weight limit) ts ≡ 0 → AllOutside ts
  all_outside [] h = tt
  all_outside (t ∷ ts) h = (IsOutside-of_weight t (omega arith), all_outside ts (omega arith))

  mutating_weight : (t : Thread) → IsMutating t → weight limit t ≡ limit
  unfolding gate_weight
  mutating_weight (acquiring c) h = absurd h
  mutating_weight departing h = absurd h
  mutating_weight (borrowing c) h = rw h
  mutating_weight (dialing c generation) h = rw h
  mutating_weight (holding c id) h = rw h
  mutating_weight dedicating h = refl
  mutating_weight dedicated_holding h = refl
  mutating_weight (leaving c) h = rw h

-- In every reachable state the sessions, the dials under way and the dedicated connections of an
-- account are together at most the connection limit; the three counters are the numbers of
-- goroutines that dial, that hold a dedicated connection, and that work on the account.
pub capacity_kept :
    (sem : WeightedSemaphore) (limit : ℕ) (s : System sem limit)
    → Reach sem limit s
    → (length (current sem limit s).sessions
          + (current sem limit s).connecting
          + (current sem limit s).dedicated
        ≤ limit)
      × ((current sem limit s).connecting ≡ total dials s.threads)
      × ((current sem limit s).dedicated ≡ total dedicates s.threads)
      × ((current sem limit s).operations ≡ length s.threads)
capacity_kept sem limit s r =
    let inv = Reach-IsConsistent sem limit r in
    (inv.sound.fits, inv.dialing_eq, inv.dedicated_eq, inv.counted)

-- In every reachable state at most one goroutine holds a session, and a session is held exactly
-- while the pool has it marked in use.
pub session_exclusive :
    (sem : WeightedSemaphore) (limit : ℕ) (s : System sem limit) (id : ℕ)
    → Reach sem limit s
    → (total (holds id) s.threads ≤ 1)
      × (total (used id) (current sem limit s).sessions ≡ total (holds id) s.threads)
session_exclusive sem limit s id r =
    let inv = Reach-IsConsistent sem limit r in
    (
      omega (
        arith,
        inv.held_eq id,
        inv.sound.distinct id,
        used-le-present id (current sem limit s).sessions,
      ),
      inv.held_eq id,
    )

-- In every reachable state of a pool with a positive connection limit, while one goroutine is inside
-- the gate for a mutation, every other goroutine of the account waits outside the gate or has left it.
pub mutation_exclusive :
    (sem : WeightedSemaphore) (limit : ℕ) (s : System sem limit) (xs ys : List Thread) (t : Thread)
    → 1 ≤ limit
    → Reach sem limit s
    → s.threads ≡ xs ++ (t ∷ ys)
    → IsMutating t
    → AllOutside xs × AllOutside ys
mutation_exclusive sem limit s xs ys t positive r e m = (
  all_outside limit positive xs (omega (arith, sum, full, inv.gate_held, inv.gate_fits)),
  all_outside limit positive ys (omega (arith, sum, full, inv.gate_held, inv.gate_fits)),
)
  where
    inv : IsConsistent sem limit s
    inv = Reach-IsConsistent sem limit r

    sum :
        total (weight limit) s.threads
        ≡ total (weight limit) xs + weight limit t + total (weight limit) ys
    sum = total-threads (weight limit) s.threads xs ys t e

    full : weight limit t ≡ limit
    full = mutating_weight limit positive t m
