-- ===== src/Pool/Threads.antt =====
-- internal/transport/imapclient/pool.go: `acquireOperation`, `acquirePooled` and `acquireDedicated` as
-- goroutines on one account's pool. A thread is the point of the code at which a goroutine stands
-- between two locked sections. The state gate is golang.org/x/sync/semaphore, a parameter with the
-- behaviour that its documentation promises. `Close`, the lifecycle lock and the cross-process
-- mutation lock are left out: a thread that one of them stops is `refuse`d.
use mail_cli.Common.{ℕ, suc, ◌+◌, ◌≤◌, ◌≡◌, String, Bool, Option, none, some}
use mail_cli.Common.{List, [], ◌∷◌, ◌++◌}
use mathlib.Core.Option
use mail_cli.Pool.{
  PooledSession, OperationClass, mutation, AccountPool, gate_weight, pool_locked, borrow_round,
  swept, reused, dial, wait, dial_done, dial_failed, release_session, touch, dedicated_round,
  granted, evicted, blocked, dedicated_done, invalidate_credentials, next_credential_generation,
  operation_start, operation_done,
}

-- A weighted semaphore: `acquire` is a call that returned, and `none` one that would block.
pub record WeightedSemaphore : Type 1 where
  pub Gate : Type 0
  pub new_weighted : ℕ → Gate
  pub acquire : Gate → ℕ → Option Gate
  pub release : Gate → ℕ → Gate
  pub size : Gate → ℕ
  pub held : Gate → ℕ
  pub new_held : (n : ℕ) → held (new_weighted n) ≡ 0
  pub new_size : (n : ℕ) → size (new_weighted n) ≡ n
  pub acquire_held : (g : Gate) (w : ℕ) (g' : Gate) → acquire g w ≡ some g' → held g' ≡ held g + w
  pub acquire_size : (g : Gate) (w : ℕ) (g' : Gate) → acquire g w ≡ some g' → size g' ≡ size g
  pub acquire_fits : (g : Gate) (w : ℕ) (g' : Gate) → acquire g w ≡ some g' → held g' ≤ size g
  pub release_held : (g : Gate) (w : ℕ) → w ≤ held g → held (release g w) + w ≡ held g
  pub release_size : (g : Gate) (w : ℕ) → size (release g w) ≡ size g

-- `departing` has given the gate back and has still to count its operation out.
pub data Thread : Type 0 where
  acquiring : OperationClass → Thread
  borrowing : OperationClass → Thread
  dialing : OperationClass → ℕ → Thread
  holding : OperationClass → ℕ → Thread
  dedicating : Thread
  dedicated_holding : Thread
  leaving : OperationClass → Thread
  departing : Thread

abbrev pub resume : Option Thread → List Thread → List Thread
resume none ts = ts
resume (some t) ts = t ∷ ts

module _ (sem : WeightedSemaphore) (limit : ℕ) where
  open sem use {Gate, new_weighted, acquire, release}

  -- The account's entry of `pools`, its credential generation, the goroutines that work on it, and
  -- the next pointer that an allocation returns.
  pub record System : Type 0 where
    pub pool : Option (AccountPool Gate)
    pub generation : ℕ
    pub threads : List Thread
    pub next_id : ℕ

  abbrev pub current : System → AccountPool Gate
  current s = pool_locked (new_weighted limit) s.pool

  -- One section run by a thread: where it stood, where it stands, the pool and the next pointer.
  pub data Section (s : System)
      : Thread → Option Thread → Option (AccountPool Gate) → ℕ → Type 0 where
    admit :
        (c : OperationClass) (g : Gate)
        → acquire (current s).state_gate (gate_weight limit c) ≡ some g
        → Section s
            (acquiring c)
            (some (borrowing c))
            (some (record (current s) { state_gate = g }))
            s.next_id
    admit_dedicated :
        (g : Gate)
        → acquire (current s).state_gate (gate_weight limit mutation) ≡ some g
        → Section s
            (acquiring mutation)
            (some dedicating)
            (some (record (current s) { state_gate = g }))
            s.next_id
    refuse : (c : OperationClass) → Section s (acquiring c) (some departing) s.pool s.next_id
    sweep_stale :
        (c : OperationClass) (stale : List PooledSession) (pool : AccountPool Gate)
        → borrow_round limit s.generation (current s) ≡ (swept stale, pool)
        → Section s (borrowing c) (some (borrowing c)) (some pool) s.next_id
    reuse :
        (c : OperationClass) (p : PooledSession) (pool : AccountPool Gate)
        → borrow_round limit s.generation (current s) ≡ (reused p, pool)
        → Section s (borrowing c) (some (holding c p.id)) (some pool) s.next_id
    start_dial :
        (c : OperationClass) (pool : AccountPool Gate)
        → borrow_round limit s.generation (current s) ≡ (dial, pool)
        → Section s (borrowing c) (some (dialing c s.generation)) (some pool) s.next_id
    borrow_wait :
        (c : OperationClass) (n : ℕ) (pool : AccountPool Gate)
        → borrow_round limit s.generation (current s) ≡ (wait n, pool)
        → Section s (borrowing c) (some (borrowing c)) (some pool) s.next_id
    borrow_canceled :
        (c : OperationClass) → Section s (borrowing c) (some (leaving c)) s.pool s.next_id
    connected :
        (c : OperationClass) (generation : ℕ)
        → Section s
            (dialing c generation)
            (some (holding c s.next_id))
            (some (dial_done s.next_id generation (current s)))
            (suc s.next_id)
    connect_failed :
        (c : OperationClass) (generation : ℕ)
        → Section s
            (dialing c generation)
            (some (leaving c))
            (some (dial_failed (current s)))
            s.next_id
    use_session :
        (c : OperationClass) (id : ℕ) (dirty : Bool) (selected : String) (uidvalidity : ℕ)
        → Section s
            (holding c id)
            (some (holding c id))
            (some (record (current s) {
              sessions = touch id dirty selected uidvalidity (current s).sessions;
            }))
            s.next_id
    put_back :
        (c : OperationClass) (id : ℕ) (canceled : Bool)
        → Section s
            (holding c id)
            (some (leaving c))
            (some (release_session canceled s.generation id (current s)))
            s.next_id
    grant :
        (pool : AccountPool Gate)
        → dedicated_round limit (current s) ≡ (granted, pool)
        → Section s dedicating (some dedicated_holding) (some pool) s.next_id
    evict :
        (p : PooledSession) (pool : AccountPool Gate)
        → dedicated_round limit (current s) ≡ (evicted p, pool)
        → Section s dedicating (some dedicating) (some pool) s.next_id
    dedicated_wait :
        (n : ℕ) (pool : AccountPool Gate)
        → dedicated_round limit (current s) ≡ (blocked n, pool)
        → Section s dedicating (some dedicating) (some pool) s.next_id
    dedicated_canceled : Section s dedicating (some (leaving mutation)) s.pool s.next_id
    dedicated_release :
        Section s dedicated_holding
          (some (leaving mutation))
          (some (dedicated_done (current s)))
          s.next_id
    give_gate_back :
        (c : OperationClass)
        → Section s
            (leaving c)
            (some departing)
            (some (record (current s) {
              state_gate = release (current s).state_gate (gate_weight limit c);
            }))
            s.next_id
    count_out : Section s departing none (operation_done (current s)) s.next_id

  -- A goroutine arrives, one of them runs a section, or the credentials are invalidated.
  pub data Step (s : System) : System → Type 0 where
    enter :
        (c : OperationClass)
        → Step s (record s {
          pool = some (operation_start (current s));
          threads = acquiring c ∷ s.threads;
        })
    run :
        (xs ys : List Thread) (t : Thread) (t' : Option Thread) (pool : Option (AccountPool Gate))
        (id : ℕ)
        → s.threads ≡ xs ++ (t ∷ ys)
        → Section s t t' pool id
        → Step s (record s { pool = pool; threads = xs ++ resume t' ys; next_id = id })
    invalidate : Step s (record s {
      pool = Option.bind s.pool (λ p. (invalidate_credentials p).1);
      generation = next_credential_generation s.generation;
    })

  abbrev pub initial : System
  initial = record { pool = none; generation = 0; threads = []; next_id = 0 }

  pub data Reach : System → Type 0 where
    start : Reach initial
    next : {s t : System} → Reach s → Step s t → Reach t
