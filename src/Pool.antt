-- ===== src/Pool.antt =====
-- internal/transport/imapclient/pool.go: the session pool of one account. Each function below is one
-- section of the code between `c.mu.Lock()` and `c.mu.Unlock()`; Pool/Threads.antt interleaves them.
-- A pointer to a session is the number `id`; a channel `changed` is the number of times that it was
-- replaced, so that a waiter wakes when the number differs.
pub mod Threads
pub mod Count
pub mod Sections
pub mod Ends
pub mod Invariant
pub mod Safety
pub mod Reuse
pub mod Release
mod Examples
use mail_cli.Common.{ℕ, zero, suc, ◌+◌, ◌-◌, ◌<◌, ◌%◌, ◌^◌, String, Bool, true, false, not}
use mail_cli.Common.{◌&&◌, ◌||◌, Option, none, some, List, [], ◌∷◌, ◌++◌, length}
use mail_cli.Common.{ltb, ◌==◌, if◌then◌else◌}

abbrev pub default_max_connections : ℕ
default_max_connections = 2

abbrev pub maximum_connections : ℕ
maximum_connections = 8

-- `none` is the typed error `invalid_imap_value`; a negative limit is below 1 as 0 is, so the
-- configured limit is a natural number.
pub normalize_connection_limit : ℕ → Option ℕ
normalize_connection_limit limit =
    if limit == 0
    then some default_max_connections
    else if ltb limit 1 || ltb maximum_connections limit
    then none
    else some limit

-- The limit that a client stores, where 0 stands for the default.
pub connection_limit : ℕ → ℕ
connection_limit max_connections =
    if max_connections == 0 then default_max_connections else max_connections

-- A uint64 counter that skips 0 when it wraps.
pub next_credential_generation : ℕ → ℕ
next_credential_generation generation =
    let next = (generation + 1) % 2 ^ 64 in if next == 0 then 1 else next

-- `dirty` is the field of the wrapped session that marks an unusable connection.
pub record PooledSession : Type 0 where
  pub id : ℕ
  pub dirty : Bool
  pub credential_generation : ℕ
  pub selected : String
  pub uidvalidity : ℕ
  pub in_use : Bool
  pub invalidated : Bool

pub data OperationClass : Type 0 where
  independent_read selected_state_read mutation : OperationClass

-- The weight that `acquireOperation` takes of the state gate.
pub gate_weight : ℕ → OperationClass → ℕ
gate_weight limit independent_read = 1
gate_weight limit selected_state_read = 1
gate_weight limit mutation = limit

-- `G` is the type of the weighted semaphore, which is not part of the repository.
pub record AccountPool (G : Type 0) : Type 0 where
  pub sessions : List PooledSession
  pub connecting : ℕ
  pub dedicated : ℕ
  pub operations : ℕ
  pub changed : ℕ
  pub state_gate : G

-- The removal loop from the last index down: what stays, in order, and what goes, last index first.
pub sweep : (PooledSession → Bool) → List PooledSession → List PooledSession × List PooledSession
sweep keep [] = ([], [])
sweep keep (p ∷ ps) =
    let (kept, stale) = sweep keep ps in
    if keep p then (p ∷ kept, stale) else (kept, stale ++ (p ∷ []))

pub is_reusable : ℕ → PooledSession → Bool
is_reusable generation p = not p.invalidated && p.credential_generation == generation

-- The test that lets `borrowSession` leave a session in the pool.
pub stays_on_borrow : ℕ → PooledSession → Bool
stays_on_borrow generation p = p.in_use || is_reusable generation p

-- The session that a dial adds, already in use by the goroutine that dialled.
abbrev pub dialed_session : ℕ → ℕ → PooledSession
dialed_session id generation = record {
  id = id;
  dirty = false;
  credential_generation = generation;
  selected = "";
  uidvalidity = 0;
  in_use = true;
  invalidated = false;
}

abbrev pub set_in_use : Bool → PooledSession → PooledSession
set_in_use b p = record p { in_use = b }

-- What a search of the list finds behind `p`.
abbrev pub after :
    PooledSession
    → Option (PooledSession × List PooledSession)
    → Option (PooledSession × List PooledSession)
after p none = none
after p (some (q, qs)) = some (q, p ∷ qs)

-- The first idle session of the current generation, and the sessions with it in use.
pub take_idle : ℕ → List PooledSession → Option (PooledSession × List PooledSession)
take_idle generation [] = none
take_idle generation (p ∷ ps) =
    let rest = take_idle generation ps in
    if not p.in_use && is_reusable generation p
    then some (set_in_use true p, set_in_use true p ∷ ps)
    else after p rest

-- The first idle session, whatever its generation, and the sessions without it.
pub evict_idle : List PooledSession → Option (PooledSession × List PooledSession)
evict_idle [] = none
evict_idle (p ∷ ps) =
    let rest = evict_idle ps in if not p.in_use then some (p, ps) else after p rest

-- `removePooledSessionLocked`
pub remove_pooled_session : ℕ → List PooledSession → List PooledSession
remove_pooled_session target [] = []
remove_pooled_session target (p ∷ ps) =
    if p.id == target then ps else p ∷ remove_pooled_session target ps

-- `pooled.inUse = false` through the borrower's pointer.
pub unuse : ℕ → List PooledSession → List PooledSession
unuse target [] = []
unuse target (p ∷ ps) = (if p.id == target then set_in_use false p else p) ∷ unuse target ps

pub find_session : ℕ → List PooledSession → Option PooledSession
find_session target [] = none
find_session target (p ∷ ps) = if p.id == target then some p else find_session target ps

-- What a borrower does to its session: marks it dirty, selects another mailbox.
pub touch : ℕ → Bool → String → ℕ → List PooledSession → List PooledSession
touch id dirty selected uidvalidity [] = []
touch id dirty selected uidvalidity (p ∷ ps) =
    (if p.id == id
      then record p { dirty = dirty; selected = selected; uidvalidity = uidvalidity }
      else p)
    ∷ touch id dirty selected uidvalidity ps

pub invalidate_all : List PooledSession → List PooledSession
invalidate_all [] = []
invalidate_all (p ∷ ps) = record p { invalidated = true } ∷ invalidate_all ps

-- What one round of the loop of `borrowSession` does after it unlocks.
pub data BorrowRound : Type 0 where
  swept : List PooledSession → BorrowRound
  reused : PooledSession → BorrowRound
  dial : BorrowRound
  wait : ℕ → BorrowRound

-- `releaseSession` by the borrower of `id`: `canceled` is `ctx.Err() != nil`, `generation` is the
-- account's generation now.
pub is_stale : Bool → ℕ → PooledSession → Bool
is_stale canceled generation p =
    canceled || (p.dirty || (p.invalidated || not (generation == p.credential_generation)))

pub data DedicatedRound : Type 0 where
  granted : DedicatedRound
  evicted : PooledSession → DedicatedRound
  blocked : ℕ → DedicatedRound

module _ {G : Type 0} where
  abbrev pub new_pool : G → AccountPool G
  new_pool gate = record {
    sessions = [];
    connecting = 0;
    dedicated = 0;
    operations = 0;
    changed = 0;
    state_gate = gate;
  }

  -- `poolLocked`: the account's entry of the map, made when it is missing.
  abbrev pub pool_locked : G → Option (AccountPool G) → AccountPool G
  pool_locked gate none = new_pool gate
  pool_locked gate (some pool) = pool

  pub signal_pool : AccountPool G → AccountPool G
  signal_pool pool = record pool { changed = pool.changed + 1 }

  pub remove_empty_pool : AccountPool G → Option (AccountPool G)
  remove_empty_pool pool =
      if pool.operations == 0
        && (length pool.sessions == 0 && (pool.connecting == 0 && pool.dedicated == 0))
      then none
      else some pool

  pub in_flight : AccountPool G → ℕ
  in_flight pool = length pool.sessions + pool.connecting + pool.dedicated

  -- With nothing stale: reuse, dial while there is room, or wait for a signal.
  pub reuse_or_dial : ℕ → ℕ → AccountPool G → BorrowRound × AccountPool G
  unfolding in_flight
  reuse_or_dial limit generation pool = elim (take_idle generation pool.sessions) [
    | some (p, ps) ↦ (reused p, record pool { sessions = ps })
    | none ↦
        if ltb (in_flight pool) limit
        then (dial, record pool { connecting = pool.connecting + 1 })
        else (wait pool.changed, pool)
  ]

  pub borrow_round : ℕ → ℕ → AccountPool G → BorrowRound × AccountPool G
  unfolding reuse_or_dial signal_pool
  borrow_round limit generation pool =
      let (kept, stale) = sweep (stays_on_borrow generation) pool.sessions in
      elim stale [
        | [] ↦ reuse_or_dial limit generation pool
        | p ∷ ps ↦ (swept (p ∷ ps), signal_pool (record pool { sessions = kept }))
      ]

  -- The two ends of `c.connect`: the dialled session has the generation read before dialling.
  pub dial_done : ℕ → ℕ → AccountPool G → AccountPool G
  unfolding signal_pool
  dial_done id generation pool = signal_pool (record pool {
    connecting = pool.connecting - 1;
    sessions = pool.sessions ++ (dialed_session id generation ∷ []);
  })

  pub dial_failed : AccountPool G → AccountPool G
  unfolding signal_pool
  dial_failed pool = signal_pool (record pool { connecting = pool.connecting - 1 })

  pub release_session : Bool → ℕ → ℕ → AccountPool G → AccountPool G
  unfolding signal_pool is_stale
  release_session canceled generation id pool =
      let idle = unuse id pool.sessions in
      elim (find_session id pool.sessions) [
        | none ↦ signal_pool (record pool { sessions = idle })
        | some p ↦ signal_pool (record pool {
          sessions = if is_stale canceled generation p then remove_pooled_session id idle else idle;
        })
      ]

  -- One round of the loop of `acquireDedicated`.
  pub dedicated_round : ℕ → AccountPool G → DedicatedRound × AccountPool G
  unfolding in_flight signal_pool
  dedicated_round limit pool =
      if ltb (in_flight pool) limit
      then (granted, signal_pool (record pool { dedicated = pool.dedicated + 1 }))
      else elim (evict_idle pool.sessions) [
        | some (p, ps) ↦ (evicted p, signal_pool (record pool { sessions = ps }))
        | none ↦ (blocked pool.changed, pool)
      ]

  pub dedicated_done : AccountPool G → AccountPool G
  unfolding signal_pool
  dedicated_done pool = signal_pool (record pool { dedicated = pool.dedicated - 1 })

  -- `InvalidateCredentials` on the account's pool: every session is marked, the idle ones leave.
  pub invalidate_credentials : AccountPool G → List PooledSession × Option (AccountPool G)
  unfolding signal_pool remove_empty_pool invalidate_all
  invalidate_credentials pool =
      let (kept, stale) = sweep (λ p. p.in_use) (invalidate_all pool.sessions) in
      (stale, remove_empty_pool (signal_pool (record pool { sessions = kept })))

  -- `releaseOperationState` after the gate is given back.
  pub operation_done : AccountPool G → Option (AccountPool G)
  unfolding remove_empty_pool
  operation_done pool = remove_empty_pool (record pool { operations = pool.operations - 1 })

  -- The section of `acquireOperation` that counts the operation in.
  pub operation_start : AccountPool G → AccountPool G
  operation_start pool = record pool { operations = pool.operations + 1 }
