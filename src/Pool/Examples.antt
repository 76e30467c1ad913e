-- ===== src/Pool/Examples.antt =====
-- The theorems on internal/transport/imapclient/pool.go at a run of two goroutines: a mutation dials
-- and holds a session while a read waits at the gate.
use mail_cli.Common.{ℕ, ◌+◌, ◌-◌, ◌≤◌, ◌<◌, ◌≡◌, ◌^◌, refl, false, Option, none, some}
use mail_cli.Common.{[], ◌∷◌, arith, length, total, leb, if◌then◌else◌, ◌≢◌}
use mail_cli.Pool.{
  independent_read, mutation, AccountPool, gate_weight, new_pool, borrow_round, sweep, take_idle,
  dial_done, operation_start, release_session, find_session, dialed_session, set_in_use,
  next_credential_generation,
}
use mail_cli.Pool.Threads.{
  WeightedSemaphore, System, current, acquiring, borrowing, dialing, holding, admit, start_dial,
  connected, enter, run, initial, Reach, start, next,
}
use mail_cli.Pool.Sections.{dials, dedicates, holds}
use mail_cli.Pool.Count.{used}
use mail_cli.Pool.Safety.{capacity_kept, session_exclusive, mutation_exclusive, AllOutside}
use mail_cli.Pool.Reuse.{borrow_round-Spec, BorrowRoundSpec, next_credential_generation_fresh}
use mail_cli.Pool.Release.{IsUnusable, find-release_session}

record Count : Type 0 where
  capacity : ℕ
  taken : ℕ

take_weight : Count → ℕ → Option Count
take_weight g w =
    if leb (g.taken + w) g.capacity then some (record g { taken = g.taken + w }) else none

module _ (g : Count) (w : ℕ) (g' : Count) (h : take_weight g w ≡ some g') where
  take_weight_held : g'.taken ≡ g.taken + w
  unfolding take_weight
  take_weight_held = ground arith

  take_weight_size : g'.capacity ≡ g.capacity
  unfolding take_weight
  take_weight_size = ground arith

  take_weight_fits : g'.taken ≤ g.capacity
  unfolding take_weight
  take_weight_fits = ground arith

give_back_held : (g : Count) (w : ℕ) → w ≤ g.taken → g.taken - w + w ≡ g.taken
give_back_held g w h = omega arith

-- A semaphore that counts.
abbrev counting : WeightedSemaphore
counting = record {
  Gate = Count;
  new_weighted = λ n. record { capacity = n; taken = 0 };
  acquire = take_weight;
  release = λ g w. record g { taken = g.taken - w };
  size = λ g. g.capacity;
  held = λ g. g.taken;
  new_held = λ n. refl;
  new_size = λ n. refl;
  acquire_held = take_weight_held;
  acquire_size = take_weight_size;
  acquire_fits = take_weight_fits;
  release_held = give_back_held;
  release_size = λ g w. refl;
}

abbrev Sys : Type 0
Sys = System counting 2

abbrev entered : Sys
entered = record {
  pool = some (operation_start (current counting 2 (initial counting 2)));
  generation = 0;
  threads = acquiring mutation ∷ [];
  next_id = 0;
}

abbrev admitted : Sys
admitted = record entered {
  pool =
      some
        (record (current counting 2 entered) { state_gate = record { capacity = 2; taken = 2 } });
  threads = borrowing mutation ∷ [];
}

abbrev dialling : Sys
dialling = record admitted {
  pool = some (record (current counting 2 admitted) {
    connecting = (current counting 2 admitted).connecting + 1;
  });
  threads = dialing mutation 0 ∷ [];
}

abbrev dialled : Sys
dialled = record dialling {
  pool = some (dial_done 0 0 (current counting 2 dialling));
  threads = holding mutation 0 ∷ [];
  next_id = 1;
}

abbrev joined : Sys
joined = record dialled {
  pool = some (operation_start (current counting 2 dialled));
  threads = acquiring independent_read ∷ holding mutation 0 ∷ [];
}

joined_reached : Reach counting 2 joined
unfolding borrow_round take_weight gate_weight operation_start sweep take_idle
joined_reached =
    let r1 : Reach counting 2 entered = next start (enter mutation) in
    let r2 : Reach counting 2 admitted = next r1 (
      run [] [] (acquiring mutation) _ _ _ refl
        (admit mutation (record { capacity = 2; taken = 2 }) refl)) in
    let r3 : Reach counting 2 dialling =
      next r2 (run [] [] (borrowing mutation) _ _ _ refl (start_dial mutation _ refl)) in
    let r4 : Reach counting 2 dialled =
      next r3 (run [] [] (dialing mutation 0) _ _ _ refl (connected mutation 0)) in
    next r4 (enter independent_read)

capacity_kept_example :
    (length (current counting 2 joined).sessions
        + (current counting 2 joined).connecting
        + (current counting 2 joined).dedicated
      ≤ 2)
    × ((current counting 2 joined).connecting ≡ total dials joined.threads)
    × ((current counting 2 joined).dedicated ≡ total dedicates joined.threads)
    × ((current counting 2 joined).operations ≡ length joined.threads)
capacity_kept_example = capacity_kept counting 2 joined joined_reached

session_exclusive_example :
    (total (holds 0) joined.threads ≤ 1)
    × (total (used 0) (current counting 2 joined).sessions ≡ total (holds 0) joined.threads)
session_exclusive_example = session_exclusive counting 2 joined 0 joined_reached

mutation_exclusive_example : AllOutside (acquiring independent_read ∷ []) × AllOutside []
mutation_exclusive_example =
    mutation_exclusive counting 2 joined (acquiring independent_read ∷ []) [] (holding mutation 0)
      (omega arith) joined_reached refl refl

abbrev one_session : AccountPool ℕ
one_session = record (new_pool 0) { sessions = dialed_session 4 7 ∷ [] }

borrow_round-Spec_example :
    BorrowRoundSpec 2 7 one_session
      (borrow_round 2 7 one_session).0
      (borrow_round 2 7 one_session).1.sessions
borrow_round-Spec_example = borrow_round-Spec 2 7 one_session

next_credential_generation_fresh_example :
    (next_credential_generation (2 ^ 64 - 1) ≢ 2 ^ 64 - 1)
    × (0 < next_credential_generation (2 ^ 64 - 1))
    × (next_credential_generation (2 ^ 64 - 1) < 2 ^ 64)
next_credential_generation_fresh_example =
    next_credential_generation_fresh (2 ^ 64 - 1) (omega arith)

-- The credentials changed while the session was out, so it does not come back.
find-release_session_example :
    let after = (release_session false 8 4 one_session).sessions in
    (IsUnusable false 8 (dialed_session 4 7) → find_session 4 after ≡ none)
    × (¬ (IsUnusable false 8 (dialed_session 4 7))
        → find_session 4 after ≡ some (set_in_use false (dialed_session 4 7)))
    × ((j : ℕ) → 4 ≢ j → find_session j after ≡ find_session j one_session.sessions)
unfolding find_session
find-release_session_example =
    find-release_session false 8 4 one_session (dialed_session 4 7) (omega arith) refl
