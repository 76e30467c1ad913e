-- ===== src/Pool/Release.antt =====
-- What `releaseSession` of internal/transport/imapclient/pool.go leaves in the pool.
use mail_cli.Common.{◌≢◌, ◌⊎◌, true}
use mail_cli.Common.{ℕ, ◌≤◌, ◌≡◌, refl, Bool, false, Option, none, some, inl, inr}
use mail_cli.Common.{List, [], ◌∷◌, arith, total, ◌==◌, Bool-cases, if◌then◌else◌, ==_iff}
use mail_cli.Pool.{
  PooledSession, AccountPool, release_session, is_stale, find_session, unuse, remove_pooled_session,
  set_in_use, signal_pool,
}
use mail_cli.Pool.Count.{present, present-unuse}

find-absent :
    (id : ℕ) (ps : List PooledSession) → total (present id) ps ≡ 0 → find_session id ps ≡ none
unfolding find_session
find-absent id [] h = refl
find-absent id (p ∷ ps) h = ground (arith, find-absent id ps)

abbrev idle : Option PooledSession → Option PooledSession
idle none = none
idle (some p) = some (set_in_use false p)

find-unuse :
    (id j : ℕ) (ps : List PooledSession)
    → find_session j (unuse id ps)
      ≡ (if id == j then idle (find_session j ps) else find_session j ps)
unfolding find_session unuse
find-unuse id j [] = ground arith
find-unuse id j (p ∷ ps) = ground (arith, find-unuse id j ps, ==_iff p.id id, ==_iff p.id j)

find-remove :
    (id j : ℕ) (ps : List PooledSession)
    → total (present id) ps ≤ 1
    → find_session j (remove_pooled_session id ps) ≡ (if id == j then none else find_session j ps)
unfolding find_session remove_pooled_session
find-remove id j [] h = ground arith
find-remove id j (p ∷ ps) h =
    ground (arith, find-remove id j ps, find-absent id ps, ==_iff p.id id, ==_iff p.id j)

-- The session cannot serve another operation.
abbrev pub IsUnusable : Bool → ℕ → PooledSession → Type 0
IsUnusable canceled generation p =
    (canceled ≡ true)
    ⊎ ((p.dirty ≡ true) ⊎ ((p.invalidated ≡ true) ⊎ (p.credential_generation ≢ generation)))

is_stale→IsUnusable :
    (canceled : Bool) (generation : ℕ) (p : PooledSession)
    → is_stale canceled generation p ≡ true
    → IsUnusable canceled generation p
unfolding is_stale
is_stale→IsUnusable canceled generation p h = elim (Bool-cases canceled) [
  | inl c ↦ inl c
  | inr c ↦ inr (elim (Bool-cases p.dirty) [
    | inl d ↦ inl d
    | inr d ↦ inr (elim (Bool-cases p.invalidated) [
      | inl v ↦ inl v
      | inr v ↦ inr (λ e. ground (arith, ==_iff generation p.credential_generation))
    ])
  ])
]

IsUnusable→is_stale :
    (canceled : Bool) (generation : ℕ) (p : PooledSession)
    → IsUnusable canceled generation p
    → is_stale canceled generation p ≡ true
unfolding is_stale
IsUnusable→is_stale canceled generation p (inl c) = ground arith
IsUnusable→is_stale canceled generation p (inr (inl d)) = ground arith
IsUnusable→is_stale canceled generation p (inr (inr (inl v))) = ground arith
IsUnusable→is_stale canceled generation p (inr (inr (inr g))) =
    ground (arith, ==_iff generation p.credential_generation)

released :
    {G : Type 0} (canceled : Bool) (generation id j : ℕ) (pool : AccountPool G) (p : PooledSession)
    → total (present id) pool.sessions ≤ 1
    → find_session id pool.sessions ≡ some p
    → find_session j (release_session canceled generation id pool).sessions ≡ (
        if id == j
        then if is_stale canceled generation p then none else some (set_in_use false p)
        else find_session j pool.sessions)
unfolding release_session signal_pool
released canceled generation id j pool p once found =
    rw (found, release_session)
      (elim (Bool-cases (is_stale canceled generation p)) [
        | inl stale ↦ rw stale (
            ground (
              arith,
              find-remove id j (unuse id pool.sessions),
              find-unuse id j pool.sessions,
              present-unuse id id pool.sessions,
              ==_iff id j,
            ))
        | inr good ↦ rw good (ground (arith, find-unuse id j pool.sessions, found, ==_iff id j))
      ])

-- When the pointer stands once in the pool, releasing its session drops it where its context was
-- canceled, it is dirty or invalidated, or the credentials have changed since it was dialled. Otherwise
-- it stays, idle. No other session of the pool changes.
pub find-release_session :
    {G : Type 0} (canceled : Bool) (generation id : ℕ) (pool : AccountPool G) (p : PooledSession)
    → total (present id) pool.sessions ≤ 1
    → find_session id pool.sessions ≡ some p
    → let after = (release_session canceled generation id pool).sessions in
      (IsUnusable canceled generation p → find_session id after ≡ none)
      × (¬ (IsUnusable canceled generation p) → find_session id after ≡ some (set_in_use false p))
      × ((j : ℕ) → id ≢ j → find_session j after ≡ find_session j pool.sessions)
find-release_session canceled generation id pool p once found =
    let same : (id == id) ≡ true = ground (arith, ==_iff id id) in
    let mine = released canceled generation id id pool p once found in
    (
      λ u. rw (same, IsUnusable→is_stale canceled generation p u) at mine,
      λ n. elim (Bool-cases (is_stale canceled generation p)) [
        | inl stale ↦ absurd (n (is_stale→IsUnusable canceled generation p stale))
        | inr good ↦ rw (same, good) at mine
      ],
      λ j d.
          let other : (id == j) ≡ false = ground (arith, ==_iff id j) in
          rw other at (released canceled generation id j pool p once found),
    )
