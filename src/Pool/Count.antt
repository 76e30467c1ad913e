-- ===== src/Pool/Count.antt =====
-- What the loops of internal/transport/imapclient/pool.go do to the number of sessions of a kind. A
-- kind is a number for each session, summed over the list.
use mail_cli.Common.{ℕ, suc, ◌+◌, ◌≤◌, ◌≡◌, refl, ap, Bool, true, false, not, ◌&&◌}
use mail_cli.Common.{Option, none, some, List, [], ◌∷◌, arith, String}
use mail_cli.Common.{length, total, total-append, bit, ◌==◌, if◌then◌else◌, Bool-cases}
use mail_cli.Common.{inl, inr}
use mail_cli.Pool.{
  PooledSession, sweep, is_reusable, set_in_use, take_idle, evict_idle, remove_pooled_session,
  unuse, invalidate_all, after, touch,
}

-- The sessions that are the pointer `id`, and those that are it and in use.
abbrev pub present : ℕ → PooledSession → ℕ
present id p = bit (p.id == id)

abbrev pub used : ℕ → PooledSession → ℕ
used id p = bit (p.in_use && p.id == id)

pub used-le-present :
    (id : ℕ) (ps : List PooledSession) → total (used id) ps ≤ total (present id) ps
used-le-present id [] = omega arith
used-le-present id (p ∷ ps) = ground (arith, used-le-present id ps)

module _ (f : PooledSession → ℕ) (keep : PooledSession → Bool) where
  -- The removal loop loses no session and makes none.
  pub total-sweep :
      (ps : List PooledSession) → total f (sweep keep ps).0 + total f (sweep keep ps).1 ≡ total f ps
  unfolding sweep
  total-sweep [] = omega arith
  total-sweep (p ∷ ps) = ground (arith, total-sweep ps, total-append f (sweep keep ps).1 (p ∷ []))

  -- What counts for nothing when it is not kept is not lost.
  pub total-sweep_kept :
      ((p : PooledSession) → keep p ≡ false → f p ≡ 0)
      → (ps : List PooledSession) → total f (sweep keep ps).0 ≡ total f ps
  unfolding sweep
  total-sweep_kept h [] = refl
  total-sweep_kept h (p ∷ ps) = ground (arith, total-sweep_kept h ps, h p)

pub length-sweep :
    (keep : PooledSession → Bool) (ps : List PooledSession) → length (sweep keep ps).0 ≤ length ps
unfolding sweep
length-sweep keep [] = omega arith
length-sweep keep (p ∷ ps) = ground (arith, length-sweep keep ps)

-- A session that is reused was idle and of this generation; only its own use changes.
pub record Taken (generation : ℕ) (ps : List PooledSession) (p : PooledSession)
    (qs : List PooledSession) : Type 0 where
  pub length_eq : length qs ≡ length ps
  pub present_eq : (id : ℕ) → total (present id) qs ≡ total (present id) ps
  pub used_eq : (id : ℕ) → total (used id) qs ≡ total (used id) ps + present id p
  pub reusable : is_reusable generation p ≡ true

-- Two results of a search are the same.
abbrev pub Found : PooledSession → List PooledSession → PooledSession → List PooledSession → Type 0
Found x xs p ps =
    ◌≡◌ {A = Option (PooledSession × List PooledSession)} (some (x, xs)) (some (p, ps))

pub after-eq-some :
    (x p : PooledSession) (o : Option (PooledSession × List PooledSession))
    (qs : List PooledSession)
    → after x o ≡ some (p, qs)
    → (rest : List PooledSession) × (o ≡ some (p, rest)) × (qs ≡ x ∷ rest)
after-eq-some x p none qs h = cc
after-eq-some x p (some (q, rest)) qs h = (rest, ground arith, ground arith)

Taken-first :
    (generation : ℕ) (x : PooledSession) (ps : List PooledSession)
    → x.in_use ≡ false
    → is_reusable generation x ≡ true
    → Taken generation (x ∷ ps) (set_in_use true x) (set_in_use true x ∷ ps)
unfolding is_reusable
Taken-first generation x ps idle ok = record {
  length_eq = refl;
  present_eq = λ id. refl;
  used_eq = λ id. ground arith;
  reusable = ok;
}

Taken-after :
    (generation : ℕ) (x p : PooledSession) (ps qs : List PooledSession)
    → Taken generation ps p qs
    → Taken generation (x ∷ ps) p (x ∷ qs)
Taken-after generation x p ps qs t = record {
  length_eq = omega (arith, t.length_eq);
  present_eq = λ id. omega (arith, t.present_eq id);
  used_eq = λ id. omega (arith, t.used_eq id);
  reusable = t.reusable;
}

pub take_idle-Taken :
    (generation : ℕ) (ps : List PooledSession) (p : PooledSession) (qs : List PooledSession)
    → take_idle generation ps ≡ some (p, qs)
    → Taken generation ps p qs
unfolding take_idle
take_idle-Taken generation [] p qs h = cc
take_idle-Taken generation (x ∷ ps) p qs h =
    elim (Bool-cases (not x.in_use && is_reusable generation x)) [
      | inl e ↦
          let same : Found (set_in_use true x) (set_in_use true x ∷ ps) p qs = rw e at h in
          let ep : p ≡ set_in_use true x = cc in
          let eq : qs ≡ set_in_use true x ∷ ps = cc in
          rw (ep, eq) (Taken-first generation x ps (ground arith) (ground arith))
      | inr e ↦
          let (rest, found, eq) = after-eq-some x p (take_idle generation ps) qs (rw e at h) in
          rw eq (Taken-after generation x p ps rest (take_idle-Taken generation ps p rest found))
    ]

-- A session that is evicted was idle, and nothing else is lost.
pub evict_idle-total :
    (f : PooledSession → ℕ) (ps : List PooledSession) (p : PooledSession) (qs : List PooledSession)
    → evict_idle ps ≡ some (p, qs)
    → (p.in_use ≡ false) × (total f qs + f p ≡ total f ps)
unfolding evict_idle
evict_idle-total f [] p qs h = cc
evict_idle-total f (x ∷ ps) p qs h = elim (Bool-cases (not x.in_use)) [
  | inl e ↦
      let same : Found x ps p qs = rw e at h in
      let ep : p ≡ x = cc in let eq : qs ≡ ps = cc in rw (ep, eq) (ground arith, omega arith)
  | inr e ↦
      let (rest, found, eq) = after-eq-some x p (evict_idle ps) qs (rw e at h) in
      let (idle, sum) = evict_idle-total f ps p rest found in (idle, rw eq (omega (arith, sum)))
]

pub evict_idle-length :
    (ps : List PooledSession) (p : PooledSession) (qs : List PooledSession)
    → evict_idle ps ≡ some (p, qs)
    → length qs + 1 ≡ length ps
unfolding evict_idle
evict_idle-length [] p qs h = cc
evict_idle-length (x ∷ ps) p qs h = elim (Bool-cases (not x.in_use)) [
  | inl e ↦ let same : Found x ps p qs = rw e at h in let eq : qs ≡ ps = cc in rw eq (omega arith)
  | inr e ↦
      let (rest, found, eq) = after-eq-some x p (evict_idle ps) qs (rw e at h) in
      rw eq (omega (arith, evict_idle-length ps p rest found))
]

module _ (target : ℕ) where
  pub length-unuse : (ps : List PooledSession) → length (unuse target ps) ≡ length ps
  unfolding unuse
  length-unuse [] = refl
  length-unuse (p ∷ ps) = ap suc (length-unuse ps)

  pub present-unuse :
      (id : ℕ) (ps : List PooledSession)
      → total (present id) (unuse target ps) ≡ total (present id) ps
  unfolding unuse
  present-unuse id [] = refl
  present-unuse id (p ∷ ps) = ground (arith, present-unuse id ps)

  pub used-unuse :
      (id : ℕ) (ps : List PooledSession)
      → total (used id) (unuse target ps) ≡ (if target == id then 0 else total (used id) ps)
  unfolding unuse
  used-unuse id [] = ground arith
  used-unuse id (p ∷ ps) = ground (arith, used-unuse id ps)

  pub length-remove :
      (ps : List PooledSession) → length (remove_pooled_session target ps) ≤ length ps
  unfolding remove_pooled_session
  length-remove [] = omega arith
  length-remove (p ∷ ps) = ground (arith, length-remove ps)

  pub total-remove :
      (f : PooledSession → ℕ) (ps : List PooledSession)
      → total f (remove_pooled_session target ps) ≤ total f ps
  unfolding remove_pooled_session
  total-remove f [] = omega arith
  total-remove f (p ∷ ps) = ground (arith, total-remove f ps)

  -- The session that leaves was not in use any more.
  pub used-remove :
      (id : ℕ) (ps : List PooledSession)
      → total (used id) (remove_pooled_session target (unuse target ps))
        ≡ total (used id) (unuse target ps)
  unfolding remove_pooled_session unuse
  used-remove id [] = refl
  used-remove id (p ∷ ps) = ground (arith, used-remove id ps)

  module _ (dirty : Bool) (selected : String) (uidvalidity : ℕ) where
    pub length-touch :
        (ps : List PooledSession) → length (touch target dirty selected uidvalidity ps) ≡ length ps
    unfolding touch
    length-touch [] = refl
    length-touch (p ∷ ps) = ap suc (length-touch ps)

    pub total-touch :
        (id : ℕ) (ps : List PooledSession)
        → (total (present id) (touch target dirty selected uidvalidity ps) ≡ total (present id) ps)
          × (total (used id) (touch target dirty selected uidvalidity ps) ≡ total (used id) ps)
    unfolding touch
    total-touch id [] = (refl, refl)
    total-touch id (p ∷ ps) = ground (arith, total-touch id ps)

pub length-invalidate_all : (ps : List PooledSession) → length (invalidate_all ps) ≡ length ps
unfolding invalidate_all
length-invalidate_all [] = refl
length-invalidate_all (p ∷ ps) = ap suc (length-invalidate_all ps)

pub total-invalidate_all :
    (id : ℕ) (ps : List PooledSession)
    → (total (present id) (invalidate_all ps) ≡ total (present id) ps)
      × (total (used id) (invalidate_all ps) ≡ total (used id) ps)
unfolding invalidate_all
total-invalidate_all id [] = (refl, refl)
total-invalidate_all id (p ∷ ps) = ground (arith, total-invalidate_all id ps)
