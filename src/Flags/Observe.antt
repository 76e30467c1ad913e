-- ===== src/Flags/Observe.antt =====
-- internal/transport/imapclient/flags.go: what the lines of the server say of the flags of one message.
-- A line is what its parser makes of it.
use mail_cli.Common.{ℕ, ◌-◌, ◌≡◌, refl, Bool, true, false, not, ◌&&◌, ltb, ◌==◌}
use mail_cli.Common.{
  Option, none, some, List, [], ◌∷◌, Bytes, if◌then◌else◌, arith, inl, inr, ◌⊎◌, Bool-cases,
}

pub data Line : Type 0 where
  fetch_line : (sequence : ℕ) → (uid : Option ℕ) → (flags : Option (List Bytes)) → Line
  expunge_line : (sequence : ℕ) → Line
  permission_line : List Bytes → Line
  other_line : Line
  bad_line : Line

pub record FlagObservation : Type 0 where
  pub sequence : ℕ
  pub flags : List Bytes
  pub seen_uid : Bool
  pub observed : Bool
  pub missing : Bool

abbrev pub no_observation : FlagObservation
no_observation = record {
  sequence = 0;
  flags = [];
  seen_uid = false;
  observed = false;
  missing = false;
}

abbrev pub is_uid : ℕ → Option ℕ → Bool
is_uid uid none = false
is_uid uid (some u) = u == uid

abbrev is_present : {A : Type 0} → Option A → Bool
is_present none = false
is_present (some a) = true

unfoldable pub noted : Option (List Bytes) → ℕ → FlagObservation → FlagObservation
noted none sequence o = record o { sequence = sequence; seen_uid = true }
noted (some flags) sequence o = record o {
  sequence = sequence;
  seen_uid = true;
  flags = flags;
  observed = true;
}

unfoldable pub consume_target : FlagObservation → ℕ → Option (List Bytes) → Option FlagObservation
unfolding noted
consume_target o sequence flags =
    if o.missing
    then none
    else if o.seen_uid && not (sequence == o.sequence)
    then none
    else some (noted flags sequence o)

unfoldable pub consume_other :
    FlagObservation → ℕ → Option ℕ → Option (List Bytes) → Option FlagObservation
consume_other o sequence uid flags =
    if is_present uid && sequence == o.sequence && not o.missing
    then none
    else if sequence == o.sequence && is_present flags
    then some (record o { observed = false })
    else some o

unfoldable pub consume_expunge : FlagObservation → ℕ → FlagObservation
consume_expunge o sequence =
    if sequence == o.sequence
    then record o { missing = true; observed = false }
    else if ltb sequence o.sequence
    then record o { sequence = o.sequence - 1 }
    else o

-- `none` is an error.
unfoldable pub consume : ℕ → Line → FlagObservation → Option FlagObservation
unfolding consume_target consume_other consume_expunge
consume uid (fetch_line sequence u flags) o =
    if is_uid uid u then consume_target o sequence flags else consume_other o sequence u flags
consume uid (expunge_line sequence) o = some (consume_expunge o sequence)
consume uid (permission_line fs) o = some o
consume uid other_line o = some o
consume uid bad_line o = none

unfoldable pub consume_all : ℕ → List Line → FlagObservation → Option FlagObservation
unfolding consume
consume_all uid [] o = some o
consume_all uid (l ∷ ls) o = elim (consume uid l o) [ none ↦ none | some p ↦ consume_all uid ls p ]

-- Some line is a FETCH of the message with these flags.
unfoldable pub Reported : ℕ → List Bytes → List Line → Type 0
Reported uid flags [] = ⊥
Reported uid flags (l ∷ ls) =
    ((sequence : ℕ) × (l ≡ fetch_line sequence (some uid) (some flags))) ⊎ Reported uid flags ls

-- What one line does to an observation that is there afterwards.
abbrev pub Kept : ℕ → Line → FlagObservation → FlagObservation → Type 0
Kept uid l p q =
    ((sequence : ℕ) × (l ≡ fetch_line sequence (some uid) (some q.flags)))
    ⊎ ((p.observed ≡ true) × (q.flags ≡ p.flags))

target-Kept :
    (uid sequence : ℕ) (flags : Option (List Bytes)) (p q : FlagObservation)
    → consume_target p sequence flags ≡ some q
    → q.observed ≡ true
    → Kept uid (fetch_line sequence (some uid) flags) p q
unfolding consume_target noted
target-Kept uid sequence none p q h o = inr (ground arith)
target-Kept uid sequence (some flags) p q h o =
    let e : q.flags ≡ flags = ground arith in inl (sequence, rw e refl)

other-Kept :
    (sequence : ℕ) (u : Option ℕ) (flags : Option (List Bytes)) (p q : FlagObservation)
    → consume_other p sequence u flags ≡ some q
    → q.observed ≡ true
    → (p.observed ≡ true) × (q.flags ≡ p.flags)
unfolding consume_other
other-Kept sequence u flags p q h o = ground arith

expunge_kept :
    (p : FlagObservation) (sequence : ℕ)
    → (consume_expunge p sequence).observed ≡ true
    → (p.observed ≡ true) × ((consume_expunge p sequence).flags ≡ p.flags)
unfolding consume_expunge
expunge_kept p sequence o = ground arith

pub consume-Kept :
    (uid : ℕ) (l : Line) (p q : FlagObservation)
    → consume uid l p ≡ some q
    → q.observed ≡ true
    → Kept uid l p q
unfolding consume
consume-Kept uid (fetch_line sequence none flags) p q h o =
    inr (other-Kept sequence none flags p q h o)
consume-Kept uid (fetch_line sequence (some u) flags) p q h o = elim (Bool-cases (u == uid)) [
  | inl e ↦
      let same : u ≡ uid = ground arith in
      rw same (target-Kept uid sequence flags p q (rw e at h) o)
  | inr e ↦ inr (other-Kept sequence (some u) flags p q (rw e at h) o)
]
consume-Kept uid (expunge_line sequence) p q h o = inr (ground (arith, expunge_kept p sequence))
consume-Kept uid (permission_line fs) p q h o = inr (ground arith)
consume-Kept uid other_line p q h o = inr (ground arith)
consume-Kept uid bad_line p q h o = cc
