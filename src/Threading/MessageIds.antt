-- ===== src/Threading/MessageIds.antt =====
-- internal/mail/message_metadata.go: `scanMessageIDs` and what it calls. The bytes of a header are
-- scanned once to take the comments out, and the Message-IDs are then cut out of what is left.
use mail_cli.Common.{ℕ, zero, suc, ◌-◌, ◌<◌, ◌≡◌, ◌≢◌, Bool, true, false, not, ◌&&◌, ◌||◌}
use mail_cli.Common.{
  Option, none, some, List, [], ◌∷◌, ◌++◌, if◌then◌else◌, length, ◌==◌, ltb, leb, take, drop,
}
use mail_cli.Common.{Bytes, arith, Bool-cases, Option-cases, inl, inr, length-drop}
use mail_cli.Threading.{MailLibrary, is_empty}

pub record Scan : Type 0 where
  pub depth : ℕ
  pub escaped : Bool
  pub identifier : Bool
  pub literal : Bool
  pub valid : Bool

abbrev when : Bool → ℕ → Bytes
when true c = c ∷ []
when false c = []

-- One byte of the first loop: the next state, and the bytes written to `cleaned`.
unfoldable pub scan_byte : Scan → ℕ → Scan × Bytes
scan_byte scan c =
    let top = scan.depth == 0 in
    if scan.literal || (top && (scan.identifier && c == b'['))
    then (record scan { literal = not (c == b']') }, c ∷ [])
    else (let identifier =
          if top && c == b'<' then true else if top && c == b'>' then false else scan.identifier in
        let now = record scan { identifier = identifier } in
        if scan.escaped
        then (record now { escaped = false }, when top c)
        else if c == b'\\' && not top
        then (record now { escaped = true }, [])
        else if c == b'('
        then (record now { depth = suc scan.depth }, when top b' ')
        else if c == b')'
        then (if top
            then (record now { valid = false }, b' ' ∷ [])
            else (record now { depth = scan.depth - 1 }, []))
        else (now, when top c))

unfoldable pub scan_bytes : Scan → Bytes → Scan × Bytes
scan_bytes scan [] = (scan, [])
scan_bytes scan (c ∷ cs) =
    let (next, written) = scan_byte scan c in
    let (last, rest) = scan_bytes next cs in (last, written ++ rest)

-- `strings.IndexByte`.
unfoldable pub index_byte : ℕ → Bytes → Option ℕ
index_byte c [] = none
index_byte c (d ∷ ds) =
    let later = index_byte c ds in
    if d == c then some 0 else elim later [ none ↦ none | some i ↦ some (suc i) ]

-- The loop of `messageIDBoundary` from the byte at `index`; `none` is -1.
unfoldable pub boundary :
    (literal : Bool) (nested : Option ℕ) (index : ℕ) → Bytes → Option ℕ × Option ℕ
boundary literal nested index [] = (none, none)
boundary literal nested index (c ∷ cs) =
    let opened = boundary true nested (suc index) cs in
    let closed = boundary false nested (suc index) cs in
    let same = boundary literal nested (suc index) cs in
    let found = boundary literal (some index) (suc index) cs in
    if c == b'['
    then opened
    else if c == b']'
    then closed
    else if c == b'<'
    then (if literal then same else found)
    else if c == b'>'
    then (if literal then same else (some index, nested))
    else same

unfoldable pub message_id_boundary : Bytes → Option ℕ × Option ℕ
message_id_boundary value = boundary false none 0 value

abbrev all_bytes : (ℕ → Bool) → Bytes → Bool
all_bytes p [] = true
all_bytes p (c ∷ cs) = p c && all_bytes p cs

abbrev any_byte : (ℕ → Bool) → Bytes → Bool
any_byte p [] = false
any_byte p (c ∷ cs) = p c || any_byte p cs

-- ".!#$%&'*+-/=?^_`{|}~"
abbrev atom_marks : Bytes
atom_marks =
    46 ∷ 33 ∷ 35 ∷ 36 ∷ 37 ∷ 38 ∷ 39 ∷ 42 ∷ 43 ∷ 45 ∷ 47 ∷ 61 ∷ 63 ∷ 94 ∷ 95 ∷ 96 ∷ 123 ∷ 124 ∷ 125
    ∷ 126 ∷ []

-- A byte of 128 or more belongs to a character of `utf8.RuneSelf` or more, which is accepted.
abbrev atom_byte : ℕ → Bool
atom_byte c =
    leb 128 c
    || (leb b'a' c && leb c b'z')
    || (leb b'A' c && leb c b'Z')
    || (leb b'0' c && leb c b'9')
    || any_byte (λ mark. c == mark) atom_marks

abbrev last_is : ℕ → Bytes → Bool
last_is c [] = false
last_is c (d ∷ []) = d == c
last_is c (d ∷ e ∷ ds) = last_is c (e ∷ ds)

abbrev first_is : ℕ → Bytes → Bool
first_is c [] = false
first_is c (d ∷ ds) = d == c

abbrev two_dots : Bytes → Bool
two_dots [] = false
two_dots (c ∷ cs) = (c == b'.' && first_is b'.' cs) || two_dots cs

unfoldable pub message_id_dot_atom : Bytes → Bool
message_id_dot_atom value =
    not (is_empty value || first_is b'.' value || last_is b'.' value || two_dots value)
    && all_bytes atom_byte value

abbrev literal_byte : ℕ → Bool
literal_byte c = not (ltb c 33 || c == 127 || c == b'[' || c == b']' || c == b'\\')

abbrev domain_part : Bytes → Bool
domain_part right =
    if first_is b'[' right && last_is b']' right
    then all_bytes literal_byte (take (length right - 2) (drop 1 right))
    else message_id_dot_atom right

module _ (lib : MailLibrary) where
  unfoldable pub valid_message_id_token : Bytes → Bool
  valid_message_id_token token = lib.valid_utf8 token && (elim (index_byte b'@' token) [
    | none ↦ false
    | some at ↦ message_id_dot_atom (take at token) && domain_part (drop (suc at) token)
  ])

  unfoldable pub threading_separators : Bytes → Bool
  threading_separators value = all_bytes (λ c. c == b',' || lib.is_space c) (lib.runes value)

  -- `ids` with one token in front, when it is valid; otherwise the result is not complete.
  abbrev with_token : Bytes → Option (List Bytes × Bool) → Option (List Bytes × Bool)
  with_token token none = none
  with_token token (some (ids, valid)) =
      if valid_message_id_token token
      then some ((b'<' ∷ (token ++ (b'>' ∷ []))) ∷ ids, valid)
      else some (ids, false)

  abbrev with_valid : Bool → Option (List Bytes × Bool) → Option (List Bytes × Bool)
  with_valid ok none = none
  with_valid ok (some (ids, valid)) = some (ids, ok && valid)

  -- The second loop: the identifiers still to be found and whether all of the rest is well formed.
  -- The first number is fuel.
  unfoldable pub cut_ids : ℕ → Bytes → Option (List Bytes × Bool)
  cut_ids zero remaining = none
  cut_ids (suc fuel) remaining = elim (index_byte b'<' remaining) [
    | none ↦ some ([], threading_separators remaining)
    | some start ↦
        let inner = drop (suc start) remaining in
        let separated = threading_separators (take start remaining) in
        let (ending, nested) = message_id_boundary inner in
        elim ending [
          | none ↦ some ([], false)
          | some end ↦ elim nested [
            | some again ↦ with_valid false (cut_ids fuel (drop again inner))
            | none ↦
                with_valid separated
                  (with_token (take end inner) (cut_ids fuel (drop (suc end) inner)))
          ]
        ]
  ]

  abbrev or_incomplete : Option (List Bytes × Bool) → List Bytes × Bool
  or_incomplete none = ([], false)
  or_incomplete (some r) = r

  abbrev start_scan : Bytes → Scan
  start_scan value = record {
    depth = 0;
    escaped = false;
    identifier = false;
    literal = false;
    valid = lib.valid_utf8 value;
  }

  -- The identifiers, and whether the header holds nothing else.
  unfoldable pub scan_message_ids : Bytes → List Bytes × Bool
  scan_message_ids value =
      let (scan, cleaned) = scan_bytes (start_scan value) value in
      let (ids, valid) = or_incomplete (cut_ids (suc (length cleaned)) cleaned) in
      (ids, scan.depth == 0 && not scan.escaped && scan.valid && valid)

  index_byte_bound : (c : ℕ) (cs : Bytes) (i : ℕ) → index_byte c cs ≡ some i → i < length cs
  unfolding index_byte
  index_byte_bound c [] i h = cc
  index_byte_bound c (d ∷ ds) i h = elim (Option-cases (index_byte c ds)) [
    | inl e ↦ ground (rw e at h, arith)
    | inr (j, e) ↦ let below = index_byte_bound c ds j e in ground (rw e at h, below, arith)
  ]

  with_valid_returns :
      (ok : Bool) (r : Option (List Bytes × Bool)) → r ≢ none → with_valid ok r ≢ none
  with_valid_returns ok none h = h
  with_valid_returns ok (some r) h = λ e. cc

  with_token_returns :
      (token : Bytes) (r : Option (List Bytes × Bool)) → r ≢ none → with_token token r ≢ none
  with_token_returns token none h = h
  with_token_returns token (some r) h = λ e. elim (Bool-cases (valid_message_id_token token)) [
    | inl v ↦ cc (rw v at e)
    | inr v ↦ cc (rw v at e)
  ]

  shorter :
      (n m : ℕ) (cs : Bytes) (fuel : ℕ)
      → n < length cs
      → length cs < suc fuel
      → length (drop m (drop (suc n) cs)) < fuel
  shorter n m cs fuel h short =
      omega (arith, length-drop m (drop (suc n) cs), length-drop (suc n) cs)

  -- The second loop ends within one round for each byte and one more, so `scanMessageIDs` returns
  -- and the fuel that the model gives it is never used up.
  pub cut_ids_returns :
      (fuel : ℕ) (remaining : Bytes) → length remaining < fuel → cut_ids fuel remaining ≢ none
  unfolding cut_ids
  cut_ids_returns zero remaining h = absurd (omega arith)
  cut_ids_returns (suc fuel) remaining h = elim (Option-cases (index_byte b'<' remaining)) [
    | inl e ↦ rw (e, cut_ids) (λ x. cc)
    | inr (start, e) ↦
        let inner = drop (suc start) remaining in
        let bound = index_byte_bound b'<' remaining start e in
        let again : (m : ℕ) → cut_ids fuel (drop m inner) ≢ none =
          λ m. cut_ids_returns fuel (drop m inner) (shorter start m remaining fuel bound h) in
        elim (Option-cases (message_id_boundary inner).0) [
          | inl none_end ↦ rw (e, none_end, cut_ids) (λ x. cc)
          | inr (end, e1) ↦ elim (Option-cases (message_id_boundary inner).1) [
            | inr (at, e2) ↦ rw (e, e1, e2, cut_ids) (with_valid_returns false _ (again at))
            | inl e2 ↦
                rw (e, e1, e2, cut_ids)
                  (with_valid_returns _ _ (with_token_returns _ _ (again (suc end))))
          ]
        ]
  ]
