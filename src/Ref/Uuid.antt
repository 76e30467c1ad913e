-- ===== src/Ref/Uuid.antt =====
-- internal/mailref/binary.go: `parseCanonicalUUID` and `formatUUID`.
mod Examples
use mail_cli.Common.{
  ℕ, zero, suc, ◌+◌, ◌-◌, ◌*◌, ◌/◌, ◌%◌, ◌<◌, ◌≤◌, ◌≡◌, refl, ap, ◌∙◌, sym, Bool, true, false, ◌&&◌,
}
use mail_cli.Common.{
  Option, none, some, List, [], ◌∷◌, ◌++◌, arith, ltb, leb, ◌==◌, if◌then◌else◌, length, inl, inr,
}
use mail_cli.Common.{map, take, drop, get_elem?, Bool-cases, Option-cases}
use mail_cli.Ref.Text.{Bytes, bytes_equal, bytes_equal→eq}

-- `strings.ToUpper` on an ASCII byte. On other bytes the hexadecimal decoder fails whatever it gives.
abbrev upper : ℕ → ℕ
upper c = if leb 97 c && leb c 122 then c - 32 else c

abbrev hex_digit : ℕ → ℕ
hex_digit n = if ltb n 10 then 48 + n else 55 + n

-- `strings.ToUpper(hex.EncodeToString(raw))`
pub hex_upper : Bytes → Bytes
hex_upper [] = []
hex_upper (b ∷ bs) = hex_digit (b / 16) ∷ hex_digit (b % 16) ∷ hex_upper bs

hex_value : ℕ → Option ℕ
hex_value c =
    if leb 48 c && leb c 57
    then some (c - 48)
    else if leb 65 c && leb c 70
    then some (c - 55)
    else if leb 97 c && leb c 102
    then some (c - 87)
    else none

abbrev join : Option ℕ → Option ℕ → Option Bytes → Option Bytes
join (some h) (some l) (some bs) = some ((16 * h + l) ∷ bs)
join _ _ _ = none

-- `hex.DecodeString`
hex_decode : Bytes → Option Bytes
unfolding hex_value
hex_decode [] = some []
hex_decode (a ∷ []) = none
hex_decode (a ∷ b ∷ cs) = join (hex_value a) (hex_value b) (hex_decode cs)

-- `value[from:to]` where it is in range.
abbrev slice : ℕ → ℕ → Bytes → Bytes
slice from to value = take (to - from) (drop from value)

abbrev dash_at : ℕ → Bytes → Bool
dash_at i value = elim (get_elem? value i) [ none ↦ false | some c ↦ c == b'-' ]

pub has_dashes : Bytes → Bool
has_dashes value =
    length value == 36
    && (dash_at 8 value && (dash_at 13 value && (dash_at 18 value && dash_at 23 value)))

pub compact_hex : Bytes → Bytes
compact_hex value =
    slice 0 8 value
    ++ (slice 9 13 value ++ (slice 14 18 value ++ (slice 19 23 value ++ drop 24 value)))

-- The test of the decoder's result.
abbrev of_sixteen : Option Bytes → Option Bytes
of_sixteen none = none
of_sixteen (some raw) = if length raw == 16 then some raw else none

-- `none` is the result `false`.
pub parse_canonical_uuid : Bytes → Option Bytes
parse_canonical_uuid value =
    if has_dashes value && bytes_equal (compact_hex value) (map upper (compact_hex value))
    then of_sixteen (hex_decode (compact_hex value))
    else none

-- The text with a dash put back after its 8th, 12th, 16th and 20th byte.
abbrev with_dashes : Bytes → Bytes
with_dashes text =
    slice 0 8 text
    ++ (b'-'
        ∷ (slice 8 12 text
            ++ (b'-' ∷ (slice 12 16 text ++ (b'-' ∷ (slice 16 20 text ++ (b'-' ∷ drop 20 text)))))))

pub format_uuid : Bytes → Bytes
format_uuid raw = with_dashes (hex_upper raw)

upper_value : (c v : ℕ) → hex_value c ≡ some v → c ≡ upper c → (v < 16) × (hex_digit v ≡ c)
unfolding hex_value
upper_value c v h u = ground arith

join-eq-some :
    (x y : Option ℕ) (r : Option Bytes) (raw : Bytes)
    → join x y r ≡ some raw
    → (h : ℕ) × (l : ℕ) × (bs : Bytes) × (x ≡ some h)
      × (y ≡ some l)
      × (r ≡ some bs)
      × (raw ≡ (16 * h + l) ∷ bs)
join-eq-some (some h) (some l) (some bs) raw e = (h, l, bs, refl, refl, refl, ground arith)
join-eq-some none y r raw e = cc
join-eq-some (some h) none r raw e = cc
join-eq-some (some h) (some l) none raw e = cc

-- An upper-case text that decodes is the encoding of what it decodes to.
hex_upper-decode :
    (cs raw : Bytes) → hex_decode cs ≡ some raw → cs ≡ map upper cs → hex_upper raw ≡ cs
unfolding hex_upper hex_decode
hex_upper-decode [] raw h u = ground arith
hex_upper-decode (a ∷ []) raw h u = cc
hex_upper-decode (a ∷ b ∷ cs) raw e u =
    let (h, l, bs, x, y, r, eq) = join-eq-some (hex_value a) (hex_value b) (hex_decode cs) raw e in
    let (h_small, h_eq) = upper_value a h x (cc) in
    let (l_small, l_eq) = upper_value b l y (cc) in
    rw eq (ground (arith, hex_upper-decode cs bs r (cc), h_eq, l_eq, h_small, l_small))

parsed_some :
    (o : Option Bytes) (raw : Bytes) → of_sixteen o ≡ some raw → (o ≡ some raw) × (length raw ≡ 16)
parsed_some none raw h = cc
parsed_some (some r) raw h = ground arith

dashes_length : (v : Bytes) → has_dashes v ≡ true → length v ≡ 36
unfolding has_dashes
dashes_length v h = ground arith

with_dashes-compact : (v : Bytes) → has_dashes v ≡ true → with_dashes (compact_hex v) ≡ v
unfolding has_dashes compact_hex
with_dashes-compact
      (c0 ∷ c1 ∷ c2 ∷ c3 ∷ c4 ∷ c5 ∷ c6 ∷ c7 ∷ c8 ∷ c9 ∷ c10 ∷ c11 ∷ c12 ∷ c13 ∷ c14 ∷ c15 ∷ c16
        ∷ c17 ∷ c18 ∷ c19 ∷ c20 ∷ c21 ∷ c22 ∷ c23 ∷ c24 ∷ c25 ∷ c26 ∷ c27 ∷ c28 ∷ c29 ∷ c30 ∷ c31
        ∷ c32 ∷ c33 ∷ c34 ∷ c35 ∷ [])
      h =
    ground arith
with_dashes-compact v h = absurd (omega (arith, dashes_length v h))

-- A text that parses as a canonical identifier is 36 bytes long and is what formatting the sixteen
-- parsed bytes gives back.
pub format-parse_uuid :
    (v raw : Bytes)
    → parse_canonical_uuid v ≡ some raw
    → (format_uuid raw ≡ v) × (length raw ≡ 16) × (length v ≡ 36)
unfolding parse_canonical_uuid format_uuid
format-parse_uuid v raw h =
    elim (Bool-cases (has_dashes v && bytes_equal (compact_hex v) (map upper (compact_hex v)))) [
      | inr e ↦ cc (rw e at h)
      | inl e ↦
          let dashes : has_dashes v ≡ true = ground arith in
          let (decoded, sixteen) = parsed_some (hex_decode (compact_hex v)) raw (rw e at h) in
          let same : hex_upper raw ≡ compact_hex v =
            hex_upper-decode (compact_hex v) raw decoded (bytes_equal→eq _ _ (ground arith)) in
          (rw same (with_dashes-compact v dashes), sixteen, dashes_length v dashes)
    ]
