-- ===== src/Ref/Text.antt =====
-- internal/mailref/binary.go and reference.go: the checks and normal forms of the strings in a
-- reference, and the result of a fallible function.
use mail_cli.Common.{ℕ, zero, suc, ◌+◌, ◌-◌, ◌*◌, ◌/◌, ◌%◌, ◌^◌, ◌<◌, ◌≡◌, Bool, true, ◌&&◌}
use mail_cli.Common.{
  Option, none, some, List, [], ◌∷◌, arith, ltb, leb, ◌==◌, if◌then◌else◌, length,
}
use mail_cli.Common.{Option-cases, Bool-cases, inl, inr}
unfoldable pub use mail_cli.Common.{Bytes, bytes_equal}
pub use mail_cli.Common.{bytes_equal_refl, bytes_equal→eq}

-- `utf8.ValidString`, `string([]rune(s))` and the first four bytes of SHA-256, big endian.
pub record TextLibrary : Type 0 where
  pub valid : Bytes → Bool
  pub to_valid : Bytes → Bytes
  pub to_valid_valid : (s : Bytes) → valid (to_valid s) ≡ true
  pub sum32 : Bytes → ℕ

pub data RefError : Type 0 where
  truncated_integer truncated string_too_long invalid_utf8 list_too_long : RefError
  trailing_bytes exceeds_32_bits exceeds_63_bits unknown_flags noncanonical : RefError

pub data Result {ℓ} (A : Type ℓ) : Type ℓ where
  ok : A → Result A
  err : RefError → Result A

infixl 5 ◌>>=◌
abbrev pub ◌>>=◌ {ℓ κ} : {A : Type ℓ} {B : Type κ} → Result A → (A → Result B) → Result B
ok a >>= f = f a
err e >>= f = err e

abbrev pub max_compact_string_bytes : ℕ
max_compact_string_bytes = 262144

abbrev pub max_compact_list_length : ℕ
max_compact_list_length = 1024

module _ (lib : TextLibrary) where
  unfoldable pub sanitize_utf8 : Bytes → Bytes
  sanitize_utf8 value = if lib.valid value then value else lib.to_valid value

  unfoldable pub sanitize_path : List Bytes → List Bytes
  sanitize_path [] = []
  sanitize_path (c ∷ cs) = sanitize_utf8 c ∷ sanitize_path cs

  -- The fingerprint of a subject; 0 is kept for a message without a check.
  unfoldable pub subject_hash : Bytes → ℕ
  subject_hash subject = let hash = lib.sum32 subject in if hash == 0 then 1 else hash

unfoldable pub strings_fit : List Bytes → Bool
strings_fit [] = true
strings_fit (s ∷ ss) = leb (length s) max_compact_string_bytes && strings_fit ss

-- `validateCompactPath`
unfoldable pub validate_compact_path : List Bytes → Result (Unit {0})
unfolding strings_fit
validate_compact_path path =
    if ltb max_compact_list_length (length path)
    then err list_too_long
    else if strings_fit path
    then ok tt
    else err string_too_long

unfoldable pub validate_binary_bounds : List Bytes → List Bytes → Result (Unit {0})
validate_binary_bounds path texts =
    validate_compact_path path >>= λ _. if strings_fit texts then ok tt else err string_too_long

-- `strconv.FormatUint(n, 10)`: at most twenty digits.
format_digits : ℕ → ℕ → Bytes → Bytes
format_digits zero n acc = acc
format_digits (suc k) n acc =
    let more = format_digits k (n / 10) ((48 + n % 10) ∷ acc) in
    if ltb n 10 then (48 + n) ∷ acc else more

unfoldable pub format_uint : ℕ → Bytes
unfolding format_digits
format_uint n = format_digits 20 n []

-- `strconv.ParseUint(value, 10, 64)`: decimal digits, at least one, below 2 ^ 64.
parse_digits : ℕ → Bytes → Option ℕ
parse_digits n [] = if ltb n (2 ^ 64) then some n else none
parse_digits n (c ∷ cs) =
    let rest = parse_digits (10 * n + (c - 48)) cs in if leb 48 c && leb c 57 then rest else none

parse_uint : Bytes → Option ℕ
unfolding parse_digits
parse_uint [] = none
parse_uint (c ∷ cs) = parse_digits 0 (c ∷ cs)

unfoldable pub canonical_decimal : Bytes → Option ℕ
unfolding parse_uint format_uint
canonical_decimal value = elim (parse_uint value) [
  | none ↦ none
  | some n ↦ if bytes_equal (format_uint n) value then some n else none
]

parse_digits_bound : (n : ℕ) (cs : Bytes) (v : ℕ) → parse_digits n cs ≡ some v → v < 2 ^ 64
unfolding parse_digits
parse_digits_bound n [] v h = ground arith
parse_digits_bound n (c ∷ cs) v h = ground (arith, parse_digits_bound (10 * n + (c - 48)) cs v)

parse_uint_bound : (s : Bytes) (v : ℕ) → parse_uint s ≡ some v → v < 2 ^ 64
unfolding parse_uint
parse_uint_bound [] v h = cc
parse_uint_bound (c ∷ cs) v h = parse_digits_bound 0 (c ∷ cs) v h

-- A text that is a canonical decimal is what formatting its value gives, and the value is a uint64.
pub canonical_decimal_sound :
    (s : Bytes) (v : ℕ) → canonical_decimal s ≡ some v → (format_uint v ≡ s) × (v < 2 ^ 64)
unfolding canonical_decimal
canonical_decimal_sound s v h = elim (Option-cases (parse_uint s)) [
  | inl e ↦ cc (rw (e, canonical_decimal) at h)
  | inr (n, e) ↦
      let checked : (if bytes_equal (format_uint n) s then some n else none) ≡ some v =
        rw (e, canonical_decimal) at h in
      elim (Bool-cases (bytes_equal (format_uint n) s)) [
        | inl same ↦
            let eq : n ≡ v = ground arith in
            (rw (← eq) (bytes_equal→eq _ _ same), rw (← eq) (parse_uint_bound s n e))
        | inr other ↦ cc (rw other at checked)
      ]
]
