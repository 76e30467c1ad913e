-- ===== src/Ref/Reader.antt =====
-- internal/mailref/binary.go: `binaryReader`. A read after a failure gives the zero value and keeps
-- the first error, as the methods of the source do.
use mail_cli.Common.{ℕ, zero, suc, ◌+◌, ◌-◌, ◌*◌, ◌^◌, Bool, true, false, not, ◌&&◌}
use mail_cli.Common.{Option, none, some, List, [], ◌∷◌, ltb, if◌then◌else◌, length, take, drop}
use mail_cli.Ref.Varint.{ℤ, pos, uvarint_of, unzigzag}
use mail_cli.Ref.Text.{
  Bytes, TextLibrary, RefError, truncated_integer, truncated, string_too_long, invalid_utf8,
  list_too_long, trailing_bytes, exceeds_32_bits, exceeds_63_bits, max_compact_string_bytes,
  max_compact_list_length, Result, ok, err,
}
use mail_cli.Ref.Uuid.{format_uuid}

pub record BinaryReader : Type 0 where
  pub remaining : Bytes
  pub failure : Option RefError

abbrev pub Read : Type 0 → Type 0
Read A = BinaryReader → A × BinaryReader

infixl 5 ◌>>=◌
abbrev pub ◌>>=◌ : {A B : Type 0} → Read A → (A → Read B) → Read B
◌>>=◌ m f r = f (m r).0 (m r).1

abbrev pub pure : {A : Type 0} → A → Read A
pure a r = (a, r)

-- Only the first failure is kept.
unfoldable pub fail : RefError → BinaryReader → BinaryReader
fail e r = elim r.failure [ none ↦ record r { failure = some e } | some first ↦ r ]

unfoldable pub integer_read :
    {A : Type 0} → A → (ℕ → A) → BinaryReader → Option (ℕ × Bytes) → A × BinaryReader
unfolding fail
integer_read zero_value f r none = (zero_value, fail truncated_integer r)
integer_read zero_value f r (some (value, rest)) = (f value, record r { remaining = rest })

unfoldable pub read_uvarint : Read ℕ
unfolding integer_read
read_uvarint r = elim r.failure [
  | some e ↦ (0, r)
  | none ↦ integer_read 0 (λ v. v) r (uvarint_of r.remaining)
]

unfoldable pub read_varint : Read ℤ
unfolding integer_read
read_varint r = elim r.failure [
  | some e ↦ (pos 0, r)
  | none ↦ integer_read (pos 0) unzigzag r (uvarint_of r.remaining)
]

unfoldable pub take_bytes : ℕ → Read Bytes
unfolding fail
take_bytes n r = elim r.failure [
  | some e ↦ ([], r)
  | none ↦
      if ltb (length r.remaining) n
      then ([], fail truncated r)
      else (take n r.remaining, record r { remaining = drop n r.remaining })
]

abbrev pub has_failed : BinaryReader → Bool
has_failed r = elim r.failure [ none ↦ false | some e ↦ true ]

module _ (lib : TextLibrary) where
  -- The check that follows `take` in `text`.
  unfoldable pub checked_text : Bytes → Read Bytes
  unfolding fail
  checked_text chunk r =
      if not (has_failed r) && not (lib.valid chunk)
      then (chunk, fail invalid_utf8 r)
      else (chunk, r)

  unfoldable pub read_text : Read Bytes
  unfolding fail checked_text
  read_text r =
      let (n, r') = read_uvarint r in
      if ltb max_compact_string_bytes n
      then ([], fail string_too_long r')
      else checked_text (take_bytes n r').0 (take_bytes n r').1

  unfoldable pub read_identifier : Bool → Read Bytes
  unfolding read_text
  read_identifier false r = read_text r
  read_identifier true r =
      let (chunk, r') = take_bytes 16 r in
      if has_failed r' then ([], r') else (format_uuid chunk, r')

  -- The loop of `path`: `none` once a component failed.
  unfoldable pub path_loop : ℕ → Read (Option (List Bytes))
  path_loop zero r = (some [], r)
  path_loop (suc n) r =
      let (component, r') = read_text r in
      let rest = path_loop n r' in
      if has_failed r'
      then (none, r')
      else elim rest.0 [ none ↦ (none, rest.1) | some cs ↦ (some (component ∷ cs), rest.1) ]

  unfoldable pub or_nil : Option (List Bytes) → List Bytes
  or_nil none = []
  or_nil (some cs) = cs

  unfoldable pub read_path : Read (List Bytes)
  unfolding fail path_loop or_nil
  read_path r =
      let (count, r') = read_uvarint r in
      if ltb max_compact_list_length count
      then ([], fail list_too_long r')
      else (or_nil (path_loop count r').0, (path_loop count r').1)

unfoldable pub read_uint32 : Read ℕ
unfolding fail
read_uint32 r =
    let (value, r') = read_uvarint r in
    if ltb (2 ^ 32 - 1) value then (0, fail exceeds_32_bits r') else (value, r')

unfoldable pub read_nonnegative : Read ℤ
unfolding fail
read_nonnegative r =
    let (value, r') = read_uvarint r in
    if ltb (2 ^ 63 - 1) value then (pos 0, fail exceeds_63_bits r') else (pos value, r')

-- Big-endian bytes; a chunk of the wrong length, which only a failed read gives, counts as zeros.
unfoldable pub big_endian : ℕ → Bytes → ℕ
big_endian acc [] = acc
big_endian acc (b ∷ bs) = big_endian (256 * acc + b) bs

unfoldable pub read_big_endian : ℕ → Read ℕ
unfolding big_endian
read_big_endian n r =
    let (chunk, r') = take_bytes n r in
    ((if ltb (length chunk) n then 0 else big_endian 0 chunk), r')

-- `finish`, with what was read before.
unfoldable pub finish : {A : Type 0} → A × BinaryReader → Result A
finish (a, r) = elim r.failure [
  | some e ↦ err e
  | none ↦ elim r.remaining [ [] ↦ ok a | b ∷ bs ↦ err trailing_bytes ]
]
