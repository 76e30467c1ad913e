-- ===== src/Ref/Reads.antt =====
-- What each method of `binaryReader` of internal/mailref/binary.go reads back of what the matching
-- method of `binaryWriter` wrote, with any bytes behind it.
use mathlib.Core.List.{append_assoc}
use native.Mathlib.Nat.{div-add-mod, div-div-eq-div-mul, mod-eq_of_lt, pow-suc}
use mail_cli.Common.{ℕ, zero, suc, ◌+◌, ◌*◌, ◌/◌, ◌%◌, ◌^◌, ◌<◌, ◌≤◌, ◌≡◌, refl, ap, ◌∙◌, true}
use mail_cli.Common.{Option, none, some, List, [], ◌∷◌, ◌++◌, length, arith}
use mail_cli.Common.{length-append, take-append_length, drop-append_length, All}
use mail_cli.Ref.Varint.{
  ℤ, pos, IsInt64, uvarint_bytes, uvarint_of-bytes, zigzag, unzigzag-zigzag, zigzag_bound,
  uint64_of, uint64_of_pos,
}
use mail_cli.Ref.Text.{Bytes, TextLibrary, max_compact_string_bytes, max_compact_list_length}
use mail_cli.Ref.Uuid.{parse_canonical_uuid, format-parse_uuid}
use mail_cli.Ref.Reader.{
  BinaryReader, Read, ◌>>=◌, pure, integer_read, read_uvarint, read_varint, take_bytes, read_text,
  read_identifier, path_loop, read_path, read_uint32, read_nonnegative, big_endian, read_big_endian,
}
use mail_cli.Ref.Writer.{
  varint_bytes, text_bytes, identifier_bytes, components_bytes, path_bytes, big_endian_bytes,
}
use mail_cli.Ref.Codec.{is_some}

-- A reader that has not failed.
abbrev pub ready : Bytes → BinaryReader
ready remaining = record { remaining = remaining; failure = none }

abbrev pub Reads : {A : Type 0} → Read A → Bytes → A → Type 0
Reads m written a = (rest : Bytes) → m (ready (written ++ rest)) ≡ (a, ready rest)

-- A string that a reference can carry.
abbrev pub IsText : TextLibrary → Bytes → Type 0
IsText lib s = (length s ≤ max_compact_string_bytes) × (lib.valid s ≡ true)

pub Reads-bind :
    {A B : Type 0} (m : Read A) (f : A → Read B) (w w' : Bytes) (a : A) (b : B)
    → Reads m w a
    → Reads (f a) w' b
    → Reads (m >>= f) (w ++ w') b
Reads-bind m f w w' a b first second rest =
    rw (append_assoc w w' rest) (rw (first (w' ++ rest)) (second rest))

pub Reads-pure : {A : Type 0} (a : A) → Reads (pure a) [] a
Reads-pure a rest = refl

pub read_uvarint-Reads : (v : ℕ) → v < 2 ^ 64 → Reads read_uvarint (uvarint_bytes v) v
unfolding read_uvarint
read_uvarint-Reads v h rest = rw (uvarint_of-bytes v rest h, integer_read)

pub read_varint-Reads : (x : ℤ) → IsInt64 x → Reads read_varint (varint_bytes x) x
unfolding read_varint varint_bytes
read_varint-Reads x h rest =
    rw (uvarint_of-bytes (zigzag x) rest (zigzag_bound x h), integer_read) (rw unzigzag-zigzag)

pub take_bytes-Reads : (s : Bytes) → Reads (take_bytes (length s)) s s
unfolding take_bytes
take_bytes-Reads s rest =
    ground (arith, length-append s rest, take-append_length s rest, drop-append_length s rest)

module _ (lib : TextLibrary) where
  pub read_text-Reads : (s : Bytes) → IsText lib s → Reads (read_text lib) (text_bytes s) s
  unfolding read_text text_bytes
  read_text-Reads s (short, valid) rest =
      rw
        (
          append_assoc (uvarint_bytes (length s)) s rest,
          read_uvarint-Reads (length s) (omega arith) (s ++ rest),
          take_bytes-Reads s rest,
        )
        (ground arith)

  pub read_identifier-Reads :
      (value : Bytes) (raw : Option Bytes)
      → parse_canonical_uuid value ≡ raw
      → IsText lib value
      → Reads (read_identifier lib (is_some raw)) (identifier_bytes value raw) value
  unfolding read_identifier identifier_bytes
  read_identifier-Reads value none h ok rest = read_text-Reads value ok rest
  read_identifier-Reads value (some raw) h ok rest =
      let (formatted, sixteen, _) = format-parse_uuid value raw h in
      let taken : take_bytes 16 (ready (raw ++ rest)) ≡ (raw, ready rest) =
        rw sixteen at (take_bytes-Reads raw rest) in
      rw taken (rw formatted)

  path_loop-Reads :
      (path : List Bytes)
      → All (IsText lib) path
      → Reads (path_loop lib (length path)) (components_bytes path) (some path)
  unfolding path_loop components_bytes
  path_loop-Reads [] h rest = refl
  path_loop-Reads (c ∷ cs) (hc, hcs) rest = ground (
    arith,
    append_assoc (text_bytes c) (components_bytes cs) rest,
    read_text-Reads c hc (components_bytes cs ++ rest),
    path_loop-Reads cs hcs rest,
  )

  pub read_path-Reads :
      (path : List Bytes)
      → length path ≤ max_compact_list_length
      → All (IsText lib) path
      → Reads (read_path lib) (path_bytes path) path
  unfolding read_path path_bytes
  read_path-Reads path short h rest =
      rw
        (
          append_assoc (uvarint_bytes (length path)) (components_bytes path) rest,
          read_uvarint-Reads (length path) (omega arith) (components_bytes path ++ rest),
          path_loop-Reads path h rest,
        )
        (ground arith)

pub read_uint32-Reads : (v : ℕ) → v < 2 ^ 32 → Reads read_uint32 (uvarint_bytes v) v
unfolding read_uint32
read_uint32-Reads v h rest = rw (read_uvarint-Reads v (omega arith) rest) (ground arith)

pub read_nonnegative-Reads :
    (n : ℕ) → n < 2 ^ 63 → Reads read_nonnegative (uvarint_bytes (uint64_of (pos n))) (pos n)
unfolding read_nonnegative
read_nonnegative-Reads n h rest =
    ground (arith, uint64_of_pos n, read_uvarint-Reads n (omega arith) rest)

length-big_endian_bytes : (n v : ℕ) → length (big_endian_bytes n v) ≡ n
unfolding big_endian_bytes
length-big_endian_bytes zero v = refl
length-big_endian_bytes (suc n) v = ap suc (length-big_endian_bytes n v)

-- One more place of a number in base 256.
split_place : (p v : ℕ) → v % (p * 256) ≡ v / p % 256 * p + v % p
split_place p v = omega (
  arith,
  div-add-mod v p,
  ap (λ (t : ℕ). t * p) (div-add-mod (v / p) 256),
  div-add-mod v (p * 256),
  ap (λ (t : ℕ). p * t) (div-div-eq-div-mul v p 256),
)

-- The low `n` bytes, read after `acc`.
big_endian-bytes :
    (n acc v : ℕ) → big_endian acc (big_endian_bytes n v) ≡ acc * 256 ^ n + v % 256 ^ n
unfolding big_endian big_endian_bytes
big_endian-bytes zero acc v = omega arith
big_endian-bytes (suc n) acc v =
    big_endian-bytes n (256 * acc + v / 256 ^ n % 256) v
    ∙ rw (pow-suc 256 n) (omega (arith, split_place (256 ^ n) v))

pub read_big_endian-Reads :
    (n v : ℕ) → v < 256 ^ n → Reads (read_big_endian n) (big_endian_bytes n v) v
unfolding read_big_endian
read_big_endian-Reads n v h rest =
    let taken : take_bytes n (ready (big_endian_bytes n v ++ rest))
        ≡ (big_endian_bytes n v, ready rest) =
      rw (length-big_endian_bytes n v) at (take_bytes-Reads (big_endian_bytes n v) rest) in
    ground (arith, taken, length-big_endian_bytes n v, big_endian-bytes n 0 v, mod-eq_of_lt h)
