-- ===== src/Ref/Varint.antt =====
-- The variable-length integers of Go's encoding/binary, which internal/mailref/binary.go writes and
-- reads: seven bits a byte, lowest first, at most ten bytes, and the zigzag form of a signed one.
use mail_cli.Common.{ℕ, zero, suc, ◌+◌, ◌-◌, ◌*◌, ◌/◌, ◌%◌, ◌^◌, ◌<◌, ◌≡◌, Option, none, some}
use mail_cli.Common.{List, [], ◌∷◌, ◌++◌, arith, ltb, ◌==◌, if◌then◌else◌, refl}

-- An int64: `negsuc n` is -(n + 1).
pub data ℤ : Type 0 where
  pos : ℕ → ℤ
  negsuc : ℕ → ℤ

-- At most `k + 1` bytes.
put_uvarint : ℕ → ℕ → List ℕ
put_uvarint zero v = v ∷ []
put_uvarint (suc k) v =
    let rest = put_uvarint k (v / 128) in if ltb v 128 then v ∷ [] else (v % 128 + 128) ∷ rest

-- `binary.AppendUvarint`: what it appends.
pub uvarint_bytes : ℕ → List ℕ
uvarint_bytes = put_uvarint 9

carry : ℕ → Option (ℕ × List ℕ) → Option (ℕ × List ℕ)
carry b none = none
carry b (some (v, rest)) = some (b - 128 + 128 * v, rest)

-- At most `k + 1` bytes are left to read; the tenth byte of a uint64 is 0 or 1.
get_uvarint : ℕ → List ℕ → Option (ℕ × List ℕ)
unfolding carry
get_uvarint k [] = none
get_uvarint zero (b ∷ bs) = if ltb 1 b then none else some (b, bs)
get_uvarint (suc k) (b ∷ bs) =
    let rest = carry b (get_uvarint k bs) in if ltb b 128 then some (b, bs) else rest

-- `binary.Uvarint`; `none` stands for the lengths that are 0 or less, a truncated or oversized number.
pub uvarint_of : List ℕ → Option (ℕ × List ℕ)
uvarint_of = get_uvarint 9

-- `uint64(x) << 1`, complemented below 0.
pub zigzag : ℤ → ℕ
zigzag (pos n) = 2 * n
zigzag (negsuc n) = 2 * n + 1

pub unzigzag : ℕ → ℤ
unzigzag u = if u % 2 == 0 then pos (u / 2) else negsuc (u / 2)

-- `int64(u)` and `uint64(x)`.
pub int64_of : ℕ → ℤ
int64_of u = if ltb u (2 ^ 63) then pos u else negsuc (2 ^ 64 - 1 - u)

pub uint64_of : ℤ → ℕ
uint64_of (pos n) = n
uint64_of (negsuc n) = 2 ^ 64 - 1 - n

abbrev pub IsInt64 : ℤ → Type 0
IsInt64 (pos n) = n < 2 ^ 63
IsInt64 (negsuc n) = n < 2 ^ 63

-- What `k + 1` bytes hold, the last of them 0 or 1.
room : ℕ → ℕ
room zero = 2
room (suc k) = 128 * room k

get-put_uvarint :
    (k v : ℕ) (rest : List ℕ)
    → v < room k
    → get_uvarint k (put_uvarint k v ++ rest) ≡ some (v, rest)
unfolding put_uvarint get_uvarint room
get-put_uvarint zero v rest h = ground arith
get-put_uvarint (suc k) v rest h = ground (arith, get-put_uvarint k (v / 128) rest)

-- `binary.Uvarint` reads back what `binary.AppendUvarint` wrote, and leaves what follows.
pub uvarint_of-bytes :
    (v : ℕ) (rest : List ℕ) → v < 2 ^ 64 → uvarint_of (uvarint_bytes v ++ rest) ≡ some (v, rest)
unfolding uvarint_of uvarint_bytes
uvarint_of-bytes v rest h = get-put_uvarint 9 v rest (unfold room in h)

pub unzigzag-zigzag : (x : ℤ) → unzigzag (zigzag x) ≡ x
unfolding unzigzag zigzag
unzigzag-zigzag (pos n) = ground arith
unzigzag-zigzag (negsuc n) = ground arith

pub zigzag_bound : (x : ℤ) → IsInt64 x → zigzag x < 2 ^ 64
unfolding zigzag
zigzag_bound (pos n) h = omega arith
zigzag_bound (negsuc n) h = omega arith

pub int64_of-uint64_of : (x : ℤ) → IsInt64 x → int64_of (uint64_of x) ≡ x
unfolding int64_of uint64_of
int64_of-uint64_of (pos n) h = ground arith
int64_of-uint64_of (negsuc n) h = ground arith

pub uint64_of_pos : (n : ℕ) → uint64_of (pos n) ≡ n
unfolding uint64_of
uint64_of_pos n = refl

pub uint64_of_bound : (x : ℤ) → IsInt64 x → uint64_of x < 2 ^ 64
unfolding uint64_of
uint64_of_bound (pos n) h = omega arith
uint64_of_bound (negsuc n) h = omega arith

pub zigzag_zero : (x : ℤ) → zigzag x ≡ 0 → x ≡ pos 0
unfolding zigzag
zigzag_zero (pos n) h = ground arith
zigzag_zero (negsuc n) h = absurd (omega arith)
