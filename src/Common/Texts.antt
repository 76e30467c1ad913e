-- ===== src/Common/Texts.antt =====
-- Go strings as lists of bytes: equality, membership and duplicate removal.
use Prim.Native.Nat.{ℕ, zero, suc}
use mathlib.Core.Path.{◌≡◌, refl}
use mathlib.Core.Bool.{Bool, true, false, not, ◌&&◌, ◌||◌}
use mathlib.Core.List.{List, [], ◌∷◌, ◌++◌}
use native.Mathlib.Omega.{arith}
use mail_cli.Common.Tests.{◌==◌}
use mail_cli.Common.Lists.{drop}

abbrev pub Bytes : Type 0
Bytes = List ℕ

unfoldable pub bytes_equal : Bytes → Bytes → Bool
bytes_equal [] [] = true
bytes_equal (a ∷ xs) (b ∷ ys) = a == b && bytes_equal xs ys
bytes_equal _ _ = false

pub bytes_equal_refl : (a : Bytes) → bytes_equal a a ≡ true
unfolding bytes_equal
bytes_equal_refl [] = refl
bytes_equal_refl (a ∷ xs) = ground (arith, bytes_equal_refl xs)

pub bytes_equal→eq : (a b : Bytes) → bytes_equal a b ≡ true → a ≡ b
unfolding bytes_equal
bytes_equal→eq [] [] h = refl
bytes_equal→eq [] (b ∷ ys) h = cc
bytes_equal→eq (a ∷ xs) [] h = cc
bytes_equal→eq (a ∷ xs) (b ∷ ys) h = ground (arith, bytes_equal→eq xs ys)

pub bytes_equal_comm : (a b : Bytes) → bytes_equal a b ≡ bytes_equal b a
unfolding bytes_equal
bytes_equal_comm [] [] = refl
bytes_equal_comm [] (b ∷ ys) = refl
bytes_equal_comm (a ∷ xs) [] = refl
bytes_equal_comm (a ∷ xs) (b ∷ ys) = ground (arith, bytes_equal_comm xs ys)

-- `_, found := set[key]`
unfoldable pub contains : Bytes → List Bytes → Bool
contains key [] = false
contains key (k ∷ ks) = bytes_equal key k || contains key ks

-- No entry occurs twice.
unfoldable pub distinct : List Bytes → Bool
distinct [] = true
distinct (x ∷ xs) = not (contains x xs) && distinct xs

pub contains-append :
    (x : Bytes) (xs ys : List Bytes) → contains x (xs ++ ys) ≡ (contains x xs || contains x ys)
unfolding contains
contains-append x [] ys = refl
contains-append x (k ∷ xs) ys = ground (arith, contains-append x xs ys)

pub distinct-append_one :
    (xs : List Bytes) (x : Bytes)
    → distinct xs ≡ true
    → contains x xs ≡ false
    → distinct (xs ++ (x ∷ [])) ≡ true
unfolding distinct contains
distinct-append_one [] x h n = refl
distinct-append_one (k ∷ xs) x h n =
    ground (arith, contains-append k xs (x ∷ []), distinct-append_one xs x, bytes_equal_comm k x)

pub distinct-drop : (n : ℕ) (xs : List Bytes) → distinct xs ≡ true → distinct (drop n xs) ≡ true
unfolding distinct
distinct-drop zero xs h = h
distinct-drop (suc n) [] h = refl
distinct-drop (suc n) (x ∷ xs) h = distinct-drop n xs (ground (arith, h))

pub contains-drop :
    (n : ℕ) (xs : List Bytes) (x : Bytes) → contains x (drop n xs) ≡ true → contains x xs ≡ true
unfolding contains
contains-drop zero xs x h = h
contains-drop (suc n) [] x h = h
contains-drop (suc n) (y ∷ xs) x h = ground (arith, contains-drop n xs x h)
