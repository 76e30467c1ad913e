-- ===== src/Ref/Flags.antt =====
-- internal/mailref/binary.go: the flag word of a message reference. `messageFlags` sets each of ten
-- flags by a condition, and every condition is read back from the word.
use mail_cli.Common.{ℕ, ◌+◌, ◌*◌, ◌/◌, ◌^◌, ◌<◌, ◌≤◌, ◌≡◌, Bool, true, false, ◌==◌, bit, arith}
use mail_cli.Ref.Writer.{has_flag}

bit_small : (b : Bool) → bit b ≤ 1
bit_small true = omega arith
bit_small false = omega arith

one_is_bit : (x : ℕ) (b : Bool) → x ≡ bit b → (x == 1) ≡ b
one_is_bit x true h = ground arith
one_is_bit x false h = ground arith

module _ (b0 b1 b2 b3 b4 b5 b6 b7 b8 b9 : Bool) where
  abbrev pub flag_word : ℕ
  flag_word =
      bit b0
      + 2 * bit b1
      + 4 * bit b2
      + 8 * bit b3
      + 16 * bit b4
      + 32 * bit b5
      + 64 * bit b6
      + 128 * bit b7
      + 256 * bit b8
      + 512 * bit b9

  low_bounds : (bit b0 ≤ 1) × (bit b1 ≤ 1) × (bit b2 ≤ 1) × (bit b3 ≤ 1) × (bit b4 ≤ 1)
  low_bounds = (bit_small b0, bit_small b1, bit_small b2, bit_small b3, bit_small b4)

  high_bounds : (bit b5 ≤ 1) × (bit b6 ≤ 1) × (bit b7 ≤ 1) × (bit b8 ≤ 1) × (bit b9 ≤ 1)
  high_bounds = (bit_small b5, bit_small b6, bit_small b7, bit_small b8, bit_small b9)

  pub flag_word_fits : (flag_word / 2 ^ 10 ≡ 0) × (flag_word < 2 ^ 64)
  flag_word_fits = (omega (arith, low_bounds, high_bounds), omega (arith, low_bounds, high_bounds))

  pub has_flag-word :
      (has_flag flag_word 0 ≡ b0)
      × (has_flag flag_word 1 ≡ b1)
      × (has_flag flag_word 2 ≡ b2)
      × (has_flag flag_word 3 ≡ b3)
      × (has_flag flag_word 4 ≡ b4)
      × (has_flag flag_word 5 ≡ b5)
      × (has_flag flag_word 6 ≡ b6)
      × (has_flag flag_word 7 ≡ b7)
      × (has_flag flag_word 8 ≡ b8)
      × (has_flag flag_word 9 ≡ b9)
  has_flag-word = (
    one_is_bit _ b0 (omega (arith, low_bounds, high_bounds)),
    one_is_bit _ b1 (omega (arith, low_bounds, high_bounds)),
    one_is_bit _ b2 (omega (arith, low_bounds, high_bounds)),
    one_is_bit _ b3 (omega (arith, low_bounds, high_bounds)),
    one_is_bit _ b4 (omega (arith, low_bounds, high_bounds)),
    one_is_bit _ b5 (omega (arith, low_bounds, high_bounds)),
    one_is_bit _ b6 (omega (arith, low_bounds, high_bounds)),
    one_is_bit _ b7 (omega (arith, low_bounds, high_bounds)),
    one_is_bit _ b8 (omega (arith, low_bounds, high_bounds)),
    one_is_bit _ b9 (omega (arith, low_bounds, high_bounds)),
  )
