-- ===== src/Errors/Safety.antt =====
-- internal/transport/errors.go and classification.go: an outcome that is uncertain anywhere in an error
-- is never reported as a failure that may be repeated.
use mail_cli.Common.{◌≡◌, ◌≢◌, refl, Bool, true, false, not, ◌&&◌, List, [], ◌∷◌, Bytes, arith}
use mail_cli.Common.{bytes_equal, bytes_equal_refl, bytes_equal→eq, contains, Bool-cases, inl, inr}
use mail_cli.Errors.Codes.{
  imap_connect_failed, imap_fetch_failed, imap_canceled, imap_disconnected, imap_timeout,
  smtp_timeout, smtp_transfer_timeout,
}
use mail_cli.Errors.{
  Failure, first_code, or_blank, has_code, uncertain_codes, first_match, error_code,
  is_transient_read_failure, is_transient_transport_failure,
}

no_code : (x : Bytes) → contains x [] ≢ true
unfolding contains
no_code x h = cc

contains_later :
    (x c : Bytes) (codes : List Bytes) → contains x codes ≡ true → contains x (c ∷ codes) ≡ true
unfolding contains
contains_later x c codes h = ground (arith, h)

contains_first : (c : Bytes) (codes : List Bytes) → contains c (c ∷ codes) ≡ true
unfolding contains
contains_first c codes = ground (arith, bytes_equal_refl c)

contains_not_first :
    (x c : Bytes) (codes : List Bytes)
    → contains x (c ∷ codes) ≡ true
    → bytes_equal x c ≡ false
    → contains x codes ≡ true
unfolding contains
contains_not_first x c codes h other = rw other at h

later_match :
    (c : Bytes) (codes : List Bytes) (err : Failure) (otherwise : Bytes)
    → has_code c err ≡ false
    → first_match (c ∷ codes) err otherwise ≡ first_match codes err otherwise
unfolding first_match
later_match c codes err otherwise e = rw (e, first_match) refl

this_match :
    (c : Bytes) (codes : List Bytes) (err : Failure) (otherwise : Bytes)
    → has_code c err ≡ true
    → first_match (c ∷ codes) err otherwise ≡ c
unfolding first_match
this_match c codes err otherwise e = rw (e, first_match) refl

first_match-contains :
    (codes : List Bytes) (err : Failure) (otherwise code : Bytes)
    → contains code codes ≡ true
    → has_code code err ≡ true
    → contains (first_match codes err otherwise) codes ≡ true
first_match-contains [] err otherwise code listed h = absurd (no_code code listed)
first_match-contains (c ∷ codes) err otherwise code listed h = elim (Bool-cases (has_code c err)) [
  | inl e ↦ rw (this_match c codes err otherwise e) (contains_first c codes)
  | inr e ↦ elim (Bool-cases (bytes_equal code c)) [
    | inl same ↦ cc (rw (bytes_equal→eq code c same) at h)
    | inr other ↦ rw (later_match c codes err otherwise e) (
        contains_later _ c codes (
          first_match-contains codes err otherwise code
            (contains_not_first code c codes listed other) h))
  ]
]

-- The codes of failures that may be repeated.
abbrev transient_codes : List Bytes
transient_codes =
    imap_connect_failed ∷ imap_fetch_failed ∷ imap_canceled ∷ imap_disconnected ∷ imap_timeout
    ∷ smtp_timeout ∷ smtp_transfer_timeout ∷ []

abbrev apart : List Bytes → List Bytes → Bool
apart [] ys = true
apart (x ∷ xs) ys = not (contains x ys) && apart xs ys

apart_sound :
    (xs ys : List Bytes) (x : Bytes)
    → apart xs ys ≡ true
    → contains x xs ≡ true
    → contains x ys ≡ false
unfolding contains
apart_sound [] ys x h inside = cc
apart_sound (y ∷ xs) ys x h inside = elim (Bool-cases (bytes_equal x y)) [
  | inl same ↦ rw (bytes_equal→eq x y same) (ground (arith, h))
  | inr other ↦ apart_sound xs ys x (ground (arith, h)) (rw other at inside)
]

codes_apart : apart transient_codes uncertain_codes ≡ true
unfolding contains bytes_equal
codes_apart = refl

transient_code :
    (err : Failure)
    → is_transient_transport_failure err ≡ true
    → contains (error_code err) transient_codes ≡ true
unfolding is_transient_transport_failure is_transient_read_failure contains
transient_code err h =
    let code = error_code err in
    elim (Bool-cases (bytes_equal code imap_connect_failed)) [
      | inl e ↦ ground (arith, e)
      | inr e ↦ elim (Bool-cases (bytes_equal code imap_fetch_failed)) [
        | inl e' ↦ ground (arith, e, e')
        | inr e' ↦ ground (arith, rw (e, e') at h, e, e')
      ]
    ]

-- A failure that is classified as transient, and may be repeated unchanged, has no error of an
-- uncertain outcome anywhere in its tree of causes.
pub transient-certain :
    (err : Failure) (code : Bytes)
    → is_transient_transport_failure err ≡ true
    → contains code uncertain_codes ≡ true
    → has_code code err ≡ false
unfolding error_code
transient-certain err code h listed = elim (Bool-cases (has_code code err)) [
  | inr e ↦ e
  | inl e ↦
      let uncertain =
        first_match-contains uncertain_codes err (or_blank (first_code err)) code listed e in
      let certain =
        apart_sound transient_codes uncertain_codes (error_code err) codes_apart
          (transient_code err h) in
      cc (uncertain, certain)
]
