-- ===== src/Ref/RoundTrip.antt =====
-- internal/mailref/binary.go: an account or a mailbox that is encoded decodes to itself.
use mathlib.Core.List.{append_assoc, append-nil}
use mail_cli.Common.{◌/◌, ◌^◌, ◌<◌, ◌≤◌, ◌≡◌, refl, Bool, true, false}
use mail_cli.Common.{List, [], ◌∷◌, ◌++◌, length, bit, arith, All}
use mail_cli.Ref.Text.{
  Bytes, TextLibrary, Result, ok, max_compact_list_length, strings_fit, validate_compact_path,
  validate_binary_bounds, sanitize_utf8, sanitize_path, bytes_equal_refl,
}
use mail_cli.Ref.Uuid.{parse_canonical_uuid}
use mail_cli.Ref.Reader.{Read, finish}
use mail_cli.Ref.Writer.{identifier_bytes, path_bytes, has_flag}
use mail_cli.Ref.Codec.{
  is_some, canonical_or_fail, new_binary_reader, Mailbox, account_payload, encode_binary_account,
  account_body, decode_binary_account, mailbox_payload, encode_binary_mailbox, mailbox_body,
  decode_binary_mailbox,
}
use mail_cli.Ref.Reads.{
  ready, Reads, IsText, read_uvarint-Reads, read_identifier-Reads, read_path-Reads,
}

pub finish-Reads :
    {A : Type 0} (m : Read A) (w : Bytes) (a : A) → Reads m w a → finish (m (ready w)) ≡ ok a
unfolding finish
finish-Reads m w a h = let done : m (ready w) ≡ (a, ready []) = rw append-nil at (h []) in rw done

pub has_flag_low : (b : Bool) → (has_flag (bit b) 0 ≡ b) × (bit b / 2 ≡ 0) × (bit b < 2 ^ 64)
has_flag_low true = (refl, refl, omega arith)
has_flag_low false = (refl, refl, omega arith)

pub canonical_or_fail_self :
    {A : Type 0} (payload : Bytes) (a : A) → canonical_or_fail payload a (ok payload) ≡ ok a
unfolding canonical_or_fail
canonical_or_fail_self payload a = rw bytes_equal_refl

pub ok_injective : {A : Type 0} {a b : A} → ◌≡◌ {A = Result A} (ok a) (ok b) → a ≡ b
ok_injective h = cc

module _ (lib : TextLibrary) where
  pub strings_fit-IsText : (ss : List Bytes) → All (IsText lib) ss → strings_fit ss ≡ true
  unfolding strings_fit
  strings_fit-IsText [] h = refl
  strings_fit-IsText (s ∷ ss) h = ground (arith, strings_fit-IsText ss h.1)

  pub sanitize_utf8-IsText : (s : Bytes) → IsText lib s → sanitize_utf8 lib s ≡ s
  unfolding sanitize_utf8
  sanitize_utf8-IsText s h = ground arith

  pub sanitize_path-IsText : (ss : List Bytes) → All (IsText lib) ss → sanitize_path lib ss ≡ ss
  unfolding sanitize_path
  sanitize_path-IsText [] h = refl
  sanitize_path-IsText (s ∷ ss) h =
      ground (arith, sanitize_utf8-IsText s h.0, sanitize_path-IsText ss h.1)

  pub validate-IsText :
      (path texts : List Bytes)
      → length path ≤ max_compact_list_length
      → All (IsText lib) path
      → All (IsText lib) texts
      → validate_binary_bounds path texts ≡ ok tt
  unfolding validate_binary_bounds validate_compact_path
  validate-IsText path texts short hp ht =
      ground (arith, strings_fit-IsText path hp, strings_fit-IsText texts ht)

  module _ (id : Bytes) (h : IsText lib id) where
    encoded_account : encode_binary_account lib id ≡ ok (account_payload lib id)
    unfolding encode_binary_account
    encoded_account =
        rw (sanitize_utf8-IsText id h, validate-IsText [] (id ∷ []) (omega arith) tt (h, tt))

    pub decoded_account : decode_binary_account lib (account_payload lib id) ≡ ok id
    unfolding decode_binary_account account_payload new_binary_reader
    decoded_account =
        let raw = parse_canonical_uuid id in
        let (low, small, fits) = has_flag_low (is_some raw) in
        let body : Reads (account_body lib (bit (is_some raw))) (identifier_bytes id raw) id =
          λ rest. rw low (read_identifier-Reads lib id raw refl h rest) in
        rw
          (
            read_uvarint-Reads (bit (is_some raw)) fits (identifier_bytes id raw),
            small,
            finish-Reads (account_body lib (bit (is_some raw))) (identifier_bytes id raw) id body,
            encoded_account,
          )
          (canonical_or_fail_self (account_payload lib id) id)

    -- A valid account identifier encodes, and the payload decodes to it.
    pub decode-encode_account :
        (payload : Bytes) × (encode_binary_account lib id ≡ ok payload)
        × (decode_binary_account lib payload ≡ ok id)
    decode-encode_account = (account_payload lib id, encoded_account, decoded_account)

  module _ (mailbox : Mailbox) (h : IsText lib mailbox.account_id)
      (short : length mailbox.path ≤ max_compact_list_length)
      (hp : All (IsText lib) mailbox.path) where
    mailbox_bytes : Bytes
    mailbox_bytes = mailbox_payload lib mailbox.account_id mailbox.path

    encoded_mailbox :
        encode_binary_mailbox lib mailbox.account_id mailbox.path
        ≡ ok (mailbox_payload lib mailbox.account_id mailbox.path)
    unfolding encode_binary_mailbox
    encoded_mailbox = rw (
      sanitize_utf8-IsText mailbox.account_id h,
      sanitize_path-IsText mailbox.path hp,
      validate-IsText mailbox.path (mailbox.account_id ∷ []) short hp (h, tt),
    )

    pub decoded_mailbox :
        decode_binary_mailbox lib (mailbox_payload lib mailbox.account_id mailbox.path) ≡ ok mailbox
    unfolding decode_binary_mailbox mailbox_payload new_binary_reader
    decoded_mailbox =
        let raw = parse_canonical_uuid mailbox.account_id in
        let (low, small, fits) = has_flag_low (is_some raw) in
        let written = identifier_bytes mailbox.account_id raw ++ path_bytes mailbox.path in
        let body : Reads (mailbox_body lib (bit (is_some raw))) written mailbox = λ rest.
          unfold mailbox_body in
          rw
            (
              low,
              append_assoc (identifier_bytes mailbox.account_id raw) (path_bytes mailbox.path) rest,
              read_identifier-Reads lib mailbox.account_id raw refl h
                  (path_bytes mailbox.path ++ rest),
              read_path-Reads lib mailbox.path short hp rest,
            )
            refl in
        rw
          (
            read_uvarint-Reads (bit (is_some raw)) fits written,
            small,
            finish-Reads (mailbox_body lib (bit (is_some raw))) written mailbox body,
            encoded_mailbox,
          )
          (canonical_or_fail_self (mailbox_payload lib mailbox.account_id mailbox.path) mailbox)

    -- A mailbox reference whose identifier and path components are valid strings within the bounds,
    -- encodes, and the payload decodes to it.
    pub decode-encode_mailbox :
        (payload : Bytes) × (encode_binary_mailbox lib mailbox.account_id mailbox.path ≡ ok payload)
        × (decode_binary_mailbox lib payload ≡ ok mailbox)
    decode-encode_mailbox =
        (mailbox_payload lib mailbox.account_id mailbox.path, encoded_mailbox, decoded_mailbox)
