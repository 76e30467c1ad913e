-- ===== src/Ref/Codec.antt =====
-- internal/mailref/binary.go: encoding and decoding of account and mailbox references.
use mail_cli.Common.{ℕ, ◌/◌, Bool, true, false, not}
use mail_cli.Common.{Option, none, some, List, [], ◌∷◌, ◌++◌, ◌==◌, if◌then◌else◌, bit}
use mail_cli.Ref.Varint.{uvarint_bytes}
use mail_cli.Ref.Text.{
  Bytes, TextLibrary, Result, ok, err, unknown_flags, noncanonical, sanitize_utf8, sanitize_path,
  subject_hash, validate_binary_bounds, canonical_decimal, format_uint, bytes_equal,
}
use mail_cli.Ref.Text
use mail_cli.Ref.Uuid.{parse_canonical_uuid}
use mail_cli.Ref.Reader.{
  BinaryReader, Read, ◌>>=◌, pure, read_uvarint, read_identifier, read_path, finish,
}
use mail_cli.Ref.Writer.{binary_payload_marker, identifier_bytes, path_bytes, has_flag}

abbrev pub is_some : Option Bytes → Bool
is_some none = false
is_some (some raw) = true

-- `value != ""`
abbrev pub is_set : Bytes → Bool
is_set [] = false
is_set (b ∷ bs) = true

abbrev pub when : Bool → Bytes → Bytes
when c bytes = if c then bytes else []

-- `newBinaryReader`: the payload without its marker.
unfoldable pub new_binary_reader : Bytes → BinaryReader
new_binary_reader [] = record { remaining = []; failure = none }
new_binary_reader (marker ∷ rest) = record { remaining = rest; failure = none }

-- The last test of each decoder: the result encodes to the payload.
unfoldable pub canonical_or_fail : {A : Type 0} → Bytes → A → Result Bytes → Result A
canonical_or_fail payload a (err e) = err noncanonical
canonical_or_fail payload a (ok canonical) =
    if bytes_equal canonical payload then ok a else err noncanonical

pub record Mailbox : Type 0 where
  pub account_id : Bytes
  pub path : List Bytes

module _ (lib : TextLibrary) where
  unfoldable pub account_payload : Bytes → Bytes
  account_payload account_id =
      let raw = parse_canonical_uuid account_id in
      binary_payload_marker ∷ (uvarint_bytes (bit (is_some raw)) ++ identifier_bytes account_id raw)

  unfoldable pub encode_binary_account : Bytes → Result Bytes
  unfolding account_payload
  encode_binary_account account_id =
      let clean = sanitize_utf8 lib account_id in
      Text.◌>>=◌ (validate_binary_bounds [] (clean ∷ [])) λ _. ok (account_payload clean)

  unfoldable pub account_body : ℕ → Read Bytes
  account_body flags = read_identifier lib (has_flag flags 0)

  unfoldable pub decode_binary_account : Bytes → Result Bytes
  unfolding account_body
  decode_binary_account payload =
      let (flags, reader) = read_uvarint (new_binary_reader payload) in
      if not (flags / 2 == 0)
      then err unknown_flags
      else (Text.◌>>=◌ (finish (account_body flags reader))
          λ account. canonical_or_fail payload account (encode_binary_account account))

  unfoldable pub mailbox_payload : Bytes → List Bytes → Bytes
  mailbox_payload account_id path =
      let raw = parse_canonical_uuid account_id in
      binary_payload_marker
      ∷ (uvarint_bytes (bit (is_some raw)) ++ (identifier_bytes account_id raw ++ path_bytes path))

  unfoldable pub encode_binary_mailbox : Bytes → List Bytes → Result Bytes
  unfolding mailbox_payload
  encode_binary_mailbox account_id path =
      let clean = sanitize_utf8 lib account_id in
      let clean_path = sanitize_path lib path in
      Text.◌>>=◌ (validate_binary_bounds clean_path (clean ∷ []))
        λ _. ok (mailbox_payload clean clean_path)

  unfoldable pub mailbox_body : ℕ → Read Mailbox
  mailbox_body flags = do
    account_id ← read_identifier lib (has_flag flags 0)
    path ← read_path lib
    pure (record { account_id = account_id; path = path })

  unfoldable pub decode_binary_mailbox : Bytes → Result Mailbox
  unfolding mailbox_body
  decode_binary_mailbox payload =
      let (flags, reader) = read_uvarint (new_binary_reader payload) in
      if not (flags / 2 == 0)
      then err unknown_flags
      else (Text.◌>>=◌ (finish (mailbox_body flags reader)) λ mailbox.
          canonical_or_fail payload mailbox (encode_binary_mailbox mailbox.account_id mailbox.path))
