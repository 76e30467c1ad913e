-- ===== src/Ref/Examples.antt =====
-- The theorems on internal/mailref/binary.go at concrete references. Every byte string is taken as
-- valid here, and the digest as zero.
use mail_cli.Common.{◌≡◌, refl, true, some, [], ◌∷◌, ◌++◌, arith}
use mail_cli.Ref.Varint.{pos, negsuc, uvarint_bytes, uvarint_of, uvarint_of-bytes}
use mail_cli.Ref.Text.{Bytes, TextLibrary, ok}
use mail_cli.Ref.Codec.{
  Mailbox, encode_binary_account, decode_binary_account, encode_binary_mailbox,
  decode_binary_mailbox,
}
use mail_cli.Ref.Message.{Message, encode_binary_message, decode_binary_message}
use mail_cli.Ref.RoundTrip.{decode-encode_account, decode-encode_mailbox}
use mail_cli.Ref.MessageReads.{IsCanonical}
use mail_cli.Ref.MessageTrip.{decode-encode_message}

abbrev plain : TextLibrary
plain = record { valid = λ s. true; to_valid = λ s. s; to_valid_valid = λ s. refl; sum32 = λ s. 0 }

-- "me".
abbrev me : Bytes
me = 109 ∷ 101 ∷ []

abbrev inbox : Mailbox
inbox = record { account_id = me; path = (105 ∷ 110 ∷ []) ∷ (109 ∷ []) ∷ [] }

abbrev letter : Message
letter = record {
  account_id = me;
  mailbox_path = (105 ∷ 110 ∷ []) ∷ [];
  library_id = 52 ∷ 50 ∷ [];
  expected_message_id = 60 ∷ 62 ∷ [];
  expected_imap_uid = 77;
  expected_imap_uid_validity = 0;
  expected_imap_mailbox_id = pos 3;
  expected_subject = [];
  expected_subject_hash = 5;
  expected_store_uuid = 120 ∷ [];
  expected_store_mailbox_id = pos 9;
  expected_store_message_id = negsuc 300;
  expected_store_global_id = pos 0;
}

letter-IsCanonical : IsCanonical plain letter
letter-IsCanonical = record {
  account = (omega arith, refl);
  path_short = omega arith;
  path = ((omega arith, refl), tt);
  library = (omega arith, refl);
  message_id = (omega arith, refl);
  store = (omega arith, refl);
  uid = omega arith;
  uid_validity = omega arith;
  mailbox_number = 3;
  mailbox_number_eq = refl;
  mailbox_number_fits = omega arith;
  subject = refl;
  hash = omega arith;
  store_mailbox = omega arith;
  store_message = omega arith;
  store_global = omega arith;
  no_store_mailbox = λ h. cc;
  no_store_message = λ h. cc;
  no_store_global = λ h. cc;
}

decode-encode_account_example :
    (payload : Bytes) × (encode_binary_account plain me ≡ ok payload)
    × (decode_binary_account plain payload ≡ ok me)
decode-encode_account_example = decode-encode_account plain me (omega arith, refl)

decode-encode_mailbox_example :
    (payload : Bytes) × (encode_binary_mailbox plain inbox.account_id inbox.path ≡ ok payload)
    × (decode_binary_mailbox plain payload ≡ ok inbox)
decode-encode_mailbox_example =
    decode-encode_mailbox plain inbox (omega arith, refl) (omega arith)
      ((omega arith, refl), ((omega arith, refl), tt))

decode-encode_message_example :
    (payload : Bytes) × (encode_binary_message plain letter ≡ ok payload)
    × (decode_binary_message plain payload ≡ ok letter)
decode-encode_message_example = decode-encode_message plain letter letter-IsCanonical

uvarint_of-bytes_example : uvarint_of (uvarint_bytes 300 ++ (7 ∷ [])) ≡ some (300, 7 ∷ [])
uvarint_of-bytes_example = uvarint_of-bytes 300 (7 ∷ []) (omega arith)
