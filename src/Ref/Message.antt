-- ===== src/Ref/Message.antt =====
-- internal/mailref/binary.go: encoding and decoding of message references.
use mail_cli.Common.{ℕ, ◌+◌, ◌*◌, ◌/◌, ◌^◌, Bool, true, false, not, ◌&&◌}
use mail_cli.Common.{none, some, List, [], ◌∷◌, ◌++◌, ltb, ◌==◌, if◌then◌else◌, length, bit}
use mail_cli.Ref.Varint.{ℤ, pos, uvarint_bytes, zigzag, int64_of, uint64_of}
use mail_cli.Ref.Text.{
  Bytes, TextLibrary, Result, ok, err, unknown_flags, noncanonical, sanitize_utf8, sanitize_path,
  subject_hash, validate_binary_bounds, canonical_decimal, format_uint, bytes_equal,
}
use mail_cli.Ref.Text
use mail_cli.Ref.Uuid.{parse_canonical_uuid}
use mail_cli.Ref.Reader.{
  Read, ◌>>=◌, pure, read_uvarint, read_varint, read_text, read_identifier, read_path, read_uint32,
  read_nonnegative, read_big_endian, finish,
}
use mail_cli.Ref.Writer.{
  binary_payload_marker, varint_bytes, text_bytes, identifier_bytes, path_bytes, big_endian_bytes,
  has_flag,
}
use mail_cli.Ref.Codec.{is_some, is_set, when, new_binary_reader, canonical_or_fail}

-- A message reference. The version is the constant 3; `expected_imap_mailbox_id` and the store
-- fields are int64.
pub record Message : Type 0 where
  pub account_id : Bytes
  pub mailbox_path : List Bytes
  pub library_id : Bytes
  pub expected_message_id : Bytes
  pub expected_imap_uid : ℕ
  pub expected_imap_uid_validity : ℕ
  pub expected_imap_mailbox_id : ℤ
  pub expected_subject : Bytes
  pub expected_subject_hash : ℕ
  pub expected_store_uuid : Bytes
  pub expected_store_mailbox_id : ℤ
  pub expected_store_message_id : ℤ
  pub expected_store_global_id : ℤ

-- A field that stands in the payload only under its flag.
unfoldable pub optional : {A : Type 0} → Bool → Read A → A → Read A
optional true read absent = read
optional false read absent = pure absent

pub record Store : Type 0 where
  pub uuid : Bytes
  pub mailbox_id : ℤ
  pub message_id : ℤ
  pub global_id : ℤ

unfoldable pub no_store : Store
no_store = record { uuid = []; mailbox_id = pos 0; message_id = pos 0; global_id = pos 0 }

module _ (lib : TextLibrary) where
  -- `PutVarint` takes more than eight bytes.
  unfoldable pub is_wide : ℤ → Bool
  is_wide value = ltb 8 (length (varint_bytes value))

  unfoldable pub hash_of : Message → ℕ
  hash_of ref =
      if is_set ref.expected_subject
      then subject_hash lib ref.expected_subject
      else ref.expected_subject_hash

  unfoldable pub has_store : Message → Bool
  has_store ref = is_set ref.expected_store_uuid

  -- `messageFlags`; each flag is set at most once, so the word is a sum.
  unfoldable pub message_flags : Message → ℕ
  unfolding has_store is_wide hash_of
  message_flags ref =
      bit (is_some (parse_canonical_uuid ref.account_id))
      + 2 * bit (has_store ref)
      + 4 * bit (elim (canonical_decimal ref.library_id) [ none ↦ false | some n ↦ true ])
      + 8 * bit (not (ref.expected_imap_uid == 0))
      + 16 * bit (not (zigzag ref.expected_imap_mailbox_id == 0))
      + 32 * bit (not (hash_of ref == 0))
      + 64 * bit (has_store ref && is_wide ref.expected_store_message_id)
      + 128 * bit (is_set ref.expected_message_id)
      + 256 * bit (not (ref.expected_imap_uid_validity == 0))
      + 512 * bit (has_store ref && not (is_some (parse_canonical_uuid ref.expected_store_uuid)))

  unfoldable pub library_bytes : Bytes → Bytes
  library_bytes library_id = elim (canonical_decimal library_id) [
    | none ↦ text_bytes library_id
    | some n ↦ uvarint_bytes n
  ]

  unfoldable pub store_message_bytes : ℤ → Bytes
  unfolding is_wide
  store_message_bytes value =
      if is_wide value then big_endian_bytes 8 (uint64_of value) else varint_bytes value

  unfoldable pub store_bytes : Message → Bytes
  unfolding store_message_bytes
  store_bytes ref =
      identifier_bytes ref.expected_store_uuid (parse_canonical_uuid ref.expected_store_uuid)
      ++ (varint_bytes ref.expected_store_mailbox_id
          ++ (store_message_bytes ref.expected_store_message_id
              ++ varint_bytes ref.expected_store_global_id))

  -- The account, the path, the library identifier and the Message-ID.
  unfoldable pub names_bytes : Message → Bytes
  unfolding library_bytes
  names_bytes ref =
      identifier_bytes ref.account_id (parse_canonical_uuid ref.account_id)
      ++ (path_bytes ref.mailbox_path
          ++ (library_bytes ref.library_id
              ++ when (is_set ref.expected_message_id) (text_bytes ref.expected_message_id)))

  unfoldable pub imap_bytes : Message → Bytes
  imap_bytes ref =
      when (not (ref.expected_imap_uid == 0)) (uvarint_bytes ref.expected_imap_uid)
      ++ (when (not (ref.expected_imap_uid_validity == 0))
            (uvarint_bytes ref.expected_imap_uid_validity)
          ++ when (not (zigzag ref.expected_imap_mailbox_id == 0))
              (uvarint_bytes (uint64_of ref.expected_imap_mailbox_id)))

  -- The fields in the order of the source, each under the test of its flag.
  unfoldable pub fields_bytes : Message → Bytes
  fields_bytes ref =
      names_bytes ref
      ++ (imap_bytes ref
          ++ (when (not (hash_of ref == 0)) (big_endian_bytes 4 (hash_of ref))
              ++ when (has_store ref) (store_bytes ref)))

  unfoldable pub message_payload : Message → Bytes
  message_payload ref =
      binary_payload_marker ∷ (uvarint_bytes (message_flags ref) ++ fields_bytes ref)

  unfoldable pub clean_message : Message → Message
  clean_message ref = record ref {
    account_id = sanitize_utf8 lib ref.account_id;
    mailbox_path = sanitize_path lib ref.mailbox_path;
    library_id = sanitize_utf8 lib ref.library_id;
    expected_message_id = sanitize_utf8 lib ref.expected_message_id;
    expected_store_uuid = sanitize_utf8 lib ref.expected_store_uuid;
  }

  unfoldable pub message_texts : Message → List Bytes
  message_texts ref =
      ref.account_id ∷ ref.library_id ∷ ref.expected_message_id ∷ ref.expected_store_uuid ∷ []

  unfoldable pub encode_binary_message : Message → Result Bytes
  encode_binary_message ref =
      let clean = clean_message ref in
      Text.◌>>=◌ (validate_binary_bounds clean.mailbox_path (message_texts clean))
        λ _. ok (message_payload clean)

  unfoldable pub read_library : Bool → Read Bytes
  read_library true = do n ← read_uvarint; pure (format_uint n)
  read_library false = read_text lib

  unfoldable pub read_wide : Bool → Read ℤ
  read_wide true = do n ← read_big_endian 8; pure (int64_of n)
  read_wide false = read_varint

  unfoldable pub read_store : ℕ → Read Store
  unfolding read_wide
  read_store flags = do
    uuid ← read_identifier lib (not (has_flag flags 9))
    mailbox_id ← read_varint
    message_id ← read_wide (has_flag flags 6)
    global_id ← read_varint
    pure (record {
      uuid = uuid;
      mailbox_id = mailbox_id;
      message_id = message_id;
      global_id = global_id;
    })

  unfoldable pub read_names : ℕ → Read (Bytes × List Bytes × Bytes × Bytes)
  unfolding optional read_library
  read_names flags = do
    account_id ← read_identifier lib (has_flag flags 0)
    mailbox_path ← read_path lib
    library_id ← read_library (has_flag flags 2)
    message_id ← optional (has_flag flags 7) (read_text lib) []
    pure (account_id, mailbox_path, library_id, message_id)

  unfoldable pub read_imap : ℕ → Read (ℕ × ℕ × ℤ)
  unfolding optional
  read_imap flags = do
    uid ← optional (has_flag flags 3) read_uint32 0
    uid_validity ← optional (has_flag flags 8) read_uint32 0
    mailbox_id ← optional (has_flag flags 4) read_nonnegative (pos 0)
    pure (uid, uid_validity, mailbox_id)

  unfoldable pub message_of : Bytes × List Bytes × Bytes × Bytes → ℕ × ℕ × ℤ → ℕ → Store → Message
  message_of (account_id, mailbox_path, library_id, message_id) (uid, uid_validity, mailbox_id) hash
        store =
      record {
        account_id = account_id;
        mailbox_path = mailbox_path;
        library_id = library_id;
        expected_message_id = message_id;
        expected_imap_uid = uid;
        expected_imap_uid_validity = uid_validity;
        expected_imap_mailbox_id = mailbox_id;
        expected_subject = [];
        expected_subject_hash = hash;
        expected_store_uuid = store.uuid;
        expected_store_mailbox_id = store.mailbox_id;
        expected_store_message_id = store.message_id;
        expected_store_global_id = store.global_id;
      }

  unfoldable pub message_body : ℕ → Read Message
  message_body flags = do
    names ← read_names flags
    imap ← read_imap flags
    hash ← optional (has_flag flags 5) (read_big_endian 4) 0
    store ← optional (has_flag flags 1) (read_store flags) no_store
    pure (message_of names imap hash store)

  unfoldable pub decode_binary_message : Bytes → Result Message
  decode_binary_message payload =
      let (flags, reader) = read_uvarint (new_binary_reader payload) in
      if not (flags / 2 ^ 10 == 0)
      then err unknown_flags
      else (Text.◌>>=◌ (finish (message_body flags reader))
          λ message. canonical_or_fail payload message (encode_binary_message message))
