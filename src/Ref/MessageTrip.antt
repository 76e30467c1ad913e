-- ===== src/Ref/MessageTrip.antt =====
-- internal/mailref/binary.go: a message reference that is encoded decodes to itself.
use mathlib.Core.List.{append_assoc}
use mail_cli.Common.{ℕ, ◌≡◌, refl, ap, sym, Bool, true, false, not, ◌&&◌}
use mail_cli.Common.{none, some, [], ◌∷◌, ◌++◌, ◌==◌, arith}
use mail_cli.Ref.Varint.{zigzag}
use mail_cli.Ref.Text.{Bytes, TextLibrary, ok, canonical_decimal}
use mail_cli.Ref.Uuid.{parse_canonical_uuid}
use mail_cli.Ref.Reader.{read_big_endian}
use mail_cli.Ref.Writer.{big_endian_bytes, has_flag}
use mail_cli.Ref.Codec.{is_some, is_set, when, new_binary_reader}
use mail_cli.Ref.Message.{
  Message, is_wide, hash_of, has_store, message_flags, store_bytes, names_bytes, imap_bytes,
  fields_bytes, message_payload, clean_message, message_texts, encode_binary_message, no_store,
  read_store, message_of, message_body, decode_binary_message,
}
use mail_cli.Ref.Reads.{ready, Reads, read_uvarint-Reads, read_big_endian-Reads}
use mail_cli.Ref.RoundTrip.{
  finish-Reads, canonical_or_fail_self, sanitize_utf8-IsText, sanitize_path-IsText, validate-IsText,
}
use mail_cli.Ref.Flags.{flag_word, flag_word_fits, has_flag-word}
use mail_cli.Ref.MessageReads.{
  IsCanonical, optional-Reads, names-Reads, imap-Reads, store_of, absent_store, store-Reads,
}

under : (f a b : Bool) → f ≡ (a && b) → a ≡ true → f ≡ b
under f a true h e = rw (h, e)
under f a false h e = rw (h, e)

under_not : (f a b : Bool) → f ≡ (a && not b) → a ≡ true → not f ≡ b
under_not f a true h e = rw (h, e)
under_not f a false h e = rw (h, e)

module _ (lib : TextLibrary) (ref : Message) (can : IsCanonical lib ref) where
  hash_of_canonical : hash_of lib ref ≡ ref.expected_subject_hash
  unfolding hash_of
  hash_of_canonical = rw can.subject

  absent : has_store lib ref ≡ false → is_set ref.expected_store_uuid ≡ false
  unfolding has_store
  absent h = h

  read_back :
      message_of lib
        (ref.account_id, ref.mailbox_path, ref.library_id, ref.expected_message_id)
        (ref.expected_imap_uid, ref.expected_imap_uid_validity, ref.expected_imap_mailbox_id)
        (hash_of lib ref)
        (store_of lib ref can 0)
      ≡ ref
  unfolding message_of
  read_back = rw (hash_of_canonical, sym can.subject) refl

  -- The ten conditions of `messageFlags`.
  abbrev word : ℕ
  word =
      flag_word (is_some (parse_canonical_uuid ref.account_id)) (has_store lib ref)
        (elim (canonical_decimal ref.library_id) [ none ↦ false | some n ↦ true ])
        (not (ref.expected_imap_uid == 0)) (not (zigzag ref.expected_imap_mailbox_id == 0))
        (not (hash_of lib ref == 0))
        (has_store lib ref && is_wide lib ref.expected_store_message_id)
        (is_set ref.expected_message_id) (not (ref.expected_imap_uid_validity == 0))
        (has_store lib ref && not (is_some (parse_canonical_uuid ref.expected_store_uuid)))

  flags_eq : message_flags lib ref ≡ word
  unfolding message_flags
  flags_eq = refl

  -- With the flags of the word, the fields are read back one group after the other.
  body-Reads :
      (flags : ℕ)
      → has_flag flags 0 ≡ is_some (parse_canonical_uuid ref.account_id)
      → has_flag flags 1 ≡ has_store lib ref
      → has_flag flags 2
        ≡ (elim (canonical_decimal ref.library_id) [ none ↦ false | some n ↦ true ])
      → has_flag flags 3 ≡ not (ref.expected_imap_uid == 0)
      → has_flag flags 4 ≡ not (zigzag ref.expected_imap_mailbox_id == 0)
      → has_flag flags 5 ≡ not (hash_of lib ref == 0)
      → has_flag flags 6 ≡ (has_store lib ref && is_wide lib ref.expected_store_message_id)
      → has_flag flags 7 ≡ is_set ref.expected_message_id
      → has_flag flags 8 ≡ not (ref.expected_imap_uid_validity == 0)
      → has_flag flags 9
        ≡ (has_store lib ref && not (is_some (parse_canonical_uuid ref.expected_store_uuid)))
      → Reads (message_body lib flags) (fields_bytes lib ref) ref
  unfolding message_body fields_bytes
  body-Reads flags f0 f1 f2 f3 f4 f5 f6 f7 f8 f9 rest =
      let names = names_bytes lib ref in
      let imap = imap_bytes lib ref in
      let hash = when (not (hash_of lib ref == 0)) (big_endian_bytes 4 (hash_of lib ref)) in
      let store = when (has_store lib ref) (store_bytes lib ref) in
      rw
        (
          append_assoc names (imap ++ (hash ++ store)) rest,
          append_assoc imap (hash ++ store) rest,
          append_assoc hash store rest,
          names-Reads lib ref can flags f0 f2 f7 (imap ++ (hash ++ (store ++ rest))),
          imap-Reads lib ref can flags f3 f8 f4 (hash ++ (store ++ rest)),
          f5,
          optional-Reads lib (not (hash_of lib ref == 0)) (read_big_endian 4)
              (big_endian_bytes 4 (hash_of lib ref)) (hash_of lib ref) 0
              (λ e. read_big_endian-Reads 4 (hash_of lib ref) (rw hash_of_canonical can.hash))
              (λ e. ground arith) (store ++ rest),
          f1,
          optional-Reads lib (has_store lib ref) (read_store lib flags) (store_bytes lib ref)
              (store_of lib ref can flags) no_store
              (λ e.
                store-Reads lib ref can flags
                  (under_not (has_flag flags 9) (has_store lib ref)
                    (is_some (parse_canonical_uuid ref.expected_store_uuid)) f9 e)
                  (under (has_flag flags 6) (has_store lib ref)
                    (is_wide lib ref.expected_store_message_id) f6 e))
              (λ e. absent_store lib ref can flags (absent e)) rest,
        )
        (ap (λ m. (m, ready rest)) read_back)

  encoded : encode_binary_message lib ref ≡ ok (message_payload lib ref)
  unfolding encode_binary_message clean_message message_texts
  encoded = rw (
    sanitize_utf8-IsText lib ref.account_id can.account,
    sanitize_utf8-IsText lib ref.library_id can.library,
    sanitize_utf8-IsText lib ref.expected_message_id can.message_id,
    sanitize_utf8-IsText lib ref.expected_store_uuid can.store,
    sanitize_path-IsText lib ref.mailbox_path can.path,
    validate-IsText lib ref.mailbox_path
        (ref.account_id ∷ ref.library_id ∷ ref.expected_message_id ∷ ref.expected_store_uuid ∷ [])
        can.path_short can.path (can.account, (can.library, (can.message_id, (can.store, tt)))),
  )

  body : Reads (message_body lib word) (fields_bytes lib ref) ref
  body =
      let (f0, f1, f2, f3, f4, f5, f6, f7, f8, f9) =
        has_flag-word (is_some (parse_canonical_uuid ref.account_id)) (has_store lib ref)
          (elim (canonical_decimal ref.library_id) [ none ↦ false | some n ↦ true ])
          (not (ref.expected_imap_uid == 0)) (not (zigzag ref.expected_imap_mailbox_id == 0))
          (not (hash_of lib ref == 0))
          (has_store lib ref && is_wide lib ref.expected_store_message_id)
          (is_set ref.expected_message_id) (not (ref.expected_imap_uid_validity == 0))
          (has_store lib ref && not (is_some (parse_canonical_uuid ref.expected_store_uuid))) in
      body-Reads word f0 f1 f2 f3 f4 f5 f6 f7 f8 f9

  pub decoded : decode_binary_message lib (message_payload lib ref) ≡ ok ref
  unfolding decode_binary_message message_payload new_binary_reader message_flags
  decoded =
      let (small, fits) =
        flag_word_fits (is_some (parse_canonical_uuid ref.account_id)) (has_store lib ref)
          (elim (canonical_decimal ref.library_id) [ none ↦ false | some n ↦ true ])
          (not (ref.expected_imap_uid == 0)) (not (zigzag ref.expected_imap_mailbox_id == 0))
          (not (hash_of lib ref == 0))
          (has_store lib ref && is_wide lib ref.expected_store_message_id)
          (is_set ref.expected_message_id) (not (ref.expected_imap_uid_validity == 0))
          (has_store lib ref && not (is_some (parse_canonical_uuid ref.expected_store_uuid))) in
      rw
        (
          flags_eq,
          read_uvarint-Reads word fits (fields_bytes lib ref),
          small,
          finish-Reads (message_body lib word) (fields_bytes lib ref) ref body,
          encoded,
        )
        (canonical_or_fail_self (message_payload lib ref) ref)

  -- A message reference in canonical form encodes, and the payload decodes to it: strings that are
  -- valid UTF-8 and within the bounds, a non-negative IMAP mailbox number, an empty subject (its
  -- hash is a field of its own), and no store numbers without a store.
  pub decode-encode_message :
      (payload : Bytes) × (encode_binary_message lib ref ≡ ok payload)
      × (decode_binary_message lib payload ≡ ok ref)
  decode-encode_message = (message_payload lib ref, encoded, decoded)
