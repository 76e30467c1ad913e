-- ===== src/Ref/MessageReads.antt =====
-- internal/mailref/binary.go: each group of fields of a message reference is read back as it was written.
use mathlib.Core.List.{append_assoc}
use mail_cli.Common.{ℕ, ◌^◌, ◌<◌, ◌≤◌, ◌≡◌, refl, sym, Bool, true, false, not}
use mail_cli.Common.{none, some, [], ◌∷◌, ◌++◌, ◌==◌, length, arith, All}
use mail_cli.Common.{Bool-cases, Option-cases, inl, inr}
use mail_cli.Ref.Varint.{
  ℤ, pos, IsInt64, uvarint_bytes, zigzag, uint64_of, int64_of-uint64_of, uint64_of_bound,
  zigzag_zero,
}
use mail_cli.Ref.Text.{
  Bytes, TextLibrary, max_compact_list_length, canonical_decimal, canonical_decimal_sound,
}
use mail_cli.Ref.Uuid.{parse_canonical_uuid}
use mail_cli.Ref.Reader.{Read, read_text, read_uint32, read_nonnegative}
use mail_cli.Ref.Writer.{varint_bytes, text_bytes, identifier_bytes, path_bytes, has_flag}
use mail_cli.Ref.Codec.{is_some, is_set, when}
use mail_cli.Ref.Message.{
  Message, is_wide, library_bytes, store_message_bytes, store_bytes, names_bytes, imap_bytes,
  optional, read_library, Store, no_store, read_wide, read_store, read_names, read_imap,
}
use mail_cli.Ref.Reads.{
  Reads, IsText, read_uvarint-Reads, read_varint-Reads, read_text-Reads, read_identifier-Reads,
  read_path-Reads, read_uint32-Reads, read_nonnegative-Reads, read_big_endian-Reads,
}

-- A message reference as decoding makes one: strings that are valid and within the bounds, no
-- subject text, the integers in their ranges, and no store numbers without a store.
pub record IsCanonical (lib : TextLibrary) (ref : Message) : Type 0 where
  pub account : IsText lib ref.account_id
  pub path_short : length ref.mailbox_path ≤ max_compact_list_length
  pub path : All (IsText lib) ref.mailbox_path
  pub library : IsText lib ref.library_id
  pub message_id : IsText lib ref.expected_message_id
  pub store : IsText lib ref.expected_store_uuid
  pub uid : ref.expected_imap_uid < 2 ^ 32
  pub uid_validity : ref.expected_imap_uid_validity < 2 ^ 32
  pub mailbox_number : ℕ
  pub mailbox_number_eq : ref.expected_imap_mailbox_id ≡ pos mailbox_number
  pub mailbox_number_fits : mailbox_number < 2 ^ 63
  pub subject : ref.expected_subject ≡ []
  pub hash : ref.expected_subject_hash < 2 ^ 32
  pub store_mailbox : IsInt64 ref.expected_store_mailbox_id
  pub store_message : IsInt64 ref.expected_store_message_id
  pub store_global : IsInt64 ref.expected_store_global_id
  pub no_store_mailbox :
      is_set ref.expected_store_uuid ≡ false → ref.expected_store_mailbox_id ≡ pos 0
  pub no_store_message :
      is_set ref.expected_store_uuid ≡ false → ref.expected_store_message_id ≡ pos 0
  pub no_store_global :
      is_set ref.expected_store_uuid ≡ false → ref.expected_store_global_id ≡ pos 0

is_set-false : (s : Bytes) → is_set s ≡ false → s ≡ []
is_set-false [] h = refl
is_set-false (b ∷ bs) h = cc

module _ (lib : TextLibrary) where
  pub optional-Reads :
      {A : Type 0} (c : Bool) (m : Read A) (w : Bytes) (a absent : A)
      → (c ≡ true → Reads m w a)
      → (c ≡ false → absent ≡ a)
      → Reads (optional c m absent) (when c w) a
  unfolding optional
  optional-Reads true m w a absent h h' rest = h refl rest
  optional-Reads false m w a absent h h' rest = rw (h' refl)

  library-Reads :
      (s : Bytes)
      → IsText lib s
      → Reads
          (read_library lib (elim (canonical_decimal s) [ none ↦ false | some n ↦ true ]))
          (library_bytes lib s)
          s
  unfolding library_bytes read_library
  library-Reads s h rest = elim (Option-cases (canonical_decimal s)) [
    | inl e ↦ rw (e, library_bytes) (read_text-Reads lib s h rest)
    | inr (n, e) ↦
        let (same, fits) = canonical_decimal_sound s n e in
        rw (e, library_bytes) (rw (read_uvarint-Reads n fits rest) (rw same))
  ]

  wide-Reads :
      (x : ℤ) → IsInt64 x → Reads (read_wide lib (is_wide lib x)) (store_message_bytes lib x) x
  unfolding read_wide store_message_bytes
  wide-Reads x h rest = elim (Bool-cases (is_wide lib x)) [
    | inl e ↦ rw e (
        rw (read_big_endian-Reads 8 (uint64_of x) (uint64_of_bound x h) rest)
          (rw (int64_of-uint64_of x h)))
    | inr e ↦ rw e (read_varint-Reads x h rest)
  ]

  module _ (ref : Message) (can : IsCanonical lib ref) (flags : ℕ) where
    pub names-Reads :
        has_flag flags 0 ≡ is_some (parse_canonical_uuid ref.account_id)
        → has_flag flags 2
          ≡ (elim (canonical_decimal ref.library_id) [ none ↦ false | some n ↦ true ])
        → has_flag flags 7 ≡ is_set ref.expected_message_id
        → Reads
            (read_names lib flags)
            (names_bytes lib ref)
            (ref.account_id, ref.mailbox_path, ref.library_id, ref.expected_message_id)
    unfolding read_names names_bytes
    names-Reads f0 f2 f7 rest =
        let id = identifier_bytes ref.account_id (parse_canonical_uuid ref.account_id) in
        let path = path_bytes ref.mailbox_path in
        let library = library_bytes lib ref.library_id in
        let message_id =
          when (is_set ref.expected_message_id) (text_bytes ref.expected_message_id) in
        rw
          (
            f0,
            f2,
            f7,
            append_assoc id (path ++ (library ++ message_id)) rest,
            append_assoc path (library ++ message_id) rest,
            append_assoc library message_id rest,
            read_identifier-Reads lib ref.account_id _ refl can.account
                (path ++ (library ++ (message_id ++ rest))),
            read_path-Reads lib ref.mailbox_path can.path_short can.path
                (library ++ (message_id ++ rest)),
            library-Reads ref.library_id can.library (message_id ++ rest),
            optional-Reads (is_set ref.expected_message_id) (read_text lib)
                (text_bytes ref.expected_message_id) ref.expected_message_id []
                (λ e. read_text-Reads lib ref.expected_message_id can.message_id)
                (λ e. sym (is_set-false ref.expected_message_id e)) rest,
          )
          refl

    mailbox_number-Reads :
        Reads read_nonnegative
          (uvarint_bytes (uint64_of ref.expected_imap_mailbox_id))
          ref.expected_imap_mailbox_id
    mailbox_number-Reads =
        rw can.mailbox_number_eq (read_nonnegative-Reads can.mailbox_number can.mailbox_number_fits)

    pub imap-Reads :
        has_flag flags 3 ≡ not (ref.expected_imap_uid == 0)
        → has_flag flags 8 ≡ not (ref.expected_imap_uid_validity == 0)
        → has_flag flags 4 ≡ not (zigzag ref.expected_imap_mailbox_id == 0)
        → Reads
            (read_imap lib flags)
            (imap_bytes lib ref)
            (ref.expected_imap_uid, ref.expected_imap_uid_validity, ref.expected_imap_mailbox_id)
    unfolding read_imap imap_bytes
    imap-Reads f3 f8 f4 rest =
        let a = when (not (ref.expected_imap_uid == 0)) (uvarint_bytes ref.expected_imap_uid) in
        let b =
          when (not (ref.expected_imap_uid_validity == 0))
            (uvarint_bytes ref.expected_imap_uid_validity) in
        let c =
          when (not (zigzag ref.expected_imap_mailbox_id == 0))
            (uvarint_bytes (uint64_of ref.expected_imap_mailbox_id)) in
        rw
          (
            f3,
            f8,
            f4,
            append_assoc a (b ++ c) rest,
            append_assoc b c rest,
            optional-Reads (not (ref.expected_imap_uid == 0)) read_uint32
                (uvarint_bytes ref.expected_imap_uid) ref.expected_imap_uid 0
                (λ e. read_uint32-Reads ref.expected_imap_uid can.uid) (λ e. ground arith)
                (b ++ (c ++ rest)),
            optional-Reads (not (ref.expected_imap_uid_validity == 0)) read_uint32
                (uvarint_bytes ref.expected_imap_uid_validity) ref.expected_imap_uid_validity 0
                (λ e. read_uint32-Reads ref.expected_imap_uid_validity can.uid_validity)
                (λ e. ground arith) (c ++ rest),
            optional-Reads (not (zigzag ref.expected_imap_mailbox_id == 0)) read_nonnegative
                (uvarint_bytes (uint64_of ref.expected_imap_mailbox_id))
                ref.expected_imap_mailbox_id (pos 0) (λ e. mailbox_number-Reads)
                (λ e. sym (zigzag_zero ref.expected_imap_mailbox_id (ground arith))) rest,
          )
          refl

    abbrev pub store_of : Store
    store_of = record {
      uuid = ref.expected_store_uuid;
      mailbox_id = ref.expected_store_mailbox_id;
      message_id = ref.expected_store_message_id;
      global_id = ref.expected_store_global_id;
    }

    pub absent_store : is_set ref.expected_store_uuid ≡ false → no_store ≡ store_of
    unfolding no_store
    absent_store h =
        rw
          (
            is_set-false ref.expected_store_uuid h,
            can.no_store_mailbox h,
            can.no_store_message h,
            can.no_store_global h,
          )
          refl

    pub store-Reads :
        not (has_flag flags 9) ≡ is_some (parse_canonical_uuid ref.expected_store_uuid)
        → has_flag flags 6 ≡ is_wide lib ref.expected_store_message_id
        → Reads (read_store lib flags) (store_bytes lib ref) store_of
    unfolding read_store store_bytes
    store-Reads f9 f6 rest =
        let id =
          identifier_bytes ref.expected_store_uuid (parse_canonical_uuid ref.expected_store_uuid) in
        let mailbox = varint_bytes ref.expected_store_mailbox_id in
        let message = store_message_bytes lib ref.expected_store_message_id in
        let global = varint_bytes ref.expected_store_global_id in
        rw
          (
            f9,
            f6,
            append_assoc id (mailbox ++ (message ++ global)) rest,
            append_assoc mailbox (message ++ global) rest,
            append_assoc message global rest,
            read_identifier-Reads lib ref.expected_store_uuid _ refl can.store
                (mailbox ++ (message ++ (global ++ rest))),
            read_varint-Reads ref.expected_store_mailbox_id can.store_mailbox
                (message ++ (global ++ rest)),
            wide-Reads ref.expected_store_message_id can.store_message (global ++ rest),
            read_varint-Reads ref.expected_store_global_id can.store_global rest,
          )
          refl
