-- ===== src/Threading.antt =====
-- internal/mail/threading.go: what a reply or a forward takes from its source message. `net/mail`'s
-- address parser and printer, letter case and the scan for Message-IDs are parameters.
pub mod Recipients
pub mod MessageIds
pub mod Chain
pub mod Derive
pub mod Audience
pub mod Sender
mod Examples
use mail_cli.Common.{
  ℕ, ◌≡◌, Bool, true, false, not, ◌&&◌, ◌||◌, Option, none, some, List, [], ◌∷◌, ◌++◌,
}
use mail_cli.Common.{if◌then◌else◌, length, ◌==◌, ltb, drop, ◌-◌, Bytes, bytes_equal, contains, suc}

pub record Recipient : Type 0 where
  pub name : Bytes
  pub address : Bytes

-- What the code calls: `stdmail.ParseAddress` (the name and the address), `(&stdmail.Address{}).String()`,
-- `strings.ToLower`, and `strings.TrimSpace`.
pub record MailLibrary : Type 0 where
  pub parse_address : Bytes → Option (Bytes × Bytes)
  pub address_string : Bytes → Bytes
  pub to_lower : Bytes → Bytes
  pub trim_space : Bytes → Bytes
  pub valid_utf8 : Bytes → Bool
  -- The characters of a string, as `range` gives them, and `unicode.IsSpace`.
  pub runes : Bytes → List ℕ
  pub is_space : ℕ → Bool
  -- The text that replaces the subject when `subjectPrefix` matches it: the kept group and the rest.
  pub strip_prefix : Bytes → Option Bytes

-- Why a source is refused. All carry the code `invalid_message_source`.
pub data ThreadError : Type 0 where
  reply_to_malformed from_malformed no_reply_target recipients_malformed : ThreadError
  control_characters message_id_malformed references_malformed in_reply_to_malformed : ThreadError

pub data Derived {ℓ} (A : Type ℓ) : Type ℓ where
  derived : A → Derived A
  refused : ThreadError → Derived A

infixl 5 ◌>>=◌
abbrev pub ◌>>=◌ {ℓ κ} : {A : Type ℓ} {B : Type κ} → Derived A → (A → Derived B) → Derived B
derived a >>= f = f a
refused e >>= f = refused e

abbrev pub is_empty : {A : Type 0} → List A → Bool
is_empty [] = true
is_empty (x ∷ xs) = false

-- The text before the last byte `at` and the text after it, `strings.LastIndexByte`.
unfoldable pub cut_last : ℕ → Bytes → Option (Bytes × Bytes)
cut_last at [] = none
cut_last at (c ∷ cs) = elim (cut_last at cs) [
  | some (before, after) ↦ some (c ∷ before, after)
  | none ↦ if c == at then some ([], cs) else none
]

abbrev drop_last : Bytes → Bytes
drop_last [] = []
drop_last (c ∷ []) = []
drop_last (c ∷ d ∷ cs) = c ∷ drop_last (d ∷ cs)

pub record ThreadSource : Type 0 where
  pub from_text : Bytes
  pub from_parse_error : Bool
  pub reply_to : List Recipient
  pub reply_to_parse_error : Bool
  pub to_list : List Recipient
  pub cc_list : List Recipient
  pub message_id : Bytes
  pub references : Bytes
  pub in_reply_to : Bytes
  pub recipient_parse_error : Bool

abbrev pub identity_recipients : List Bytes → List Recipient
identity_recipients [] = []
identity_recipients (i ∷ is) = record { name = []; address = i } ∷ identity_recipients is

abbrev pub only_address : List Bytes → Bytes
only_address (address ∷ []) = address
only_address _ = []

module _ (lib : MailLibrary) where
  -- `MailboxAddrSpec`: the printed address without its angle brackets.
  unfoldable pub mailbox_addr_spec : Bytes → Bytes
  mailbox_addr_spec identity = drop_last (drop 1 (lib.address_string identity))

  -- `none` is the error.
  abbrev key_of_address : Bytes → Option Bytes
  key_of_address address = elim (cut_last b'@' address) [
    | none ↦ none
    | some (before, domain) ↦
        if is_empty before || is_empty domain
        then none
        else some (mailbox_addr_spec (before ++ (b'@' ∷ lib.to_lower domain)))
  ]

  unfoldable pub recipient_address_key : Recipient → Option Bytes
  recipient_address_key recipient = elim (lib.parse_address recipient.address) [
    | none ↦ none
    | some (name, address) ↦ if is_empty address then none else key_of_address address
  ]

  unfoldable pub recipient_from_formatted : Bytes → Option Recipient
  recipient_from_formatted formatted = elim (lib.parse_address formatted) [
    | none ↦ none
    | some (name, address) ↦ some (record { name = name; address = mailbox_addr_spec address })
  ]

  -- The keys of the recipients that have one, put into a set one after the other.
  unfoldable pub add_keys : List Recipient → List Bytes → List Bytes
  add_keys [] seen = seen
  add_keys (r ∷ rs) seen = elim (recipient_address_key r) [
    | none ↦ add_keys rs seen
    | some key ↦ add_keys rs (key ∷ seen)
  ]

  -- The loop of `derivedSenderIdentities` on one group.
  unfoldable pub add_identities : List Bytes → List Bytes → List Bytes
  add_identities [] addresses = addresses
  add_identities (candidate ∷ rest) addresses =
      elim (recipient_address_key (record { name = []; address = candidate })) [
        | none ↦ add_identities rest addresses
        | some key ↦
            add_identities rest
              (if contains key addresses then addresses else addresses ++ (key ∷ []))
      ]

  unfoldable pub derived_sender_identities : List Bytes → List Bytes → List Bytes → List Bytes
  derived_sender_identities email_addresses configured_aliases discovered =
      add_identities discovered
        (add_identities configured_aliases (add_identities email_addresses []))

  -- The inner loop of `derivedSenderAddress`; `none` is its early return. Addresses are not empty.
  unfoldable pub match_address : Bytes → List Bytes → Bytes → Option Bytes
  match_address key [] matched = some matched
  match_address key (address ∷ rest) matched =
      if bytes_equal key address
      then (if not (is_empty matched) && not (bytes_equal matched address)
          then none
          else match_address key rest address)
      else match_address key rest matched

  unfoldable pub match_recipients : List Bytes → List Recipient → Bytes → Option Bytes
  match_recipients addresses [] matched = some matched
  match_recipients addresses (r ∷ rs) matched = elim (recipient_address_key r) [
    | none ↦ none
    | some key ↦ elim (match_address key addresses matched) [
      | none ↦ none
      | some now ↦ match_recipients addresses rs now
    ]
  ]

  unfoldable pub derived_sender_address : List Bytes → ThreadSource → Bytes
  unfolding match_recipients
  derived_sender_address addresses source =
      if source.recipient_parse_error
      then []
      else elim (match_recipients addresses (source.to_list ++ source.cc_list) []) [
        | none ↦ []
        | some matched ↦ if is_empty matched then only_address addresses else matched
      ]

  -- The loop of `promotedReplyAllRecipients`.
  unfoldable pub promote : List Recipient → List Bytes → List Recipient
  promote [] seen = []
  promote (r ∷ rs) seen = elim (recipient_address_key r) [
    | none ↦ r ∷ promote rs seen
    | some key ↦
        let skipped = promote rs seen in
        let kept = promote rs (key ∷ seen) in
        if is_empty key || contains key seen then skipped else r ∷ kept
  ]

  unfoldable pub promoted_reply_all_recipients :
      (to_list cc_list targets existing_to : List Recipient) (own_identities : List Bytes)
      → List Recipient
  promoted_reply_all_recipients to_list cc_list targets existing_to own_identities =
      promote (to_list ++ cc_list)
        (add_keys existing_to (add_keys targets (add_keys (identity_recipients own_identities) [])))

  unfoldable pub reply_target_recipients : ThreadSource → Derived (List Recipient)
  reply_target_recipients source =
      if source.reply_to_parse_error
      then refused reply_to_malformed
      else if not (is_empty source.reply_to)
      then derived source.reply_to
      else if source.from_parse_error
      then refused from_malformed
      else if not (is_empty source.from_text)
      then (elim (recipient_from_formatted source.from_text) [
        | none ↦ refused from_malformed
        | some recipient ↦ derived (recipient ∷ [])
      ])
      else refused no_reply_target

  -- The loop of `deduplicateRecipientsAgainst`; an empty key is kept and not recorded.
  unfoldable pub deduplicate : List Recipient → List Bytes → List Recipient
  deduplicate [] seen = []
  deduplicate (r ∷ rs) seen = elim (recipient_address_key r) [
    | none ↦ r ∷ deduplicate rs seen
    | some key ↦
        let unrecorded = deduplicate rs seen in
        let recorded = deduplicate rs (key ∷ seen) in
        if is_empty key
        then r ∷ unrecorded
        else if contains key seen
        then unrecorded
        else r ∷ recorded
  ]

  unfoldable pub deduplicate_recipients_against :
      (recipients existing : List Recipient) → List Recipient
  deduplicate_recipients_against recipients existing = deduplicate recipients (add_keys existing [])
