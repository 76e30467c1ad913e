-- ===== src/Threading/Derive.antt =====
-- internal/mail/threading.go: `DeriveReplyInput` and `threadSubject`.
use mail_cli.Common.{ℕ, zero, suc, Bool, not, ◌&&◌, ◌||◌, ◌++◌}
use mail_cli.Common.{none, some, List, [], ◌∷◌, if◌then◌else◌, length, Bytes}
use mail_cli.Threading.{
  MailLibrary, Recipient, ThreadSource, Derived, derived, refused, recipients_malformed,
  in_reply_to_malformed, ◌>>=◌, is_empty, reply_target_recipients, promoted_reply_all_recipients,
  deduplicate_recipients_against,
}
use mail_cli.Threading.MessageIds.{scan_message_ids}
use mail_cli.Threading.Chain.{canonical_thread_references}

pub data DraftKind : Type 0 where
  reply forward : DraftKind

-- The fields of the draft input that are derived; every other field is passed on.
pub record DraftInput : Type 0 where
  pub subject : Bytes
  pub subject_set : Bool
  pub to_list : List Recipient
  pub to_set : Bool
  pub cc_list : List Recipient
  pub cc_set : Bool

-- "Re: " and "Fwd: ".
abbrev prefix_of : DraftKind → Bytes
prefix_of reply = b'R' ∷ b'e' ∷ b':' ∷ b' ' ∷ []
prefix_of forward = b'F' ∷ b'w' ∷ b'd' ∷ b':' ∷ b' ' ∷ []

module _ (lib : MailLibrary) where
  -- The loop of `threadSubject`. The number is fuel: each match takes at least two bytes away.
  unfoldable strip_prefixes : ℕ → Bytes → Bytes
  strip_prefixes zero trimmed = trimmed
  strip_prefixes (suc fuel) trimmed = elim (lib.strip_prefix trimmed) [
    | none ↦ trimmed
    | some rest ↦ strip_prefixes fuel (lib.trim_space rest)
  ]

  pub thread_subject : Bytes → DraftKind → Bytes
  unfolding strip_prefixes
  thread_subject subject kind =
      let trimmed = lib.trim_space subject in
      prefix_of kind ++ strip_prefixes (length trimmed) trimmed

  -- The reply targets, when a field is derived from them. A failure counts only for To.
  abbrev pub targets_for : (derive_to derive_cc : Bool) → ThreadSource → Derived (List Recipient)
  targets_for derive_to derive_cc source =
      if derive_to || derive_cc
      then (elim (reply_target_recipients lib source) [
        | derived targets ↦ derived targets
        | refused e ↦ if derive_to then refused e else derived []
      ])
      else derived []

  abbrev pub derives_to : DraftInput → Bool
  derives_to input = not input.to_set && is_empty input.to_list

  abbrev pub derives_cc : (reply_all : Bool) → DraftInput → Bool
  derives_cc reply_all input = reply_all && not input.cc_set && is_empty input.cc_list

  abbrev pub to_of : DraftInput → (targets : List Recipient) → List Recipient
  to_of input targets = if derives_to input then targets else input.to_list

  abbrev pub cc_of :
      ThreadSource
      → (reply_all : Bool) → DraftInput
      → (own_identities : List Bytes) → (targets : List Recipient) → List Recipient
  cc_of source reply_all input own_identities targets =
      if derives_cc reply_all input
      then (promoted_reply_all_recipients lib source.to_list source.cc_list targets
          (to_of input targets) own_identities)
      else input.cc_list

  -- To and CC once the targets are known.
  unfoldable pub with_targets :
      ThreadSource
      → (reply_all : Bool) → DraftInput
      → (own_identities : List Bytes) → (targets : List Recipient) → Derived DraftInput
  with_targets source reply_all input own_identities targets =
      let to_list = to_of input targets in
      let cc_list = cc_of source reply_all input own_identities targets in
      if derives_cc reply_all input && source.recipient_parse_error
      then refused recipients_malformed
      else derived (record input {
        to_list = to_list;
        cc_list = if reply_all then deduplicate_recipients_against lib cc_list to_list else cc_list;
      })

  unfoldable pub derive_recipients :
      ThreadSource
      → (reply_all : Bool) → DraftInput
      → (own_identities : List Bytes) → Derived DraftInput
  unfolding with_targets
  derive_recipients source reply_all input own_identities =
      targets_for (derives_to input) (derives_cc reply_all input) source
      >>= with_targets source reply_all input own_identities

  abbrev only_ancestor : List Bytes → Bytes
  only_ancestor (ancestor ∷ []) = ancestor
  only_ancestor _ = []

  -- The References header, or the one identifier of In-Reply-To where there is none.
  unfoldable pub ancestry : ThreadSource → Derived Bytes
  ancestry source =
      if is_empty source.references && not (is_empty source.in_reply_to)
      then (let (ancestors, complete) = scan_message_ids lib source.in_reply_to in
          if not complete || is_empty ancestors
          then refused in_reply_to_malformed
          else derived (only_ancestor ancestors))
      else derived source.references

  abbrev keep_recipients :
      DraftKind → ThreadSource → Bool → DraftInput → List Bytes → Derived DraftInput
  keep_recipients reply source reply_all input own = derive_recipients source reply_all input own
  keep_recipients forward source reply_all input own = derived input

  -- The draft, the In-Reply-To value and the References value.
  unfoldable pub derive_reply_input :
      ThreadSource
      → (subject : Bytes) → DraftKind
      → (reply_all : Bool) → DraftInput
      → (own_identities : List Bytes) → Derived (DraftInput × Bytes × Bytes)
  derive_reply_input source subject kind reply_all input own_identities =
      let new_subject =
        if input.subject_set || not (is_empty input.subject)
        then input.subject
        else thread_subject subject kind in
      keep_recipients kind source reply_all (record input { subject = new_subject }) own_identities
      >>= λ out. ancestry source >>= λ references.
          canonical_thread_references lib references source.message_id >>= λ chain.
          derived (out, source.message_id, chain)
