-- ===== src/Threading/Examples.antt =====
-- The theorems on internal/mail/threading.go at a small message.
use mail_cli.Common.{
  List, All, ◌≡◌, ◌≢◌, refl, true, false, ◌⊎◌, none, some, [], ◌∷◌, ◌++◌, Bytes, bytes_equal, arith,
  contains,
}
use mail_cli.Threading.{
  MailLibrary, Recipient, ThreadSource, derived, promoted_reply_all_recipients,
  deduplicate_recipients_against, identity_recipients, deduplicate, recipient_address_key, cut_last,
  mailbox_addr_spec, add_keys,
}
use mail_cli.Threading.MessageIds.{cut_ids, cut_ids_returns}
use mail_cli.Threading.Chain.{ChainSpec, thread_chain, thread_chain-Spec}
use mail_cli.Threading.Recipients.{KeysSpec, deduplicate-Spec, promoted-Spec}
use mail_cli.Threading.Derive.{DraftInput, derive_recipients}
use mail_cli.Threading.{match_address, match_recipients, derived_sender_address}
use mail_cli.Threading.Sender.{Agrees, derived_sender-Spec}
use mail_cli.Threading.Audience.{Separate, reply_all-Separate}

-- Addresses without names, printed between angle brackets.
abbrev plain : MailLibrary
plain = record {
  parse_address = λ s. some ([], s);
  address_string = λ s. b'<' ∷ (s ++ (b'>' ∷ []));
  to_lower = λ s. s;
  trim_space = λ s. s;
  valid_utf8 = λ s. true;
  runes = λ s. s;
  is_space = λ c. false;
  strip_prefix = λ s. none;
}

-- "<a@b>" and "<c@d>".
abbrev first_id : Bytes
first_id = b'<' ∷ b'a' ∷ b'@' ∷ b'b' ∷ b'>' ∷ []

abbrev second_id : Bytes
second_id = b'<' ∷ b'c' ∷ b'@' ∷ b'd' ∷ b'>' ∷ []

-- "a@b" and "c@d".
abbrev ann : Recipient
ann = record { name = []; address = b'a' ∷ b'@' ∷ b'b' ∷ [] }

abbrev cid : Recipient
cid = record { name = []; address = b'c' ∷ b'@' ∷ b'd' ∷ [] }

cut_ids_returns_example : cut_ids plain 6 first_id ≢ none
cut_ids_returns_example = cut_ids_returns plain 6 first_id (omega arith)

thread_chain-Spec_example :
    ChainSpec second_id
      (second_id ∷ first_id ∷ [])
      (thread_chain second_id (second_id ∷ first_id ∷ []))
thread_chain-Spec_example = thread_chain-Spec second_id (second_id ∷ first_id ∷ [])

deduplicate-Spec_example :
    KeysSpec plain
      (ann ∷ [])
      (cid ∷ ann ∷ cid ∷ [])
      (deduplicate_recipients_against plain (cid ∷ ann ∷ cid ∷ []) (ann ∷ []))
deduplicate-Spec_example = deduplicate-Spec plain (cid ∷ ann ∷ cid ∷ []) (ann ∷ [])

promoted-Spec_example :
    KeysSpec plain
      (identity_recipients (ann.address ∷ []))
      (ann ∷ cid ∷ [])
      (promoted_reply_all_recipients plain (ann ∷ []) (cid ∷ []) [] [] (ann.address ∷ []))
promoted-Spec_example = promoted-Spec plain (ann ∷ []) (cid ∷ []) [] [] (ann.address ∷ [])

abbrev source : ThreadSource
source = record {
  from_text = cid.address;
  from_parse_error = false;
  reply_to = [];
  reply_to_parse_error = false;
  to_list = ann ∷ [];
  cc_list = [];
  message_id = second_id;
  references = [];
  in_reply_to = [];
  recipient_parse_error = false;
}

-- The caller names both lists, with one address in both.
abbrev given : DraftInput
given = record {
  subject = [];
  subject_set = false;
  to_list = ann ∷ [];
  to_set = true;
  cc_list = ann ∷ cid ∷ [];
  cc_set = true;
}

abbrev separated : DraftInput
separated = record given { cc_list = cid ∷ [] }

given-separated : derive_recipients plain source true given [] ≡ derived separated
unfolding derive_recipients deduplicate_recipients_against deduplicate recipient_address_key
    cut_last mailbox_addr_spec contains add_keys bytes_equal
given-separated = refl

reply_all-Separate_example : Separate plain separated
reply_all-Separate_example = reply_all-Separate plain source given separated [] given-separated

-- The account has two addresses, and the message was sent to one of them.
abbrev both : List Bytes
both = cid.address ∷ ann.address ∷ []

ann_sends : derived_sender_address plain both source ≡ ann.address
unfolding derived_sender_address match_recipients match_address recipient_address_key cut_last
    mailbox_addr_spec bytes_equal
ann_sends = refl

none_blank : contains [] both ≡ false
unfolding contains bytes_equal
none_blank = refl

derived_sender-Spec_example :
    (contains ann.address both ≡ true)
    × (All (Agrees plain both ann.address) (source.to_list ++ source.cc_list)
        ⊎ (both ≡ ann.address ∷ []))
derived_sender-Spec_example =
    derived_sender-Spec plain both source ann.address none_blank ann_sends refl
