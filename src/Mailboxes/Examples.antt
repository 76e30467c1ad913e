-- ===== src/Mailboxes/Examples.antt =====
-- The theorems on internal/transport/mailbox_resolution.go at a listing of two mailboxes.
use mail_cli.Common.{◌≡◌, refl, true, false, ◌⊎◌, List, [], ◌∷◌, Bytes, bytes_equal}
use mail_cli.Mailboxes.Roles.{inbox_name}
use mail_cli.Mailboxes.Names.{
  NameLibrary, MailboxInfo, mailbox_wire_name, invalid_mailbox_path, exact_path_match,
  mailbox_display_paths, equal_mailbox_path, mailbox_display_name, mailbox_legacy, join_by,
}
use mail_cli.Mailboxes.Resolve.{
  resolved, means_inbox, resolve_mailbox_path, exact_mailbox_path_matches,
  canonical_mailbox_path_matches, matching_mailbox_names, sort, candidates, insert, choose_mailbox,
}
use mail_cli.Mailboxes.Sound.{listed, resolve_mailbox_path-listed, resolve_mailbox_path-unambiguous}

-- Names that are plain ASCII and compared as they are.
abbrev plain : NameLibrary
plain = record { nfc = λ s. s; equal_fold = λ a b. bytes_equal a b }

-- "AB"
abbrev work : Bytes
work = 65 ∷ 66 ∷ []

abbrev mailbox_named : Bytes → MailboxInfo
mailbox_named s = record {
  name = s;
  wire_name = [];
  display_name = [];
  display_path = [];
  delimiter = [];
  encoding = [];
  flags = [];
}

abbrev listing : List MailboxInfo
listing = mailbox_named inbox_name ∷ mailbox_named work ∷ []

work_resolved : resolve_mailbox_path plain listing (work ∷ []) ≡ resolved work
unfolding resolve_mailbox_path bytes_equal invalid_mailbox_path exact_mailbox_path_matches
    matching_mailbox_names sort candidates mailbox_wire_name exact_path_match mailbox_display_paths
    equal_mailbox_path mailbox_display_name mailbox_legacy join_by insert choose_mailbox
work_resolved = refl

not_inbox : means_inbox plain (work ∷ []) ≡ false
unfolding bytes_equal
not_inbox = refl

resolve_mailbox_path-listed_example :
    (listed work listing ≡ true) ⊎ ((means_inbox plain (work ∷ []) ≡ true) × (work ≡ inbox_name))
resolve_mailbox_path-listed_example =
    resolve_mailbox_path-listed plain listing (work ∷ []) work work_resolved

resolve_mailbox_path-unambiguous_example :
    (exact_mailbox_path_matches plain listing (work ∷ []) ≡ work ∷ [])
    ⊎ ((exact_mailbox_path_matches plain listing (work ∷ []) ≡ [])
        × ((canonical_mailbox_path_matches plain listing (work ∷ []) ≡ work ∷ [])
            ⊎ (canonical_mailbox_path_matches plain listing (work ∷ []) ≡ [])))
resolve_mailbox_path-unambiguous_example =
    resolve_mailbox_path-unambiguous plain listing (work ∷ []) work not_inbox work_resolved
