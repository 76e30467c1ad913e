-- ===== src/Mailboxes/Mutation.antt =====
-- internal/transport/mailbox_resolution.go: a mutation goes only to a mailbox whose names mean no other.
use mail_cli.Common.{◌≡◌, true, false, ◌⊎◌}
use mail_cli.Common.{List, [], ◌∷◌, ◌++◌, Bytes}
use mail_cli.Mailboxes.Names.{
  NameLibrary, MailboxInfo, is_nil, any, mailbox_wire_name, mailbox_display_paths,
  canonical_path_match,
}

-- The mailbox is in the listing.
unfoldable pub Listed : MailboxInfo → List MailboxInfo → Type 0
Listed a [] = ⊥
Listed a (m ∷ ms) = (a ≡ m) ⊎ Listed a ms

module _ (lib : NameLibrary) (mailboxes : List MailboxInfo) where
  -- The mailbox `a` is canonically equal to a displayed path of `m` or to the requested path.
  abbrev pub IsMeant : MailboxInfo → (path : List Bytes) → MailboxInfo → Type 0
  IsMeant m path a =
      Listed a mailboxes
      × (is_nil (mailbox_wire_name a) ≡ false)
      × (any (λ p. canonical_path_match lib p a) (mailbox_display_paths m ++ (path ∷ [])) ≡ true)
