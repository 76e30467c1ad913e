-- ===== src/Mailboxes/Resolve.antt =====
-- internal/transport/mailbox_resolution.go: candidates, the choice among them and the resolution.
use mail_cli.Common.{Bool, true, false, not, ◌&&◌, ◌||◌, ◌++◌, ltb, ◌==◌}
use mail_cli.Common.{Option, none, some, List, [], ◌∷◌, if◌then◌else◌, Bytes, bytes_equal, length}
use mail_cli.Mailboxes.Roles.{
  MailboxRole, sent, trash, mailbox_role_order, mailbox_role_flag, mailbox_role_aliases,
  mailbox_role_fallbacks, inbox_name,
}
use mail_cli.Mailboxes.Names.{
  NameLibrary, MailboxInfo, is_nil, any, mailbox_wire_name, mailbox_legacy, mailbox_display_paths,
  mailbox_leaf, invalid_mailbox_path, equal_folded_canonical_mailbox_name, has_mailbox_flag,
  contains_mailbox_name, exact_path_match, canonical_path_match,
}

-- The codes of the errors, with the candidates where there are several.
pub data MailboxError : Type 0 where
  invalid_value mailbox_not_found sent_mailbox_not_found : MailboxError
  ambiguous_mailbox : List Bytes → MailboxError

pub data Resolved : Type 0 where
  resolved : Bytes → Resolved
  unresolved : MailboxError → Resolved

-- The order of strings, byte by byte.
abbrev pub byte_leb : Bytes → Bytes → Bool
byte_leb [] ys = true
byte_leb (x ∷ xs) [] = false
byte_leb (x ∷ xs) (y ∷ ys) = ltb x y || (x == y && byte_leb xs ys)

-- `sort.Strings`.
unfoldable pub insert : Bytes → List Bytes → List Bytes
insert x [] = x ∷ []
insert x (y ∷ ys) = let later = insert x ys in if byte_leb x y then x ∷ y ∷ ys else y ∷ later

unfoldable pub sort : List Bytes → List Bytes
sort [] = []
sort (x ∷ xs) = insert x (sort xs)

unfoldable pub candidates : (MailboxInfo → Bool) → List MailboxInfo → List Bytes
candidates p [] = []
candidates p (m ∷ ms) =
    let rest = candidates p ms in
    if not (is_nil (mailbox_wire_name m)) && p m then mailbox_wire_name m ∷ rest else rest

unfoldable pub matching_mailbox_names : List MailboxInfo → (MailboxInfo → Bool) → List Bytes
matching_mailbox_names mailboxes p = sort (candidates p mailboxes)

unfoldable pub choose_mailbox : List Bytes → (missing : MailboxError) → Resolved
choose_mailbox [] missing = unresolved missing
choose_mailbox (one ∷ []) missing = resolved one
choose_mailbox (one ∷ two ∷ more) missing = unresolved (ambiguous_mailbox (one ∷ two ∷ more))

-- The candidates where there are any, and else what follows.
abbrev pub choose_or : List Bytes → Resolved → Resolved
choose_or found next = if is_nil found then next else choose_mailbox found mailbox_not_found

-- Neighbours that are equal, once.
unfoldable pub unique_sorted : List Bytes → List Bytes
unique_sorted [] = []
unique_sorted (x ∷ []) = x ∷ []
unique_sorted (x ∷ y ∷ ys) =
    let rest = unique_sorted (y ∷ ys) in if bytes_equal x y then rest else x ∷ rest

abbrev pub concat_map : {A : Type 0} → (A → List Bytes) → List A → List Bytes
concat_map f [] = []
concat_map f (x ∷ xs) = f x ++ concat_map f xs

module _ (lib : NameLibrary) where
  unfoldable pub exact_mailbox_path_matches : List MailboxInfo → List Bytes → List Bytes
  exact_mailbox_path_matches mailboxes path =
      matching_mailbox_names mailboxes (exact_path_match lib path)

  unfoldable pub canonical_mailbox_path_matches : List MailboxInfo → List Bytes → List Bytes
  canonical_mailbox_path_matches mailboxes path =
      matching_mailbox_names mailboxes (canonical_path_match lib path)

  unfoldable pub resolve_inbox_mailbox : List MailboxInfo → Resolved
  resolve_inbox_mailbox mailboxes =
      let found =
        matching_mailbox_names mailboxes (λ m. lib.equal_fold (mailbox_wire_name m) inbox_name) in
      if is_nil found || any (λ candidate. bytes_equal candidate inbox_name) found
      then resolved inbox_name
      else choose_mailbox found mailbox_not_found

  abbrev pub first_role : Bytes → List MailboxRole → Option MailboxRole
  first_role leaf [] = none
  first_role leaf (role ∷ roles) =
      let later = first_role leaf roles in
      if any (λ alias. equal_folded_canonical_mailbox_name lib leaf alias)
        (mailbox_role_aliases role)
      then some role
      else later

  unfoldable pub mailbox_role_for_path : List Bytes → Option MailboxRole
  mailbox_role_for_path (leaf ∷ []) = first_role leaf mailbox_role_order
  mailbox_role_for_path _ = none

  abbrev pub flagged : MailboxRole → List MailboxInfo → List Bytes
  flagged role mailboxes =
      matching_mailbox_names mailboxes (λ m. has_mailbox_flag lib m (mailbox_role_flag role))

  abbrev pub localized : MailboxRole → List MailboxInfo → List Bytes
  localized role mailboxes =
      matching_mailbox_names mailboxes (contains_mailbox_name lib (mailbox_role_fallbacks role))

  abbrev pub by_leaf : List MailboxInfo → List Bytes → Resolved
  by_leaf mailboxes (leaf ∷ []) =
      choose_or
        (matching_mailbox_names mailboxes (λ m.
          mailbox_legacy m
          && equal_folded_canonical_mailbox_name lib (mailbox_leaf (mailbox_wire_name m)) leaf))
        (unresolved mailbox_not_found)
  by_leaf mailboxes _ = unresolved mailbox_not_found

  abbrev pub by_role : List MailboxInfo → List Bytes → Option MailboxRole → Resolved
  by_role mailboxes path none = by_leaf mailboxes path
  by_role mailboxes path (some role) =
      choose_or (flagged role mailboxes)
        (choose_or (localized role mailboxes) (by_leaf mailboxes path))

  abbrev pub means_inbox : List Bytes → Bool
  means_inbox [] = true
  means_inbox (segment ∷ []) = lib.equal_fold segment inbox_name
  means_inbox _ = false

  unfoldable pub resolve_mailbox_path : List MailboxInfo → List Bytes → Resolved
  resolve_mailbox_path mailboxes path =
      if means_inbox path
      then resolve_inbox_mailbox mailboxes
      else if invalid_mailbox_path path
      then unresolved invalid_value
      else choose_or (exact_mailbox_path_matches mailboxes path) (
          choose_or (canonical_mailbox_path_matches mailboxes path)
            (by_role mailboxes path (mailbox_role_for_path path)))

  -- The names that are canonically equal to a path of the mailbox or to a requested path.
  unfoldable pub collisions : List MailboxInfo → MailboxInfo → List (List Bytes) → List Bytes
  collisions mailboxes mailbox requested = unique_sorted (
      sort (
        concat_map (canonical_mailbox_path_matches mailboxes)
          (mailbox_display_paths mailbox ++ requested)))

  abbrev pub no_collision :
      List MailboxInfo → (selected : Bytes) → List (List Bytes) → List MailboxInfo → Resolved
  no_collision mailboxes selected requested [] = resolved selected
  no_collision mailboxes selected requested (m ∷ ms) =
      let rest = no_collision mailboxes selected requested ms in
      let names = collisions mailboxes m requested in
      if not (bytes_equal (mailbox_wire_name m) selected)
      then rest
      else if ltb 1 (length names)
      then unresolved (ambiguous_mailbox names)
      else rest

  unfoldable pub reject_canonical_mailbox_collision :
      List MailboxInfo → (selected : Bytes) → (requested : List (List Bytes)) → Resolved
  reject_canonical_mailbox_collision mailboxes selected requested =
      no_collision mailboxes selected requested mailboxes

  abbrev pub and_then : Resolved → (Bytes → Resolved) → Resolved
  and_then (resolved selected) f = f selected
  and_then (unresolved e) f = unresolved e

  unfoldable pub resolve_mailbox_path_for_mutation : List MailboxInfo → List Bytes → Resolved
  resolve_mailbox_path_for_mutation mailboxes path =
      and_then (resolve_mailbox_path mailboxes path)
        λ selected. reject_canonical_mailbox_collision mailboxes selected (path ∷ [])

  unfoldable pub resolve_role_mailbox : List MailboxInfo → MailboxRole → MailboxError → Resolved
  resolve_role_mailbox mailboxes role missing =
      if is_nil (flagged role mailboxes)
      then choose_mailbox (localized role mailboxes) missing
      else choose_mailbox (flagged role mailboxes) missing

  unfoldable pub resolve_sent_mailbox : List MailboxInfo → Resolved
  resolve_sent_mailbox mailboxes = resolve_role_mailbox mailboxes sent sent_mailbox_not_found

  unfoldable pub resolve_trash_mailbox : List MailboxInfo → Resolved
  resolve_trash_mailbox mailboxes =
      and_then (resolve_role_mailbox mailboxes trash mailbox_not_found)
        λ selected. reject_canonical_mailbox_collision mailboxes selected []

  abbrev or_empty : Resolved → Bytes
  or_empty (resolved selected) = selected
  or_empty (unresolved e) = []

  unfoldable pub pick_sent_mailbox : List MailboxInfo → Bytes
  pick_sent_mailbox mailboxes = or_empty (resolve_sent_mailbox mailboxes)

  unfoldable pub pick_trash_mailbox : List MailboxInfo → Bytes
  pick_trash_mailbox mailboxes = or_empty (resolve_trash_mailbox mailboxes)
