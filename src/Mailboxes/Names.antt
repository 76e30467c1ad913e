-- ===== src/Mailboxes/Names.antt =====
-- internal/transport/mailbox_resolution.go: the names and paths of one mailbox and their comparison.
use mail_cli.Common.{ℕ, Bool, true, false, not, ◌&&◌, ◌||◌, ◌++◌, ltb, ◌==◌}
use mail_cli.Common.{List, [], ◌∷◌, if◌then◌else◌, Bytes, bytes_equal, length}
use mail_cli.Mailboxes.Roles.{gmail_name}

-- `norm.NFC.String` and `strings.EqualFold`.
pub record NameLibrary : Type 0 where
  pub nfc : Bytes → Bytes
  pub equal_fold : Bytes → Bytes → Bool

pub record MailboxInfo : Type 0 where
  pub name : Bytes
  pub wire_name : Bytes
  pub display_name : Bytes
  pub display_path : List Bytes
  pub delimiter : Bytes
  pub encoding : Bytes
  pub flags : List Bytes

abbrev pub is_nil : {A : Type 0} → List A → Bool
is_nil [] = true
is_nil (x ∷ xs) = false

abbrev pub any : {A : Type 0} → (A → Bool) → List A → Bool
any p [] = false
any p (x ∷ xs) = p x || any p xs

unfoldable pub mailbox_wire_name : MailboxInfo → Bytes
mailbox_wire_name mailbox =
    if not (is_nil mailbox.wire_name) then mailbox.wire_name else mailbox.name

unfoldable pub mailbox_display_name : MailboxInfo → Bytes
unfolding mailbox_wire_name
mailbox_display_name mailbox =
    if not (is_nil mailbox.display_name) then mailbox.display_name else mailbox_wire_name mailbox

unfoldable pub mailbox_legacy : MailboxInfo → Bool
mailbox_legacy mailbox =
    is_nil mailbox.wire_name
    && is_nil mailbox.display_name
    && is_nil mailbox.display_path
    && is_nil mailbox.delimiter
    && is_nil mailbox.encoding

abbrev own_path : MailboxInfo → List Bytes
own_path mailbox =
    if is_nil mailbox.display_path then mailbox_display_name mailbox ∷ [] else mailbox.display_path

abbrev with_tail : List Bytes → List (List Bytes)
with_tail (first ∷ second ∷ rest) =
    (first ∷ second ∷ rest) ∷ (if bytes_equal first gmail_name then (second ∷ rest) ∷ [] else [])
with_tail path = path ∷ []

unfoldable pub mailbox_display_paths : MailboxInfo → List (List Bytes)
mailbox_display_paths mailbox = with_tail (own_path mailbox)

unfoldable pub equal_mailbox_path : List Bytes → List Bytes → Bool
equal_mailbox_path [] [] = true
equal_mailbox_path (l ∷ ls) (r ∷ rs) = bytes_equal l r && equal_mailbox_path ls rs
equal_mailbox_path _ _ = false

-- `strings.Join`.
unfoldable pub join_by : ℕ → List Bytes → Bytes
join_by separator [] = []
join_by separator (x ∷ []) = x
join_by separator (x ∷ y ∷ ys) = x ++ (separator ∷ join_by separator (y ∷ ys))

-- The names that an old listing may have for a path.
abbrev pub legacy_names : List Bytes → List Bytes
legacy_names path = join_by b'/' path ∷ (if ltb 1 (length path) then join_by b'.' path ∷ [] else [])

-- The text after the last '/' or '.', and whether there is one.
abbrev leaf_after : Bytes → Bytes × Bool
leaf_after [] = ([], false)
leaf_after (c ∷ cs) =
    let (leaf, found) = leaf_after cs in
    if found then (leaf, true) else if c == b'/' || c == b'.' then (cs, true) else ([], false)

unfoldable pub mailbox_leaf : Bytes → Bytes
mailbox_leaf name = let (leaf, found) = leaf_after name in if found then leaf else name

unfoldable pub invalid_mailbox_path : List Bytes → Bool
invalid_mailbox_path path = any is_nil path

module _ (lib : NameLibrary) where
  unfoldable pub equal_canonical_mailbox_path : List Bytes → List Bytes → Bool
  equal_canonical_mailbox_path [] [] = true
  equal_canonical_mailbox_path (l ∷ ls) (r ∷ rs) =
      bytes_equal (lib.nfc l) (lib.nfc r) && equal_canonical_mailbox_path ls rs
  equal_canonical_mailbox_path _ _ = false

  unfoldable pub equal_folded_canonical_mailbox_name : Bytes → Bytes → Bool
  equal_folded_canonical_mailbox_name left right = lib.equal_fold (lib.nfc left) (lib.nfc right)

  unfoldable pub has_mailbox_flag : MailboxInfo → Bytes → Bool
  has_mailbox_flag mailbox want = any (λ flag. lib.equal_fold flag want) mailbox.flags

  unfoldable pub contains_mailbox_name : List Bytes → MailboxInfo → Bool
  contains_mailbox_name names candidate =
      any
        (λ name.
          bytes_equal (lib.nfc (mailbox_display_name candidate)) (lib.nfc name)
          || (mailbox_legacy candidate
              && lib.equal_fold (lib.nfc name) (lib.nfc (mailbox_display_name candidate))))
        names

  -- The tests of `exactMailboxPathMatches` and `canonicalMailboxPathMatches`.
  unfoldable pub exact_path_match : List Bytes → MailboxInfo → Bool
  exact_path_match path mailbox =
      any (λ candidate. equal_mailbox_path candidate path) (mailbox_display_paths mailbox)
      || (mailbox_legacy mailbox
          && any (λ name. bytes_equal (mailbox_wire_name mailbox) name) (legacy_names path))

  unfoldable pub canonical_path_match : List Bytes → MailboxInfo → Bool
  canonical_path_match path mailbox =
      any (λ candidate. equal_canonical_mailbox_path candidate path) (mailbox_display_paths mailbox)
      || (mailbox_legacy mailbox
          && any (λ name. equal_folded_canonical_mailbox_name (mailbox_wire_name mailbox) name)
              (legacy_names path))
