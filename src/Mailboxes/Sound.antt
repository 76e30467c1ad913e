-- ===== src/Mailboxes/Sound.antt =====
-- internal/transport/mailbox_resolution.go: what a resolved name is.
use mail_cli.Common.{
  ◌≡◌, refl, Bool, true, false, not, ◌&&◌, ◌||◌, ◌⊎◌, inl, inr, arith, Bool-cases,
}
use mail_cli.Common.{
  Option, none, some, List, [], ◌∷◌, Bytes, bytes_equal, bytes_equal_refl, contains,
}
use mail_cli.Mailboxes.Roles.{MailboxRole, inbox_name}
use mail_cli.Mailboxes.Names.{
  NameLibrary, MailboxInfo, is_nil, any, mailbox_wire_name, invalid_mailbox_path,
}
use mail_cli.Mailboxes.Resolve.{
  MailboxError, mailbox_not_found, Resolved, resolved, insert, sort, candidates,
  matching_mailbox_names, choose_mailbox, choose_or, exact_mailbox_path_matches,
  canonical_mailbox_path_matches, resolve_inbox_mailbox, means_inbox, resolve_mailbox_path,
  mailbox_role_for_path, by_leaf, by_role,
}

-- Some mailbox of the listing has the name.
unfoldable pub listed : Bytes → List MailboxInfo → Bool
listed name mailboxes = any (λ m. bytes_equal name (mailbox_wire_name m)) mailboxes

contains-insert :
    (x y : Bytes) (ys : List Bytes) → contains x (insert y ys) ≡ (bytes_equal x y || contains x ys)
unfolding contains insert
contains-insert x y [] = refl
contains-insert x y (z ∷ zs) = ground (arith, contains-insert x y zs)

pub contains-sort : (x : Bytes) (xs : List Bytes) → contains x (sort xs) ≡ contains x xs
unfolding contains sort
contains-sort x [] = refl
contains-sort x (y ∷ ys) = ground (arith, contains-insert x y (sort ys), contains-sort x ys)

candidates-listed :
    (p : MailboxInfo → Bool) (ms : List MailboxInfo) (x : Bytes)
    → contains x (candidates p ms) ≡ true
    → listed x ms ≡ true
unfolding contains candidates listed
candidates-listed p [] x h = cc
candidates-listed p (m ∷ ms) x h = elim (Bool-cases (not (is_nil (mailbox_wire_name m)) && p m)) [
  | inl e ↦ ground (arith, candidates-listed p ms x, rw e at h)
  | inr e ↦ ground (arith, candidates-listed p ms x, rw e at h)
]

matching_listed :
    (ms : List MailboxInfo) (p : MailboxInfo → Bool) (x : Bytes)
    → contains x (matching_mailbox_names ms p) ≡ true
    → listed x ms ≡ true
unfolding matching_mailbox_names
matching_listed ms p x h = candidates-listed p ms x (rw (← (contains-sort x (candidates p ms))) h)

chosen :
    (found : List Bytes) (missing : MailboxError) (x : Bytes)
    → choose_mailbox found missing ≡ resolved x
    → found ≡ x ∷ []
unfolding choose_mailbox
chosen [] missing x h = cc
chosen (y ∷ []) missing x h = cc
chosen (y ∷ z ∷ ys) missing x h = cc

chosen_or :
    (found : List Bytes) (next : Resolved) (x : Bytes)
    → choose_or found next ≡ resolved x
    → ((found ≡ []) × (next ≡ resolved x)) ⊎ (found ≡ x ∷ [])
chosen_or [] next x h = inl (refl, h)
chosen_or (y ∷ ys) next x h = inr (chosen (y ∷ ys) mailbox_not_found x h)

only_listed :
    (ms : List MailboxInfo) (p : MailboxInfo → Bool) (x : Bytes)
    → matching_mailbox_names ms p ≡ x ∷ []
    → listed x ms ≡ true
unfolding contains
only_listed ms p x h = matching_listed ms p x (rw h (ground (arith, bytes_equal_refl x)))

or_listed :
    (ms : List MailboxInfo) (p : MailboxInfo → Bool) (next : Resolved) (x : Bytes)
    → (next ≡ resolved x → listed x ms ≡ true)
    → choose_or (matching_mailbox_names ms p) next ≡ resolved x
    → listed x ms ≡ true
or_listed ms p next x later h = elim (chosen_or (matching_mailbox_names ms p) next x h) [
  | inl (none_found, e) ↦ later e
  | inr e ↦ only_listed ms p x e
]

module _ (lib : NameLibrary) (mailboxes : List MailboxInfo) where
  inbox_listed :
      (name : Bytes)
      → resolve_inbox_mailbox lib mailboxes ≡ resolved name
      → (listed name mailboxes ≡ true) ⊎ (name ≡ inbox_name)
  unfolding resolve_inbox_mailbox
  inbox_listed name h =
      let found =
        matching_mailbox_names mailboxes (λ m. lib.equal_fold (mailbox_wire_name m) inbox_name) in
      elim (Bool-cases
        (is_nil found || any (λ candidate. bytes_equal candidate inbox_name) found)) [
          | inl e ↦ inr (cc (rw e at h))
          | inr e ↦
              inl (only_listed mailboxes _ name (chosen found mailbox_not_found name (rw e at h)))
        ]

  leaf_listed :
      (path : List Bytes) (name : Bytes)
      → by_leaf lib mailboxes path ≡ resolved name
      → listed name mailboxes ≡ true
  leaf_listed [] name h = cc
  leaf_listed (leaf ∷ []) name h = or_listed mailboxes _ _ name (λ e. cc) h
  leaf_listed (leaf ∷ more ∷ path) name h = cc

  role_listed :
      (path : List Bytes) (role : Option MailboxRole) (name : Bytes)
      → by_role lib mailboxes path role ≡ resolved name
      → listed name mailboxes ≡ true
  role_listed path none name h = leaf_listed path name h
  role_listed path (some role) name h =
      or_listed mailboxes _ _ name (or_listed mailboxes _ _ name (leaf_listed path name)) h

  -- A name that a path resolves to is the name of a mailbox of the listing; a path that means the
  -- inbox may also resolve to INBOX.
  pub resolve_mailbox_path-listed :
      (path : List Bytes) (name : Bytes)
      → resolve_mailbox_path lib mailboxes path ≡ resolved name
      → (listed name mailboxes ≡ true) ⊎ ((means_inbox lib path ≡ true) × (name ≡ inbox_name))
  unfolding resolve_mailbox_path exact_mailbox_path_matches canonical_mailbox_path_matches
  resolve_mailbox_path-listed path name h = elim (Bool-cases (means_inbox lib path)) [
    | inl e ↦ elim (inbox_listed name (rw e at h)) [ inl l ↦ inl l | inr i ↦ inr (e, i) ]
    | inr e ↦ elim (Bool-cases (invalid_mailbox_path path)) [
      | inl bad ↦ cc (rw (e, bad) at h)
      | inr good ↦ inl (
          or_listed mailboxes _ _ name
            (or_listed mailboxes _ _ name (role_listed path (mailbox_role_for_path lib path) name))
            (rw (e, good) at h))
    ]
  ]

  -- A path that does not mean the inbox and that mailboxes match exactly, resolves to their one name
  -- or not at all. The same holds of the canonical matches where none is exact, so an ambiguous path
  -- is never resolved.
  pub resolve_mailbox_path-unambiguous :
      (path : List Bytes) (name : Bytes)
      → means_inbox lib path ≡ false
      → resolve_mailbox_path lib mailboxes path ≡ resolved name
      → (exact_mailbox_path_matches lib mailboxes path ≡ name ∷ [])
        ⊎ ((exact_mailbox_path_matches lib mailboxes path ≡ [])
            × ((canonical_mailbox_path_matches lib mailboxes path ≡ name ∷ [])
                ⊎ (canonical_mailbox_path_matches lib mailboxes path ≡ [])))
  unfolding resolve_mailbox_path
  resolve_mailbox_path-unambiguous path name e h = elim (Bool-cases (invalid_mailbox_path path)) [
    | inl bad ↦ cc (rw (e, bad) at h)
    | inr good ↦
        elim (chosen_or (exact_mailbox_path_matches lib mailboxes path) _ name
          (rw (e, good) at h)) [
            | inr one ↦ inl one
            | inl (no_exact, next) ↦ inr (
              no_exact,
              elim (chosen_or (canonical_mailbox_path_matches lib mailboxes path) _ name next) [
                | inr one ↦ inl one
                | inl (no_canonical, next') ↦ inr no_canonical
              ],
            )
          ]
  ]
