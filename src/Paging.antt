-- ===== src/Paging.antt =====
-- internal/cli/list_pagination.go: the pages of a list and the cursor that asks for the next one.
pub mod Walk
mod Examples
use mail_cli.Common.{◌<◌, ◌^◌}
use mail_cli.Common.{ℕ, ◌+◌, ◌-◌, ◌≡◌, ◌≢◌, Bool, true, false, not, ◌&&◌, ◌||◌, ltb, ◌==◌}
use mail_cli.Common.{
  Option, none, some, List, [], ◌∷◌, if◌then◌else◌, Bytes, bytes_equal, contains, length, take,
  drop,
}
use mail_cli.Ref.Varint.{ℤ, pos, negsuc}

pub record CatalogListCursor : Type 0 where
  pub version : ℤ
  pub command : Bytes
  pub scope : Bytes
  pub digest : Bytes
  pub offset : ℤ

-- The numbers that a Go `int` of 64 bits holds.
abbrev pub IsInt : ℤ → Type 0
IsInt (pos n) = n < 2 ^ 63
IsInt (negsuc n) = n < 2 ^ 63

-- The JSON of a cursor in unpadded base64, the SHA-256 digest of a list of identities in hexadecimal, and
-- `utf8.ValidString`. `encoding/json` writes text that is valid UTF-8, and integers of the type `int`,
-- so that they are read back; other text it changes. The hexadecimal digest is such text, and neither it
-- nor the encoded object is empty.
pub record CursorLibrary : Type 0 where
  pub encode : CatalogListCursor → Bytes
  pub decode : Bytes → Option CatalogListCursor
  pub digest_of : List Bytes → Bytes
  pub is_text : Bytes → Bool
  pub decode-encode :
      (c : CatalogListCursor)
      → is_text c.command ≡ true
      → is_text c.scope ≡ true
      → is_text c.digest ≡ true
      → IsInt c.version
      → IsInt c.offset
      → decode (encode c) ≡ some c
  pub encode_set : (c : CatalogListCursor) → encode c ≢ []
  pub digest_set : (ids : List Bytes) → digest_of ids ≢ []
  pub digest_text : (ids : List Bytes) → is_text (digest_of ids) ≡ true

pub data PageError : Type 0 where
  invalid_argument list_identity_invalid invalid_cursor : PageError

pub data Page (A : Type 0) : Type 0 where
  page : List A → (next_cursor : Bytes) → Page A
  failed : PageError → Page A

abbrev pub catalog_list_cursor_version : ℕ
catalog_list_cursor_version = 1

abbrev pub maximum_page_limit : ℕ
maximum_page_limit = 200

abbrev pub is_blank : Bytes → Bool
is_blank [] = true
is_blank (c ∷ cs) = false

unfoldable pub valid_page_limit : ℕ → Bool
valid_page_limit limit = not (ltb limit 1 || ltb maximum_page_limit limit)

abbrev nonnegative : ℤ → Bool
nonnegative (pos n) = true
nonnegative (negsuc n) = false

abbrev is_version : ℤ → Bool
is_version (pos n) = n == catalog_list_cursor_version
is_version (negsuc n) = false

-- The offset of a cursor that the tests accept; `none` is the error.
abbrev pub offset_at_most : ℕ → ℤ → Option ℕ
offset_at_most n (pos o) = if ltb n o then none else some o
offset_at_most n (negsuc o) = none

-- `identities` in order, unless one is empty or occurs twice.
unfoldable pub collect_identities :
    {A : Type 0} → (A → Bytes) → List A → List Bytes → Option (List Bytes)
collect_identities identity [] seen = some []
collect_identities identity (item ∷ items) seen =
    let rest = collect_identities identity items (identity item ∷ seen) in
    if is_blank (identity item) || contains (identity item) seen
    then none
    else elim rest [ none ↦ none | some ids ↦ some (identity item ∷ ids) ]

module _ (lib : CursorLibrary) where
  unfoldable pub decode_catalog_list_cursor : Bytes → Option CatalogListCursor
  decode_catalog_list_cursor raw = elim (lib.decode raw) [
    | none ↦ none
    | some cursor ↦
        if not (is_version cursor.version)
          || is_blank cursor.command
          || is_blank cursor.digest
          || not (nonnegative cursor.offset)
        then none
        else some cursor
  ]

  unfoldable pub valid_catalog_cursor_scope : (raw command scope : Bytes) → Bool
  valid_catalog_cursor_scope raw command scope =
      is_blank raw || elim (decode_catalog_list_cursor raw) [
        | none ↦ false
        | some cursor ↦ bytes_equal cursor.command command && bytes_equal cursor.scope scope
      ]

  module _ {A : Type 0} (identity : A → Bytes) (items : List A) (limit : ℕ)
      (command scope : Bytes) where
    abbrev pub cursor_at : (digest : Bytes) → ℕ → CatalogListCursor
    cursor_at digest end = record {
      version = pos catalog_list_cursor_version;
      command = command;
      scope = scope;
      digest = digest;
      offset = pos end;
    }

    unfoldable pub start_offset : (raw digest : Bytes) → Option ℕ
    start_offset raw digest =
        if is_blank raw then some 0 else elim (decode_catalog_list_cursor raw) [
          | none ↦ none
          | some cursor ↦
              if bytes_equal cursor.command command
                && bytes_equal cursor.scope scope
                && bytes_equal cursor.digest digest
              then offset_at_most (length items) cursor.offset
              else none
        ]

    unfoldable pub page_from : (digest : Bytes) → ℕ → Page A
    page_from digest offset =
        let end = if ltb limit (length items - offset) then offset + limit else length items in
        page (take (end - offset) (drop offset items))
          (if ltb end (length items) then lib.encode (cursor_at digest end) else [])

    abbrev pub page_of : (digest : Bytes) → Option ℕ → Page A
    page_of digest none = failed invalid_cursor
    page_of digest (some offset) = page_from digest offset

    abbrev pub identified : Option (List Bytes) → (raw : Bytes) → Page A
    identified none raw = failed list_identity_invalid
    identified (some ids) raw = page_of (lib.digest_of ids) (start_offset raw (lib.digest_of ids))

    unfoldable pub paginate_catalog : (raw : Bytes) → Page A
    paginate_catalog raw =
        if not (valid_page_limit limit)
        then failed invalid_argument
        else identified (collect_identities identity items []) raw
