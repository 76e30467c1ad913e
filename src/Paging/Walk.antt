-- ===== src/Paging/Walk.antt =====
-- internal/cli/list_pagination.go: following the cursors from the start visits the whole list.
use mail_cli.Common.{◌^◌}
use mail_cli.Common.{ℕ, zero, suc, ◌+◌, ◌-◌, ◌<◌, ◌≤◌, ◌≡◌, ◌≢◌, refl, true, false, ltb}
use mail_cli.Common.{
  Option, none, some, List, [], ◌∷◌, ◌++◌, if◌then◌else◌, Bytes, bytes_equal_refl, length, drop,
}
use mail_cli.Common.{
  arith, Bool-cases, inl, inr, length-drop, take-append-drop, drop-drop, take_all,
}
use mail_cli.Paging.{
  CursorLibrary, page, failed, is_blank, valid_page_limit, collect_identities,
  decode_catalog_list_cursor, cursor_at, start_offset, page_from, paginate_catalog,
}

module _ (lib : CursorLibrary) {A : Type 0} (identity : A → Bytes) (items : List A) (limit : ℕ)
    (command scope : Bytes) where
  abbrev and_more : List A → Option (List A) → Option (List A)
  and_more xs none = none
  and_more xs (some ys) = some (xs ++ ys)

  -- All pages from a cursor on, by a caller who follows each next cursor. The number bounds the
  -- pages; `none` is an error, or too small a number.
  unfoldable pub all_pages : ℕ → (raw : Bytes) → Option (List A)
  all_pages zero raw = none
  all_pages (suc fuel) raw = elim (paginate_catalog lib identity items limit command scope raw) [
    | failed e ↦ none
    | page xs next ↦ if is_blank next then some xs else and_more xs (all_pages fuel next)
  ]

  blank_not : (s : Bytes) → s ≢ [] → is_blank s ≡ false
  blank_not [] h = absurd (h refl)
  blank_not (c ∷ cs) h = refl

  module _ (ids : List Bytes) (named : is_blank command ≡ false)
      (sized : valid_page_limit limit ≡ true)
      (unique : collect_identities identity items [] ≡ some ids)
      (command_text : lib.is_text command ≡ true) (scope_text : lib.is_text scope ≡ true)
      (fits : length items < 2 ^ 63) where
    abbrev digest : Bytes
    digest = lib.digest_of ids

    abbrev raw_at : ℕ → Bytes
    raw_at o = lib.encode (cursor_at lib identity items limit command scope digest o)

    positive : 1 ≤ limit
    unfolding valid_page_limit
    positive = ground (arith, sized)

    started :
        (o : ℕ)
        → o ≤ length items
        → start_offset lib identity items limit command scope (raw_at o) digest ≡ some o
    unfolding start_offset decode_catalog_list_cursor
    started o h =
        let inside : ltb (length items) o ≡ false = ground arith in
        rw
          (
            blank_not (raw_at o)
                (lib.encode_set (cursor_at lib identity items limit command scope digest o)),
            lib.decode-encode (cursor_at lib identity items limit command scope digest o)
                command_text scope_text (lib.digest_text ids) (omega arith) (omega (arith, fits)),
            named,
            blank_not digest (lib.digest_set ids),
            bytes_equal_refl command,
            bytes_equal_refl scope,
            bytes_equal_refl digest,
            inside,
          )
          refl

    fetched :
        (raw : Bytes) (o : ℕ)
        → start_offset lib identity items limit command scope raw digest ≡ some o
        → paginate_catalog lib identity items limit command scope raw
          ≡ page_from lib identity items limit command scope digest o
    unfolding paginate_catalog
    fetched raw o h = rw (sized, unique, h) refl

    last_page :
        (fuel o : ℕ) (raw : Bytes)
        → o ≤ length items
        → start_offset lib identity items limit command scope raw digest ≡ some o
        → ltb limit (length items - o) ≡ false
        → all_pages (suc fuel) raw ≡ some (drop o items)
    unfolding all_pages page_from
    last_page fuel o raw h at_o last =
        let over : ltb (length items) (length items) ≡ false = ground arith in
        rw (fetched raw o at_o, all_pages)
          (rw
            (
              last,
              over,
              take_all (length items - o) (drop o items) (omega (arith, length-drop o items)),
            )
            refl)

    more_pages :
        (fuel o : ℕ) (raw : Bytes)
        → start_offset lib identity items limit command scope raw digest ≡ some o
        → ltb limit (length items - o) ≡ true
        → all_pages fuel (raw_at (o + limit)) ≡ some (drop (o + limit) items)
        → all_pages (suc fuel) raw ≡ some (drop o items)
    unfolding all_pages page_from
    more_pages fuel o raw at_o more later =
        let under : ltb (o + limit) (length items) ≡ true = ground arith in
        let size : o + limit - o ≡ limit = omega arith in
        rw (fetched raw o at_o, all_pages)
          (rw
            (
              more,
              under,
              blank_not (raw_at (o + limit)) (lib.encode_set _),
              size,
              later,
              drop-drop o limit (o + limit) items refl,
              take-append-drop limit (drop o items),
            )
            refl)

    rest_of_pages :
        (fuel o : ℕ) (raw : Bytes)
        → o ≤ length items
        → length items - o < fuel
        → start_offset lib identity items limit command scope raw digest ≡ some o
        → all_pages fuel raw ≡ some (drop o items)
    unfolding all_pages
    rest_of_pages zero o raw h few at_o = absurd (omega arith)
    rest_of_pages (suc fuel) o raw h few at_o = elim (Bool-cases (ltb limit (length items - o))) [
      | inr last ↦ last_page fuel o raw h at_o last
      | inl more ↦
          let within : o + limit < length items = ground arith in
          more_pages fuel o raw at_o more (
            rest_of_pages fuel (o + limit) (raw_at (o + limit)) (omega arith)
              (omega (arith, positive)) (started (o + limit) (omega arith)))
    ]

    -- A caller who starts without a cursor and follows each next cursor receives every item of the
    -- list once and in order, in at most one page for each item and one more, when the limit is
    -- allowed, the command has a name, the list's identities are accepted, the command and the scope are
    -- valid UTF-8, and the length of the list is a Go `int`.
    pub all_pages-Spec : all_pages (suc (length items)) [] ≡ some items
    unfolding start_offset
    all_pages-Spec = rest_of_pages (suc (length items)) 0 [] (omega arith) (omega arith) refl
