-- ===== src/Paging/Examples.antt =====
-- The theorem on internal/cli/list_pagination.go at a list of three items and pages of two.
use mail_cli.Common.{
  arith, ℕ, zero, suc, ◌≡◌, refl, true, Option, none, some, List, [], ◌∷◌, ◌++◌, Bytes, bytes_equal,
  contains, length, take, drop, take-append_length, drop-append_length,
}
use mail_cli.Ref.Varint.{ℤ, pos, negsuc}
use mail_cli.Paging.{CatalogListCursor, CursorLibrary, collect_identities, valid_page_limit}
use mail_cli.Paging.Walk.{all_pages, all_pages-Spec}

sign : ℤ → ℕ
sign (pos n) = 0
sign (negsuc n) = 1

magnitude : ℤ → ℕ
magnitude (pos n) = n
magnitude (negsuc n) = n

signed : ℕ → ℕ → ℤ
signed zero n = pos n
signed (suc s) n = negsuc n

-- The numbers of a cursor, the lengths of two texts, and the texts.
written : CatalogListCursor → Bytes
written c =
    sign c.version
    ∷ magnitude c.version
    ∷ sign c.offset
    ∷ magnitude c.offset
    ∷ length c.command
    ∷ length c.scope
    ∷ (c.command ++ (c.scope ++ c.digest))

read_back : Bytes → Option CatalogListCursor
read_back (t ∷ v ∷ s ∷ o ∷ n ∷ k ∷ rest) = some (record {
  version = signed t v;
  command = take n rest;
  scope = take k (drop n rest);
  digest = drop k (drop n rest);
  offset = signed s o;
})
read_back _ = none

signed-sign : (z : ℤ) → signed (sign z) (magnitude z) ≡ z
unfolding signed sign magnitude
signed-sign (pos n) = refl
signed-sign (negsuc n) = refl

read_back-written : (c : CatalogListCursor) → read_back (written c) ≡ some c
unfolding read_back written
read_back-written c =
    rw
      (
        take-append_length c.command (c.scope ++ c.digest),
        drop-append_length c.command (c.scope ++ c.digest),
        take-append_length c.scope c.digest,
        drop-append_length c.scope c.digest,
        signed-sign c.version,
        signed-sign c.offset,
      )
      refl

abbrev plain : CursorLibrary
unfolding written
plain = record {
  encode = written;
  decode = read_back;
  digest_of = λ ids. 1 ∷ [];
  is_text = λ s. true;
  decode-encode = λ c t u v m n. read_back-written c;
  digest_text = λ ids. refl;
  encode_set = λ c e. cc;
  digest_set = λ ids e. cc;
}

abbrev identity : ℕ → Bytes
identity n = n ∷ []

abbrev items : List ℕ
items = 5 ∷ 6 ∷ 7 ∷ []

abbrev command : Bytes
command = b'l' ∷ []

unique : collect_identities identity items [] ≡ some ((5 ∷ []) ∷ (6 ∷ []) ∷ (7 ∷ []) ∷ [])
unfolding collect_identities contains bytes_equal
unique = refl

allowed : valid_page_limit 2 ≡ true
unfolding valid_page_limit
allowed = refl

all_pages-Spec_example : all_pages plain identity items 2 command [] 4 [] ≡ some items
unfolding plain
all_pages-Spec_example =
    all_pages-Spec plain identity items 2 command [] ((5 ∷ []) ∷ (6 ∷ []) ∷ (7 ∷ []) ∷ []) refl
      allowed unique refl refl (omega arith)
