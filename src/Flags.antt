-- ===== src/Flags.antt =====
-- internal/transport/imapclient/flags.go and flag_permissions.go: how the flags of one message are
-- changed, and what the result says about them.
mod Examples
pub mod Observe
pub mod Commands
pub mod Proof
pub mod Replies
pub mod Reports
pub mod Retry
pub mod Success
pub mod Sound
pub mod Store
use mail_cli.Common.{ℕ, ◌+◌, ◌≡◌, Bool, true, false, not, ◌&&◌, ◌||◌, ltb, leb, ◌==◌}
use mail_cli.Common.{Option, none, some, List, [], ◌∷◌, Bytes, bytes_equal, if◌then◌else◌, length}

-- Letter case for `strings.EqualFold`.
pub record FlagLibrary : Type 0 where
  pub fold : Bytes → Bytes

pub record FlagChanges : Type 0 where
  pub add : List Bytes
  pub remove : List Bytes

pub record FlagPermissions : Type 0 where
  pub present : Bool
  pub flags : List Bytes

abbrev pub maximum_flag_count : ℕ
maximum_flag_count = 1024

abbrev dollar_junk : Bytes
dollar_junk = 36 ∷ 74 ∷ 117 ∷ 110 ∷ 107 ∷ []

abbrev dollar_not_junk : Bytes
dollar_not_junk = 36 ∷ 78 ∷ 111 ∷ 116 ∷ 74 ∷ 117 ∷ 110 ∷ 107 ∷ []

abbrev recent : Bytes
recent = 92 ∷ 82 ∷ 101 ∷ 99 ∷ 101 ∷ 110 ∷ 116 ∷ []

-- Any keyword may be created.
abbrev wildcard : Bytes
wildcard = 92 ∷ 42 ∷ []

abbrev starts_with_backslash : Bytes → Bool
starts_with_backslash [] = false
starts_with_backslash (c ∷ cs) = c == 92

abbrev without_backslash : Bytes → Bytes
without_backslash [] = []
without_backslash (c ∷ cs) = if c == 92 then cs else c ∷ cs

-- ( ) { % * " \ ] and what is not printable
abbrev is_atom_byte : ℕ → Bool
is_atom_byte c = not (
    leb c 32
    || leb 127 c
    || c == 40
    || c == 41
    || c == 123
    || c == 37
    || c == 42
    || c == 34
    || c == 92
    || c == 93)

unfoldable all_atom_bytes : Bytes → Bool
all_atom_bytes [] = true
all_atom_bytes (c ∷ cs) = is_atom_byte c && all_atom_bytes cs

unfoldable pub valid_flag_atom : Bytes → Bool
unfolding all_atom_bytes
valid_flag_atom flag =
    not (bytes_equal (without_backslash flag) []) && all_atom_bytes (without_backslash flag)

module _ (lib : FlagLibrary) where
  abbrev pub equal_fold : Bytes → Bytes → Bool
  equal_fold a b = bytes_equal (lib.fold a) (lib.fold b)

  unfoldable pub contains_flag : List Bytes → Bytes → Bool
  contains_flag [] wanted = false
  contains_flag (flag ∷ flags) wanted = equal_fold flag wanted || contains_flag flags wanted

  unfoldable pub has_all : List Bytes → List Bytes → Bool
  has_all flags [] = true
  has_all flags (f ∷ fs) = contains_flag flags f && has_all flags fs

  unfoldable pub has_none : List Bytes → List Bytes → Bool
  has_none flags [] = true
  has_none flags (f ∷ fs) = not (contains_flag flags f) && has_none flags fs

  unfoldable pub flags_match_changes : List Bytes → List Bytes → List Bytes → Bool
  unfolding has_all has_none
  flags_match_changes flags add remove = has_all flags add && has_none flags remove

  unfoldable writable : List Bytes → Bool
  writable [] = true
  writable (f ∷ fs) = valid_flag_atom f && not (equal_fold f recent) && writable fs

  unfoldable pub validate_flag_changes : FlagChanges → Bool
  unfolding writable has_none
  validate_flag_changes c =
      not (length c.add + length c.remove == 0)
      && not (ltb maximum_flag_count (length c.add + length c.remove))
      && writable c.add
      && writable c.remove
      && has_none c.remove c.add

  unfoldable pub touches_junk : FlagChanges → Bool
  unfolding contains_flag
  touches_junk c =
      contains_flag c.add dollar_junk
      || contains_flag c.add dollar_not_junk
      || contains_flag c.remove dollar_junk
      || contains_flag c.remove dollar_not_junk

  -- The flags to add that are not there, and those to remove that are.
  unfoldable pub missing_flags : List Bytes → List Bytes → List Bytes
  missing_flags actual [] = []
  missing_flags actual (f ∷ fs) =
      let rest = missing_flags actual fs in if contains_flag actual f then rest else f ∷ rest

  unfoldable pub present_flags : List Bytes → List Bytes → List Bytes
  present_flags actual [] = []
  present_flags actual (f ∷ fs) =
      let rest = present_flags actual fs in if contains_flag actual f then f ∷ rest else rest

  unfoldable pub pending : FlagChanges → List Bytes → FlagChanges
  unfolding missing_flags present_flags
  pending c actual = record {
    add = missing_flags actual c.add;
    remove = present_flags actual c.remove;
  }

  unfoldable first_unsupported : FlagPermissions → List Bytes → Option Bytes
  first_unsupported p [] = none
  first_unsupported p (f ∷ fs) =
      let rest = first_unsupported p fs in
      if contains_flag p.flags f
      then rest
      else if not (starts_with_backslash f) && contains_flag p.flags wildcard
      then rest
      else some f

  abbrev or_else : Option Bytes → Option Bytes → Option Bytes
  or_else none o = o
  or_else (some f) o = some f

  -- `none` is the empty string.
  unfoldable pub unsupported : FlagPermissions → FlagChanges → Option Bytes
  unfolding first_unsupported
  unsupported p c =
      if not p.present
      then none
      else or_else (first_unsupported p c.add) (first_unsupported p c.remove)
