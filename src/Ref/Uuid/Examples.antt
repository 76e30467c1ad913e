-- ===== src/Ref/Uuid/Examples.antt =====
-- `parseCanonicalUUID` and `formatUUID` of internal/mailref/binary.go on an identifier.
use mail_cli.Common.{◌≡◌, refl, some, [], ◌∷◌, length}
use mail_cli.Ref.Text.{Bytes, bytes_equal}
use mail_cli.Ref.Uuid.{
  parse_canonical_uuid, format_uuid, format-parse_uuid, has_dashes, compact_hex, hex_decode,
  hex_value,
}

-- "0000000A-0000-0000-0000-000000000000"
abbrev uuid_text : Bytes
uuid_text =
    48 ∷ 48 ∷ 48 ∷ 48 ∷ 48 ∷ 48 ∷ 48 ∷ 65 ∷ 45 ∷ 48 ∷ 48 ∷ 48 ∷ 48 ∷ 45 ∷ 48 ∷ 48 ∷ 48 ∷ 48 ∷ 45
    ∷ 48 ∷ 48 ∷ 48 ∷ 48 ∷ 45 ∷ 48 ∷ 48 ∷ 48 ∷ 48 ∷ 48 ∷ 48 ∷ 48 ∷ 48 ∷ 48 ∷ 48 ∷ 48 ∷ 48 ∷ []

abbrev uuid_raw : Bytes
uuid_raw = 0 ∷ 0 ∷ 0 ∷ 10 ∷ 0 ∷ 0 ∷ 0 ∷ 0 ∷ 0 ∷ 0 ∷ 0 ∷ 0 ∷ 0 ∷ 0 ∷ 0 ∷ 0 ∷ []

uuid_parsed : parse_canonical_uuid uuid_text ≡ some uuid_raw
unfolding parse_canonical_uuid has_dashes compact_hex hex_decode hex_value bytes_equal
uuid_parsed = refl

format-parse_uuid_example :
    (format_uuid uuid_raw ≡ uuid_text) × (length uuid_raw ≡ 16) × (length uuid_text ≡ 36)
format-parse_uuid_example = format-parse_uuid uuid_text uuid_raw uuid_parsed
