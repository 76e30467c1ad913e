-- ===== src/Ref/Writer.antt =====
-- internal/mailref/binary.go: `binaryWriter`. Each function gives what a method appends to the buffer.
use mail_cli.Common.{
  ℕ, zero, suc, ◌/◌, ◌%◌, ◌^◌, Option, none, some, List, [], ◌∷◌, ◌++◌, length, ◌==◌, Bool,
}
use mail_cli.Ref.Varint.{ℤ, uvarint_bytes, zigzag}
use mail_cli.Ref.Text.{Bytes}

abbrev pub binary_payload_marker : ℕ
binary_payload_marker = 0xd8

unfoldable pub varint_bytes : ℤ → Bytes
varint_bytes value = uvarint_bytes (zigzag value)

unfoldable pub text_bytes : Bytes → Bytes
text_bytes value = uvarint_bytes (length value) ++ value

-- The raw bytes of a canonical identifier, or the text.
unfoldable pub identifier_bytes : Bytes → Option Bytes → Bytes
identifier_bytes value (some raw) = raw
identifier_bytes value none = text_bytes value

unfoldable pub components_bytes : List Bytes → Bytes
components_bytes [] = []
components_bytes (c ∷ cs) = text_bytes c ++ components_bytes cs

unfoldable pub path_bytes : List Bytes → Bytes
path_bytes path = uvarint_bytes (length path) ++ components_bytes path

-- `binary.BigEndian.AppendUint32` and `AppendUint64`, by the number of bytes.
unfoldable pub big_endian_bytes : ℕ → ℕ → Bytes
big_endian_bytes zero value = []
big_endian_bytes (suc n) value = value / 256 ^ n % 256 ∷ big_endian_bytes n value

-- The bits of the flag word by position; a word is the sum of its bits.
abbrev pub has_flag : ℕ → ℕ → Bool
has_flag flags i = flags / 2 ^ i % 2 == 1
