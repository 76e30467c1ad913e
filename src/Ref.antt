-- ===== src/Ref.antt =====
-- internal/mailref/binary.go: the binary account, mailbox and message references. A Go string or byte
-- slice is a list of bytes. Unicode validity and SHA-256 are parameters (Ref/Text.antt).
pub mod Varint
pub mod Text
pub mod Uuid
pub mod Reader
pub mod Writer
pub mod Codec
pub mod Message
pub mod Reads
pub mod RoundTrip
pub mod Flags
pub mod MessageReads
pub mod MessageTrip
mod Examples
