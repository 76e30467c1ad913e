-- ===== src/Mailboxes.antt =====
-- internal/transport/mailbox_resolution.go: which mailbox of the server a local path means. Unicode
-- normalization and `strings.EqualFold` are parameters.
pub mod Roles
pub mod Names
pub mod Resolve
pub mod Sound
pub mod Mutation
mod Examples
