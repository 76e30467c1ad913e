-- ===== src/Drafts.antt =====
-- internal/mail/draft_send.go, draft_state.go and draft_claims.go: how a draft is sent over SMTP at
-- most once, and how an interrupted send is reconciled.
pub mod Data
pub mod Codes
pub mod World
pub mod Claims
pub mod Receipts
pub mod Files
pub mod Submit
pub mod Send
pub mod Mirror
pub mod Reconcile
pub mod Triples
pub mod Keeps
pub mod Once
pub mod AtMostOnce
pub mod Requirement
pub mod Laws
mod Examples
