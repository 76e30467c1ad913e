-- ===== src/Pool/Invariant.antt =====
-- What holds of one account's pool of internal/transport/imapclient/pool.go and of the goroutines on
-- it, whatever the interleaving of their sections.
mod Preserved
mod Steps
mod Reached
pub use Reached.{Reach-IsConsistent}
pub mod Defs
