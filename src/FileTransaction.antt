-- ===== src/FileTransaction.antt =====
-- A change of several files, `FileTransaction`, `apply` and `recover_at` of `src/journal.rs` (Defs).
-- The other modules hold the theorems.
mod Defs
pub mod Carried
pub mod Applies
pub mod Journalled
pub mod Atomic
pub mod Again
pub mod Commit
unfoldable pub use Defs.*
