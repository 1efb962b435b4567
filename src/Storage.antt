-- ===== src/Storage.antt =====
-- Database files, `src/storage.rs`: opening, creating and committing (Defs) and the recovery of
-- an interrupted commit (Recover). The other modules hold the theorems.
mod Defs
mod Recover
pub mod Paths
pub mod Settles
pub mod Replays
pub mod Atomic
pub mod Points
pub mod Crash
pub mod Commit
pub mod Publishes
pub mod Leftover
unfoldable pub use Defs.*
unfoldable pub use Recover.*
