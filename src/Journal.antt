-- ===== src/Journal.antt =====
-- The transaction journal, `src/journal.rs`: the records and their bytes (Record), the reader of a
-- payload (Cursor), and `replay` (Replay). The other modules hold the theorems.
mod Record
mod Cursor
mod Replay
pub mod Codec
pub mod Progress
pub mod Payload
pub mod Prefix
pub mod Recovers
unfoldable pub use Record.*
unfoldable pub use Cursor.*
unfoldable pub use Replay.*
