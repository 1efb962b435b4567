-- ===== src/Ignore.antt =====
-- Exclusion rules, `src/ignore.rs`: the matcher (Glob), a rule and its line (Rules), and the files in
-- effect (Stack). The other modules hold the theorems. A text is its characters.
mod Glob
mod Rules
mod Stack
pub mod Tokens
mod Classes
mod Shorter
mod Trimmed
pub mod Decides
pub mod AnyDepth
pub mod Verdicts
pub mod Gaps
unfoldable pub use Glob.*
unfoldable pub use Rules.*
unfoldable pub use Stack.*
