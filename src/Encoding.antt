-- ===== src/Encoding.antt =====
-- Section payload encodings, `src/encoding.rs`: the errors (Errors), the string table and the writer
-- of records (Strings, Write), the reader (Reader) and what it reads (Read), and a graph as sections
-- (Graphs). The other modules hold the theorems.
pub mod Errors
pub mod Strings
pub mod Write
pub mod Reader
pub mod Read
pub mod ReadNamed
pub mod Graphs
pub mod Codes
pub mod Leaves
pub mod Interned
pub mod Valid
pub mod Parts
pub mod Nested
pub mod Types
pub mod Records
pub mod Tables
pub mod RoundTrip
pub mod Counts
pub mod Takes
mod Minimums
mod MinimumsNamed
mod Same
pub mod Unchecked
mod SameNamed
pub mod Counted
pub mod Room
pub mod Yields
pub mod Checked
pub mod Sound
pub mod SoundNamed
pub mod SoundGraph
pub mod Trusted
pub mod Stored
