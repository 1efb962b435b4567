-- ===== src/Container.antt =====
-- The `.nostdb` container, `src/container.rs`: section kinds and errors (Kind), the twelve checks of
-- `Container::parse` (Parse), and `ContainerBuilder` (Build). The other modules hold the theorems.
mod Kind
mod Parse
mod Build
pub mod Fields
pub mod Layout
pub mod RoundTrip
pub mod Fills
pub mod Entries
pub mod Sound
unfoldable pub use Kind.*
unfoldable pub use Parse.*
unfoldable pub use Build.*
