-- ===== src/Model.antt =====
-- The graph's records: names (`src/name.rs`) in Names, locators and texts (`src/locator.rs`,
-- `src/text.rs`) in Texts, numbers (`src/property.rs`, `src/evidence.rs`) in Numbers, timestamps in
-- DateTime, property values in Values, schemas (`src/schema.rs`) in Schemas, evidence
-- (`src/evidence.rs`) in Evidence, and nodes, edges and links (`src/graph.rs`,
-- `src/contribution.rs`, `src/link.rs`) in Records. A type with a checked constructor is what it
-- wraps: its constructor is a function that refuses or returns it, and a value is valid where its
-- constructor returns it unchanged.
pub mod Names
pub mod Texts
pub mod Numbers
pub mod DateTime
pub mod Values
pub mod Schemas
pub mod Evidence
pub mod Records
pub mod Depths
pub mod Violations
pub mod Duplicates
