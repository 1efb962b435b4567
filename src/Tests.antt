-- ===== src/Tests.antt =====
-- Runs of the code at concrete inputs, and the theorems at inputs that meet their hypotheses.
mod Checksums
mod Journals
mod Containers
mod Commits
mod Transactions
mod Syncs
mod Ids
mod Ignores
mod Encodings
mod Stored
mod Queries
