-- ===== src/Generation.antt =====
-- Database generations, `src/generation.rs`: a `u64` counter, kept as a number below 2 ^ 64.
use nostdb_core.Base.{ℕ, ◌<◌, Option}
use nostdb_core.Base.Words.{u64_mod, checked_add}

abbrev pub Generation : Type 0
Generation = ℕ

abbrev pub initial : Generation
initial = 1

-- `next`: `none` is `GenerationError::Exhausted`.
unfoldable pub next : Generation → Option Generation
unfolding checked_add
next generation = checked_add generation 1

abbrev pub IsU64 : ℕ → Type 0
IsU64 n = n < u64_mod
