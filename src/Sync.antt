-- ===== src/Sync.antt =====
-- Synchronization between `.nostdb` and `.nost`, `src/sync.rs`. A text is its bytes. SHA-256 is not
-- the program's own code: the function from bytes to digests is a parameter.
pub mod Outcomes
use nostdb_core.Base.{Bool, true, false, not, ◌||◌, Option, none, some, ◌==◌, Bytes, same_bytes}
use nostdb_core.Generation.{Generation}

pub record SyncBaseline : Type 0 where
  pub database_generation : Generation
  pub database_digest : Bytes
  pub nost_content_digest : Bytes

pub record SyncState : Type 0 where
  pub database_generation : Generation
  pub database_digest : Bytes
  pub nost_content_digest : Bytes

pub data SyncOutcome : Type 0 where
  up_to_date adopt_nost nost_stale conflict : SyncOutcome

-- The two codes of `DiagnosticCode` that an outcome can have.
pub data DiagnosticCode : Type 0 where
  nost_source_stale sync_conflict : DiagnosticCode

-- `SyncOutcome::code`
unfoldable pub outcome_code : SyncOutcome → Option DiagnosticCode
outcome_code up_to_date = none
outcome_code adopt_nost = none
outcome_code nost_stale = some nost_source_stale
outcome_code conflict = some sync_conflict

unfoldable pub may_modify : SyncOutcome → Bool
may_modify adopt_nost = true
may_modify _ = false

pub record Divergence : Type 0 where
  pub database_changed : Bool
  pub nost_changed : Bool

unfoldable pub diverged : SyncBaseline → SyncState → Divergence
diverged baseline current = record {
  database_changed =
      not (current.database_generation == baseline.database_generation)
      || not (same_bytes current.database_digest baseline.database_digest);
  nost_changed = not (same_bytes current.nost_content_digest baseline.nost_content_digest);
}

unfoldable pub outcome_of : Bool → Bool → SyncOutcome
outcome_of false false = up_to_date
outcome_of false true = adopt_nost
outcome_of true false = nost_stale
outcome_of true true = conflict

unfoldable pub decide : SyncBaseline → SyncState → SyncOutcome
unfolding diverged outcome_of
decide baseline current =
    outcome_of (diverged baseline current).database_changed (diverged baseline current).nost_changed

module _ (digest_bytes : Bytes → Bytes) where
  unfoldable pub baseline_from : Generation → Bytes → Bytes → SyncBaseline
  baseline_from generation database_bytes nost_text = record {
    database_generation = generation;
    database_digest = digest_bytes database_bytes;
    nost_content_digest = digest_bytes nost_text;
  }

  unfoldable pub state_from : Generation → Bytes → Bytes → SyncState
  state_from generation database_bytes nost_text = record {
    database_generation = generation;
    database_digest = digest_bytes database_bytes;
    nost_content_digest = digest_bytes nost_text;
  }
