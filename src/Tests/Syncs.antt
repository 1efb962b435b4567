-- ===== src/Tests/Syncs.antt =====
-- A text that changed beside an unchanged database.
use nostdb_core.Base.{ℕ, ◌≡◌, [], ◌∷◌, Bytes}
use nostdb_core.Sync.{decide, baseline_from, state_from}
use nostdb_core.Sync.Outcomes.{Outcome, decide-Outcome}

-- A digest that keeps all bytes.
abbrev digest : Bytes → Bytes
digest bytes = bytes

decide-Outcome_example :
    Outcome
      (decide (baseline_from digest 5 (1 ∷ []) (2 ∷ [])) (state_from digest 5 (1 ∷ []) (3 ∷ [])))
      (◌≡◌ {A = ℕ} 5 5 × ◌≡◌ {A = Bytes} (1 ∷ []) (1 ∷ []))
      (◌≡◌ {A = Bytes} (3 ∷ []) (2 ∷ []))
decide-Outcome_example =
    decide-Outcome digest 5 5 (1 ∷ []) (1 ∷ []) (2 ∷ []) (3 ∷ []) (λ e. e) (λ e. e)
