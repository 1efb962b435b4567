-- ===== src/Sync/Outcomes.antt =====
-- The outcome in terms of what changed since the baseline.
use nostdb_core.Base.{
  ◌≡◌, refl, Bool, true, false, ◌↔◌, Bytes, same_bytes, same_bytes_refl, same_bytes_eq, arith,
}
use nostdb_core.Generation.{Generation}
use nostdb_core.Sync.{
  SyncOutcome, up_to_date, adopt_nost, nost_stale, conflict, outcome_of, decide, baseline_from,
  state_from,
}

-- A Boolean that says whether something changed: `no` if it did not.
Reflects : Bool → Type 0 → Type 0
Reflects changed Same = (changed ≡ false → Same) × (Same → changed ≡ false)

abbrev pub Outcome : SyncOutcome → Type 0 → Type 0 → Type 0
Outcome o Database Nost =
    ((o ≡ up_to_date) ↔ (Database × Nost))
    × ((o ≡ adopt_nost) ↔ (Database × ¬ Nost))
    × ((o ≡ nost_stale) ↔ ((¬ Database) × Nost))
    × ((o ≡ conflict) ↔ ((¬ Database) × ¬ Nost))

outcome_of-Outcome :
    (database nost : Bool) (D N : Type 0)
    → Reflects database D
    → Reflects nost N
    → Outcome (outcome_of database nost) D N
unfolding outcome_of Reflects
outcome_of-Outcome false false D N (d, d') (n, n') = (
  ((λ _. (d refl, n refl)), (λ _. refl)),
  ((λ h. cc), (λ h. absurd (h.1 (n refl)))),
  ((λ h. cc), (λ h. absurd (h.0 (d refl)))),
  ((λ h. cc), (λ h. absurd (h.0 (d refl)))),
)
outcome_of-Outcome false true D N (d, d') (n, n') = (
  ((λ h. cc), (λ h. cc (n' h.1))),
  ((λ _. (d refl, λ y. cc (n' y))), (λ _. refl)),
  ((λ h. cc), (λ h. absurd (h.0 (d refl)))),
  ((λ h. cc), (λ h. absurd (h.0 (d refl)))),
)
outcome_of-Outcome true false D N (d, d') (n, n') = (
  ((λ h. cc), (λ h. cc (d' h.0))),
  ((λ h. cc), (λ h. cc (d' h.0))),
  ((λ _. ((λ y. cc (d' y)), n refl)), (λ _. refl)),
  ((λ h. cc), (λ h. absurd (h.1 (n refl)))),
)
outcome_of-Outcome true true D N (d, d') (n, n') = (
  ((λ h. cc), (λ h. cc (d' h.0))),
  ((λ h. cc), (λ h. cc (d' h.0))),
  ((λ h. cc), (λ h. cc (n' h.1))),
  ((λ _. ((λ y. cc (d' y)), (λ y. cc (n' y)))), (λ _. refl)),
)

module _ (digest : Bytes → Bytes) (g g' : Generation) (database database' nost nost' : Bytes)
    (database_apart : digest database' ≡ digest database → database' ≡ database)
    (nost_apart : digest nost' ≡ digest nost → nost' ≡ nost) where
  same_digest : (xs ys : Bytes) → xs ≡ ys → same_bytes (digest xs) (digest ys) ≡ true
  same_digest xs ys e = rw e (same_bytes_refl (digest ys))

  -- Where the digest function does not confuse the two databases, nor the two texts, `decide` between a baseline and a later state tells
  -- exactly what changed: nothing; only the text, to be adopted; only the database (its generation
  -- or its bytes), so that the text is stale; or both, a conflict.
  pub decide-Outcome :
      Outcome
        (decide (baseline_from digest g database nost) (state_from digest g' database' nost'))
        ((g' ≡ g) × (database' ≡ database))
        (nost' ≡ nost)
  unfolding decide baseline_from state_from Reflects
  decide-Outcome =
      outcome_of-Outcome _ _ _ _
        (
          (λ h. (ground arith, database_apart (same_bytes_eq _ _ (ground arith)))),
          (λ h. ground (arith, h.0, same_digest database' database h.1)),
        )
        (
          (λ h. nost_apart (same_bytes_eq _ _ (ground arith))),
          (λ h. ground (arith, same_digest nost' nost h)),
        )
