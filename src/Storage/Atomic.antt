-- ===== src/Storage/Atomic.antt =====
-- A commit that is interrupted anywhere, followed by `recover`, has happened as a whole or not at
-- all.
use nostdb_core.Base.{
  ◌≡◌, ◌≢◌, refl, ◌∙◌, false, [], ◌∷◌, ◌⊎◌, inl, inr, Option, none, some, Bytes, Bool-cases,
  same_bytes,
}
use nostdb_core.Generation.{Generation}
use nostdb_core.Journal.{promote, encode_transaction}
use nostdb_core.Files.{FilePath, FileMap, Disk, Returned, ok, update, restart}
use nostdb_core.Files.Laws.{sound}
use nostdb_core.Storage.Defs.{StorageError}
use nostdb_core.Storage.Recover.{RecoveryReport, recover}
use nostdb_core.Storage.Paths.{staged_of, journal_of, staged-ne-path, staged-ne-journal}
use nostdb_core.Storage.Settles.{settled, Settles, Settles-unjournalled}

-- `m` is what an attempt to publish `bytes` at `path` returned, with the disk behind it; `files` was
-- on the disk before. After a restart `recover` succeeds and leaves no staged file, no journal, at
-- the path the file from before or the new one, and all else as it was. Where `m` succeeded it is
-- the new one.
pub record Atomic {A : Type 0} (path : FilePath) (files : FileMap) (bytes : Bytes)
    (m : Returned StorageError A × Disk) : Type 0 where
  pub found : Option Bytes
  pub old_or_new : (found ≡ files path) ⊎ (found ≡ some bytes)
  pub report : RecoveryReport
  pub after : FileMap
  pub recovers : recover path (restart m.1) ≡ (ok report, sound after)
  pub leaves : (q : FilePath) → after q ≡ settled path files found q
  pub completes : (a : A) → m.0 ≡ ok a → found ≡ some bytes

-- `settled` looks at no other path than these three.
settled_agree :
    (path : FilePath) (files files' : FileMap) (v : Option Bytes) (q : FilePath)
    → (same_bytes (journal_of path) q ≡ false
        → same_bytes (staged_of path) q ≡ false
        → same_bytes path q ≡ false
        → files' q ≡ files q)
    → settled path files' v q ≡ settled path files v q
settled_agree path files files' v q agree = elim (Bool-cases (same_bytes (journal_of path) q)) [
  | inl j ↦ rw j refl
  | inr j ↦ elim (Bool-cases (same_bytes (staged_of path) q)) [
    | inl s ↦ rw (j, s) refl
    | inr s ↦ elim (Bool-cases (same_bytes path q)) [
      | inl p ↦ rw (j, s, p) refl
      | inr p ↦ rw (j, s, p) (agree j s p)
    ]
  ]
]

-- Two disks agree outside the three paths.
abbrev pub Agrees : FilePath → FileMap → FileMap → Type 0
Agrees path files files' =
    (q : FilePath)
    → same_bytes (journal_of path) q ≡ false
    → same_bytes (staged_of path) q ≡ false
    → same_bytes path q ≡ false
    → files' q ≡ files q

abbrev pub journal_bytes : FilePath → Generation → Bytes
journal_bytes path g = encode_transaction g (promote (staged_of path) path ∷ [])

abbrev pub with_staged : FilePath → FileMap → Option Bytes → FileMap
with_staged path files s = update files (staged_of path) s

module _ (path : FilePath) (files : FileMap) (bytes : Bytes)
    (absent : files (journal_of path) ≡ none) where
  -- The result is judged by the disk that `recover` finds.
  pub judge :
      {A : Type 0} (m : Returned StorageError A × Disk) (files' : FileMap) (v : Option Bytes)
      → m.1.files ≡ files'
      → Settles path files' v
      → Agrees path files files'
      → (v ≡ files path) ⊎ (v ≡ some bytes)
      → ((a : A) → m.0 ≡ ok a → v ≡ some bytes)
      → Atomic path files bytes m
  judge m files' v e s agree either done = record {
    found = v;
    old_or_new = either;
    report = s.report;
    after = s.after;
    recovers = rw e s.runs;
    leaves = λ q. s.leaves q ∙ settled_agree path files files' v q (agree q);
    completes = done;
  }

  -- Nothing but the staged file was touched.
  pub staged_only :
      {A : Type 0} (m : Returned StorageError A × Disk) (s : Option Bytes)
      → m.1.files ≡ with_staged path files s
      → ((a : A) → m.0 ≢ ok a)
      → Atomic path files bytes m
  staged_only m s e failed =
      judge m (with_staged path files s) (files path) e
        (let settles : Settles path (with_staged path files s) (with_staged path files s path) =
            Settles-unjournalled path (with_staged path files s)
              (rw (staged-ne-journal path) absent) in
          rw (staged-ne-path path) at settles)
        (λ q j t p. rw t refl) (inl refl) (λ a h. absurd (failed a h))

  pub untouched :
      {A : Type 0} (m : Returned StorageError A × Disk)
      → m.1.files ≡ files
      → ((a : A) → m.0 ≢ ok a)
      → Atomic path files bytes m
  untouched m e failed =
      judge m files (files path) e (Settles-unjournalled path files absent) (λ q j t p. refl)
        (inl refl) (λ a h. absurd (failed a h))
