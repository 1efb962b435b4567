-- ===== src/FileTransaction/Applies.antt =====
-- `apply` and the removals do to a disk what `Carried` says: all of it where nothing fails, and the
-- first actions where a fault stops them.
use nostdb_core.Base.{
  ℕ, zero, suc, ◌≡◌, refl, ap, ◌∙◌, true, false, List, [], ◌∷◌, map, Option, none, some, ◌⊎◌, inl,
  inr, Option-cases, Bytes, take,
}
use nostdb_core.Journal.{JournalRecord, promote, remove}
use nostdb_core.Files.{
  FilePath, FileMap, Fault, Disk, IoError, Returned, ok, err, continue, update, change, rename,
  remove_file, exists,
}
use nostdb_core.Files.Laws.{sound, rename-change}
use nostdb_core.FileTransaction.Defs.{apply_one, apply, remove_all}
use nostdb_core.FileTransaction.Carried.{carried, carried_all}

-- The result is a success with the files `good`, or a failure with the files `bad`.
abbrev Either : FileMap → FileMap → Returned IoError (Unit {0}) × Disk → Type 0
Either good bad m =
    ((m.0 ≡ ok tt) × (m.1.files ≡ good)) ⊎ ((e : IoError) × (m.0 ≡ err e) × (m.1.files ≡ bad))

pub change-Either :
    (path : FilePath) (good files : FileMap) (fault : Option Fault)
    → Either good files (change path good files (record { files = files; fault = fault }))
unfolding change
change-Either path good files none = inl (refl, refl)
change-Either path good files (some f) = met f.after
  where
    met :
        (after : ℕ)
        → Either good files (
            change path good files
              (record { files = files; fault = some (record f { after = after }) }))
    met zero = inr (_, refl, refl)
    met (suc n) = inl (refl, refl)

module _ (p : FilePath) (d : Disk) where
  exists_no : d.files p ≡ none → exists p d ≡ (ok false, d)
  unfolding exists
  exists_no e = rw (e, exists) refl

  exists_yes : (b : Bytes) → d.files p ≡ some b → exists p d ≡ (ok true, d)
  unfolding exists
  exists_yes b e = rw (e, exists) refl

pub remove_file-change :
    (p : FilePath) (d : Disk) (b : Bytes)
    → d.files p ≡ some b
    → remove_file p d ≡ change p (update d.files p none) d.files d
unfolding remove_file
remove_file-change p d b there = rw (there, remove_file) refl

apply_one-Either :
    (r : JournalRecord) (d : Disk) → Either (carried r d.files) d.files (apply_one r d)
unfolding apply_one carried
apply_one-Either (promote s t) d = elim (Option-cases (d.files s)) [
  | inl gone ↦ rw (exists_no s d gone) (rw (gone, carried) (inl (refl, refl)))
  | inr (b, there) ↦ rw (exists_yes s d b there) (
      rw (rename-change s d b there t) (
        rw (there, carried)
          (change-Either s (update (update d.files s none) t (some b)) d.files d.fault)))
]
apply_one-Either (remove p) d = elim (Option-cases (d.files p)) [
  | inl gone ↦ rw (exists_no p d gone) (rw (gone, carried) (inl (refl, refl)))
  | inr (b, there) ↦ rw (exists_yes p d b there) (
      rw (remove_file-change p d b there)
        (rw (there, carried) (change-Either p (update d.files p none) d.files d.fault)))
]
apply_one-Either (JournalRecord.begin g) d = inl (refl, refl)
apply_one-Either JournalRecord.commit d = inl (refl, refl)

-- The first `done` actions were carried out; all of them if it succeeded.
pub record Stops (actions : List JournalRecord) (files : FileMap)
    (m : Returned IoError (Unit {0}) × Disk) : Type 0 where
  pub done : ℕ
  pub left : m.1.files ≡ carried_all (take done actions) files
  pub whole : m.0 ≡ ok tt → m.1.files ≡ carried_all actions files

step-Stops :
    (r : JournalRecord) (rest : List JournalRecord) (files : FileMap)
    (m : Returned IoError (Unit {0}) × Disk)
    → Either (carried r files) files m
    → ((d : Disk) → Stops rest d.files (apply rest d))
    → Stops (r ∷ rest) files (continue m (λ _. apply rest))
unfolding carried_all
step-Stops r rest files (ok x, d) (inl (e, f)) later =
    let s = later d in
    record {
      done = suc s.done;
      left = s.left ∙ ap (carried_all (take s.done rest)) f;
      whole = λ h. s.whole h ∙ ap (carried_all rest) f;
    }
step-Stops r rest files (ok x, d) (inr (y, e, f)) later = cc
step-Stops r rest files (err x, d) (inl (e, f)) later = cc
step-Stops r rest files (err x, d) (inr (y, e, f)) later = record {
  done = 0;
  left = f;
  whole = λ h. cc;
}

pub apply-Stops :
    (actions : List JournalRecord) (d : Disk) → Stops actions d.files (apply actions d)
unfolding apply carried_all
apply-Stops [] d = record { done = 0; left = refl; whole = λ h. refl }
apply-Stops (r ∷ rest) d =
    step-Stops r rest d.files (apply_one r d) (apply_one-Either r d) (apply-Stops rest)

apply_one-sound :
    (r : JournalRecord) (files : FileMap)
    → apply_one r (sound files) ≡ (ok tt, sound (carried r files))
unfolding apply_one carried rename remove_file change
apply_one-sound (promote s t) files = elim (Option-cases (files s)) [
  | inl gone ↦ rw (exists_no s (sound files) gone) (rw (gone, carried) refl)
  | inr (b, there) ↦ rw (exists_yes s (sound files) b there) (rw (there, carried) refl)
]
apply_one-sound (remove p) files = elim (Option-cases (files p)) [
  | inl gone ↦ rw (exists_no p (sound files) gone) (rw (gone, carried) refl)
  | inr (b, there) ↦ rw (exists_yes p (sound files) b there) (rw (there, carried) refl)
]
apply_one-sound (JournalRecord.begin g) files = refl
apply_one-sound JournalRecord.commit files = refl

pub apply-sound :
    (actions : List JournalRecord) (files : FileMap)
    → apply actions (sound files) ≡ (ok tt, sound (carried_all actions files))
unfolding apply carried_all
apply-sound [] files = refl
apply-sound (r ∷ rest) files = rw (apply_one-sound r files) (apply-sound rest (carried r files))

pub removed-sound :
    (p : FilePath) (files : FileMap)
    → (remove_file p (sound files)).1 ≡ sound (carried (remove p) files)
unfolding carried remove_file change
removed-sound p files = elim (Option-cases (files p)) [
  | inl gone ↦ rw (gone, carried) refl
  | inr (b, there) ↦ rw (there, carried) refl
]

pub remove_all-sound :
    (paths : List FilePath) (files : FileMap)
    → remove_all paths (sound files) ≡ (ok tt, sound (carried_all (map remove paths) files))
unfolding remove_all carried_all
remove_all-sound [] files = refl
remove_all-sound (p ∷ rest) files =
    rw (removed-sound p files) (remove_all-sound rest (carried (remove p) files))
