-- ===== src/FileTransaction/Again.antt =====
-- Carrying the same actions out again: after an interruption, after a success, and where a removal
-- comes before a promotion to the same path.
use nostdb_core.Base.{
  ◌≡◌, refl, ap, sym, ◌∙◌, false, Bool, List, [], ◌∷◌, map, inl, inr, none, some, Option-cases,
  Bool-cases, Bytes, same_bytes, same_bytes_refl, same_bytes_eq, ◌||◌, arith, if◌then◌else◌,
}
use nostdb_core.Journal.{JournalRecord, promote, remove}
use nostdb_core.Files.{FilePath, FileMap, Disk, ok, restart}
use nostdb_core.Files.Laws.{sound}
use nostdb_core.FileTransaction.Defs.{FileTransaction, apply, abandon}
use nostdb_core.FileTransaction.Carried.{
  carried, carried_all, Replayable, resume, Spares, carried-Spares, promoted-gone, removed-gone,
}
use nostdb_core.FileTransaction.Applies.{apply-Stops, apply-sound, remove_all-sound}

-- Where no promotion ends at a path that an earlier or the same action takes away, applying
-- the actions to what any fault left of a first attempt ends like applying them with no fault.
pub apply-resumes :
    (actions : List JournalRecord) (d : Disk)
    → Replayable actions
    → apply actions (restart (apply actions d).1) ≡ apply actions (restart d)
apply-resumes actions d r =
    let s = apply-Stops actions d in
    rw s.left (
      apply-sound actions _
      ∙ ap (λ f. (ok tt, sound f)) (resume s.done actions d.files r)
      ∙ sym (apply-sound actions d.files))

-- A promotion of a file that is there, and of one that is not.
promoted-there :
    (staged path : FilePath) (files : FileMap) (b : Bytes)
    → files staged ≡ some b
    → carried (promote staged path) files path ≡ some b
unfolding carried
promoted-there staged path files b there = rw (there, carried) (rw (same_bytes_refl path) refl)

promoted-idle :
    (staged path : FilePath) (files : FileMap)
    → files staged ≡ none
    → carried (promote staged path) files ≡ files
unfolding carried
promoted-idle staged path files gone = rw (gone, carried) refl

-- Removing a path and then promoting a staged file to it puts that file there the first time, and
-- leaves nothing there the second time, if the two paths differ and the staged file is there.
pub apply-remove_promote_twice :
    (staged path : FilePath) (files : FileMap) (b : Bytes)
    → same_bytes path staged ≡ false
    → files staged ≡ some b
    → let actions : List JournalRecord = remove path ∷ promote staged path ∷ [] in
      let first : Disk = (apply actions (sound files)).1 in
      (first.files path ≡ some b) × ((apply actions first).1.files path ≡ none)
unfolding carried_all Spares
apply-remove_promote_twice staged path files b apart there =
    let actions : List JournalRecord = remove path ∷ promote staged path ∷ [] in
    let emptied : FileMap = carried (remove path) files in
    let once : FileMap = carried (promote staged path) emptied in
    let again : FileMap = carried (remove path) once in
    let still : emptied staged ≡ some b =
      carried-Spares staged (remove path) files (apart, tt) ∙ there in
    let used : again staged ≡ none =
      carried-Spares staged (remove path) once (apart, tt)
      ∙ promoted-gone staged path emptied apart in
    rw (apply-sound actions files) (
      promoted-there staged path emptied b still,
      rw (apply-sound actions once)
          (ap (λ f. f path) (promoted-idle staged path again used) ∙ removed-gone path once),
    )

removed-lookup :
    (p q : FilePath) (files : FileMap)
    → carried (remove p) files q ≡ (if same_bytes p q then none else files q)
unfolding carried
removed-lookup p q files = elim (Option-cases (files p)) [
  | inl gone ↦
      rw (gone, carried)
        (elim (Bool-cases (same_bytes p q)) [
          | inl same ↦ rw same (ap files (sym (same_bytes_eq p q same)) ∙ gone)
          | inr apart ↦ rw apart refl
        ])
  | inr (b, there) ↦ rw (there, carried) refl
]

unfoldable pub is_among : FilePath → List FilePath → Bool
is_among q [] = false
is_among q (p ∷ rest) = same_bytes p q || is_among q rest

removed_all-lookup :
    (q : FilePath) (paths : List FilePath) (files : FileMap)
    → carried_all (map remove paths) files q ≡ (if is_among q paths then none else files q)
unfolding carried_all is_among
removed_all-lookup q [] files = refl
removed_all-lookup q (p ∷ rest) files =
    let later = removed_all-lookup q rest (carried (remove p) files) in
    let here = removed-lookup p q files in ground arith

-- Abandoning a transaction on a disk with no fault succeeds, and removes the files that it staged and
-- no other.
pub abandon-removes :
    (t : FileTransaction) (files : FileMap)
    → (after : FileMap) × (abandon t (sound files) ≡ (ok tt, sound after))
      × ((q : FilePath) → after q ≡ (if is_among q t.staged then none else files q))
unfolding abandon
abandon-removes t files =
    (_, remove_all-sound t.staged files, λ q. removed_all-lookup q t.staged files)
