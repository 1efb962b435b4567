-- ===== src/FileTransaction/Carried.antt =====
-- What carrying actions out makes of the files, and that doing so again after a part of it was done
-- makes no difference.
use nostdb_core.Base.{
  ℕ, zero, suc, ◌≡◌, refl, ap, ◌∙◌, false, List, [], ◌∷◌, none, some, inl, inr, Option-cases, take,
  same_bytes, same_bytes_refl, arith,
}
use nostdb_core.Journal.{JournalRecord, promote, remove}
use nostdb_core.Files.{FilePath, FileMap, update}

unfoldable pub carried : JournalRecord → FileMap → FileMap
carried (promote staged destination) files = elim (files staged) [
  | none ↦ files
  | some bytes ↦ update (update files staged none) destination (some bytes)
]
carried (remove path) files = elim (files path) [ none ↦ files | some _ ↦ update files path none ]
carried _ files = files

unfoldable pub carried_all : List JournalRecord → FileMap → FileMap
carried_all [] files = files
carried_all (r ∷ rest) files = carried_all rest (carried r files)

-- No promotion ends at `path`.
unfoldable pub NotReached : FilePath → List JournalRecord → Type 0
NotReached path [] = Unit
NotReached path (promote _ destination ∷ rest) =
    (same_bytes destination path ≡ false) × NotReached path rest
NotReached path (_ ∷ rest) = NotReached path rest

-- No promotion ends at the staged file of itself or of an earlier one, or at a path removed earlier.
unfoldable pub Replayable : List JournalRecord → Type 0
Replayable [] = Unit
Replayable (promote staged destination ∷ rest) =
    (same_bytes destination staged ≡ false) × NotReached staged rest × Replayable rest
Replayable (remove path ∷ rest) = NotReached path rest × Replayable rest
Replayable (_ ∷ rest) = Replayable rest

-- No action touches `path`.
unfoldable pub Spares : FilePath → List JournalRecord → Type 0
Spares path [] = Unit
Spares path (promote staged destination ∷ rest) =
    (same_bytes staged path ≡ false) × (same_bytes destination path ≡ false) × Spares path rest
Spares path (remove p ∷ rest) = (same_bytes p path ≡ false) × Spares path rest
Spares path (_ ∷ rest) = Spares path rest

-- One action leaves `path` without a file, or as it is.
carried-gone :
    (path : FilePath) (r : JournalRecord) (files : FileMap)
    → NotReached path (r ∷ [])
    → files path ≡ none
    → carried r files path ≡ none
unfolding carried NotReached
carried-gone path (promote staged destination) files n e = elim (Option-cases (files staged)) [
  | inl gone ↦ rw (gone, carried) e
  | inr (bytes, there) ↦ rw (there, carried) (ground arith)
]
carried-gone path (remove p) files n e = elim (Option-cases (files p)) [
  | inl gone ↦ rw (gone, carried) e
  | inr (bytes, there) ↦ rw (there, carried) (ground arith)
]
carried-gone path (JournalRecord.begin g) files n e = e
carried-gone path JournalRecord.commit files n e = e

stays_gone :
    (path : FilePath) (k : ℕ) (actions : List JournalRecord) (files : FileMap)
    → NotReached path actions
    → files path ≡ none
    → carried_all (take k actions) files path ≡ none
unfolding carried_all NotReached
stays_gone path zero actions files n e = e
stays_gone path (suc k) [] files n e = e
stays_gone path (suc k) (promote s d ∷ rest) files n e =
    stays_gone path k rest (carried (promote s d) files) n.1
      (carried-gone path (promote s d) files (n.0, tt) e)
stays_gone path (suc k) (remove p ∷ rest) files n e =
    stays_gone path k rest (carried (remove p) files) n (carried-gone path (remove p) files tt e)
stays_gone path (suc k) (JournalRecord.begin g ∷ rest) files n e =
    stays_gone path k rest (carried (JournalRecord.begin g) files) n
      (carried-gone path (JournalRecord.begin g) files tt e)
stays_gone path (suc k) (JournalRecord.commit ∷ rest) files n e =
    stays_gone path k rest (carried JournalRecord.commit files) n
      (carried-gone path JournalRecord.commit files tt e)

pub promoted-gone :
    (staged destination : FilePath) (files : FileMap)
    → same_bytes destination staged ≡ false
    → carried (promote staged destination) files staged ≡ none
unfolding carried
promoted-gone staged destination files apart = elim (Option-cases (files staged)) [
  | inl gone ↦ rw (gone, carried) gone
  | inr (bytes, there) ↦ rw (there, carried) (rw (apart, same_bytes_refl staged) refl)
]

pub removed-gone : (path : FilePath) (files : FileMap) → carried (remove path) files path ≡ none
unfolding carried
removed-gone path files = elim (Option-cases (files path)) [
  | inl gone ↦ rw (gone, carried) gone
  | inr (bytes, there) ↦ rw (there, carried) (rw (same_bytes_refl path) refl)
]

-- Carrying out all actions behind the first `k` of them is carrying out all of them.
pub resume :
    (k : ℕ) (actions : List JournalRecord) (files : FileMap)
    → Replayable actions
    → carried_all actions (carried_all (take k actions) files) ≡ carried_all actions files
unfolding carried_all carried Replayable
resume zero actions files r = refl
resume (suc k) [] files r = refl
resume (suc k) (promote s d ∷ rest) files r =
    let files' = carried (promote s d) files in
    let gone : carried_all (take k rest) files' s ≡ none =
      stays_gone s k rest files' r.1 (promoted-gone s d files r.0) in
    let again : carried (promote s d) (carried_all (take k rest) files')
        ≡ carried_all (take k rest) files' =
      rw (gone, carried) refl in
    ap (carried_all rest) again ∙ resume k rest files' r.2
resume (suc k) (remove p ∷ rest) files r =
    let files' = carried (remove p) files in
    let gone : carried_all (take k rest) files' p ≡ none =
      stays_gone p k rest files' r.0 (removed-gone p files) in
    let again : carried (remove p) (carried_all (take k rest) files')
        ≡ carried_all (take k rest) files' =
      rw (gone, carried) refl in
    ap (carried_all rest) again ∙ resume k rest files' r.1
resume (suc k) (JournalRecord.begin g ∷ rest) files r = resume k rest files r
resume (suc k) (JournalRecord.commit ∷ rest) files r = resume k rest files r

module _ (path : FilePath) where
  pub carried-Spares :
      (r : JournalRecord) (files : FileMap)
      → Spares path (r ∷ [])
      → carried r files path ≡ files path
  unfolding carried Spares
  carried-Spares (promote s d) files n = elim (Option-cases (files s)) [
    | inl gone ↦ rw (gone, carried) refl
    | inr (bytes, there) ↦ rw (there, carried) (rw (n.1, n.0) refl)
  ]
  carried-Spares (remove p) files n = elim (Option-cases (files p)) [
    | inl gone ↦ rw (gone, carried) refl
    | inr (bytes, there) ↦ rw (there, carried) (rw n.0 refl)
  ]
  carried-Spares (JournalRecord.begin g) files n = refl
  carried-Spares JournalRecord.commit files n = refl

  pub carried_all-Spares :
      (actions : List JournalRecord) (files : FileMap)
      → Spares path actions
      → carried_all actions files path ≡ files path
  unfolding carried_all Spares
  carried_all-Spares [] files n = refl
  carried_all-Spares (promote s d ∷ rest) files n =
      carried_all-Spares rest (carried (promote s d) files) n.2
      ∙ carried-Spares (promote s d) files (n.0, n.1, tt)
  carried_all-Spares (remove p ∷ rest) files n =
      carried_all-Spares rest (carried (remove p) files) n.1
      ∙ carried-Spares (remove p) files (n.0, tt)
  carried_all-Spares (JournalRecord.begin g ∷ rest) files n =
      carried_all-Spares rest (carried (JournalRecord.begin g) files) n
      ∙ carried-Spares (JournalRecord.begin g) files tt
  carried_all-Spares (JournalRecord.commit ∷ rest) files n =
      carried_all-Spares rest (carried JournalRecord.commit files) n
      ∙ carried-Spares JournalRecord.commit files tt
