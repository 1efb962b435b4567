-- ===== src/Files/Laws.antt =====
-- The operations on a disk with no fault, and how the steps of a program follow one another.
use nostdb_core.Base.{◌≡◌, refl, true, false, none, some, Bytes}
use nostdb_core.Files.{
  FilePath, FileMap, Disk, ok, err, Io, not_found, ◌>>=◌, update, change, rename, remove_file, read,
  struck, exists, read_if_present, remove_if_present, unless_missing,
}

abbrev pub sound : FileMap → Disk
sound files = record { files = files; fault = none }

module _ {E A B : Type 0} where
  -- A step that succeeds hands its value and its disk on.
  pub bind-ok :
      (m : Io E A) (f : A → Io E B) (d d' : Disk) (a : A) → m d ≡ (ok a, d') → (m >>= f) d ≡ f a d'
  bind-ok m f d d' a e = rw e refl

  pub bind-err :
      (m : Io E A) (f : A → Io E B) (d d' : Disk) (x : E)
      → m d ≡ (err x, d')
      → (m >>= f) d ≡ (err x, d')
  bind-err m f d d' x e = rw e refl

module _ (p : FilePath) (files : FileMap) where
  read_missing :
      files p ≡ none
      → read p (sound files) ≡ (err (record { path = p; kind = not_found }), sound files)
  unfolding read struck
  read_missing e = rw (e, read) refl

  pub read_there : (b : Bytes) → files p ≡ some b → read p (sound files) ≡ (ok b, sound files)
  unfolding read struck
  read_there b e = rw (e, read) refl

  pub read_if_present_missing :
      files p ≡ none → read_if_present p (sound files) ≡ (ok none, sound files)
  unfolding read_if_present
  read_if_present_missing e = rw (read_missing e) refl

  pub read_if_present_there :
      (b : Bytes) → files p ≡ some b → read_if_present p (sound files) ≡ (ok (some b), sound files)
  unfolding read_if_present
  read_if_present_there b e = rw (read_there b e) refl

  remove_missing :
      files p ≡ none
      → remove_file p (sound files) ≡ (err (record { path = p; kind = not_found }), sound files)
  unfolding remove_file
  remove_missing e = rw (e, remove_file) refl

  remove_there :
      (b : Bytes)
      → files p ≡ some b
      → remove_file p (sound files) ≡ (ok tt, sound (update files p none))
  unfolding remove_file change
  remove_there b e = rw (e, remove_file) refl

  pub remove_if_present_missing :
      files p ≡ none → remove_if_present p (sound files) ≡ (ok tt, sound files)
  unfolding remove_if_present
  remove_if_present_missing e = rw (remove_missing e) refl

  pub remove_if_present_there :
      (b : Bytes)
      → files p ≡ some b
      → remove_if_present p (sound files) ≡ (ok tt, sound (update files p none))
  unfolding remove_if_present
  remove_if_present_there b e = rw (remove_there b e) refl

  pub exists_missing : files p ≡ none → exists p (sound files) ≡ (ok false, sound files)
  unfolding exists
  exists_missing e = rw (e, exists) refl

  pub exists_there :
      (b : Bytes) → files p ≡ some b → exists p (sound files) ≡ (ok true, sound files)
  unfolding exists
  exists_there b e = rw (e, exists) refl

  pub rename_there :
      (destination : FilePath) (b : Bytes)
      → files p ≡ some b
      → rename p destination (sound files)
        ≡ (ok tt, sound (update (update files p none) destination (some b)))
  unfolding rename change
  rename_there destination b e = rw (e, rename) refl

-- On any disk, where the file is there.
module _ (p : FilePath) (d : Disk) (b : Bytes) (there : d.files p ≡ some b) where
  pub rename-change :
      (destination : FilePath)
      → rename p destination d
        ≡ change p (update (update d.files p none) destination (some b)) d.files d
  unfolding rename
  rename-change destination = rw (there, rename) refl

  pub remove_if_present-change :
      remove_if_present p d ≡ unless_missing (change p (update d.files p none) d.files d)
  unfolding remove_if_present remove_file
  remove_if_present-change = rw (there, remove_file) refl
