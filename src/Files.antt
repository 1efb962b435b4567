-- ===== src/Files.antt =====
-- The file system as the code uses it: what is on the disk, and the operations of `std::fs` that
-- `src/storage.rs` and `src/journal.rs` call, with `write_durably`, `read_if_present` and
-- `remove_if_present` of `src/storage.rs` on top. A path is its bytes.
-- A disk may carry a fault: after so many more changes every operation that changes the disk, and
-- every read, fails. A write that the fault meets may leave the file as it was, or holding any
-- number of the first bytes; a rename and a removal are atomic. An operation that fails because of
-- the fault stands for a failure and for a crash of the process at that point alike.
pub mod Laws
use nostdb_core.Base.{
  ℕ, zero, suc, Bool, true, false, Option, none, some, if◌then◌else◌, Bytes, take, same_bytes,
}

abbrev pub FilePath : Type 0
FilePath = Bytes

abbrev pub FileMap : Type 0
FileMap = FilePath → Option Bytes

pub record Fault : Type 0 where
  pub after : ℕ
  pub torn : Option ℕ

pub record Disk : Type 0 where
  pub files : FileMap
  pub fault : Option Fault

abbrev pub update : FileMap → FilePath → Option Bytes → FileMap
update files path v q = if same_bytes path q then v else files q

pub data IoKind : Type 0 where
  not_found other : IoKind

-- `std::io::Error`, with the path that it concerns.
pub record IoError : Type 0 where
  pub path : FilePath
  pub kind : IoKind

pub data Returned (E A : Type 0) : Type 0 where
  ok : A → Returned E A
  err : E → Returned E A

abbrev pub Io : Type 0 → Type 0 → Type 0
Io E A = Disk → Returned E A × Disk

abbrev pub continue : {E A B : Type 0} → Returned E A × Disk → (A → Io E B) → Returned E B × Disk
continue (ok a, d) f = f a d
continue (err e, d) f = (err e, d)

infixl 5 ◌>>=◌ ◌>>◌
abbrev pub ◌>>=◌ : {E A B : Type 0} → Io E A → (A → Io E B) → Io E B
◌>>=◌ m f d = continue (m d) f

abbrev pub ◌>>◌ : {E B : Type 0} → Io E (Unit {0}) → Io E B → Io E B
m >> k = m >>= λ _. k

abbrev pub pure : {E A : Type 0} → A → Io E A
pure a d = (ok a, d)

abbrev pub fail : {E A : Type 0} → E → Io E A
fail e d = (err e, d)

-- A change of the disk: `good` if the fault does not meet it, `bad` if it does.
unfoldable pub change : FilePath → FileMap → FileMap → Io IoError (Unit {0})
change path good bad d = elim d.fault [
  | none ↦ (ok tt, record d { files = good })
  | some f ↦ elim f.after [
    | zero ↦ (err (record { path = path; kind = other }), record d { files = bad })
    | suc n ↦ (ok tt, record { files = good; fault = some (record f { after = n }) })
  ]
]

-- What a write leaves that the fault meets.
unfoldable pub torn_write : FileMap → FilePath → Bytes → Option Fault → FileMap
torn_write files path bytes none = files
torn_write files path bytes (some f) = elim f.torn [
  | none ↦ files
  | some k ↦ update files path (some (take k bytes))
]

-- `write_durably`: create, write and flush.
unfoldable pub write_durably : FilePath → Bytes → Io IoError (Unit {0})
write_durably path bytes d =
    change path (update d.files path (some bytes)) (torn_write d.files path bytes d.fault) d

-- `fs::rename`
unfoldable pub rename : FilePath → FilePath → Io IoError (Unit {0})
rename source destination d = elim (d.files source) [
  | none ↦ (err (record { path = source; kind = not_found }), d)
  | some bytes ↦
      change source (update (update d.files source none) destination (some bytes)) d.files d
]

-- `fs::remove_file`
unfoldable pub remove_file : FilePath → Io IoError (Unit {0})
remove_file path d = elim (d.files path) [
  | none ↦ (err (record { path = path; kind = not_found }), d)
  | some _ ↦ change path (update d.files path none) d.files d
]

-- Whether the fault has struck.
unfoldable pub struck : Option Fault → Bool
struck none = false
struck (some f) = elim f.after [ zero ↦ true | suc _ ↦ false ]

-- `fs::read`
unfoldable pub read : FilePath → Io IoError Bytes
read path d =
    if struck d.fault
    then (err (record { path = path; kind = other }), d)
    else elim (d.files path) [
      | none ↦ (err (record { path = path; kind = not_found }), d)
      | some bytes ↦ (ok bytes, d)
    ]

-- `Path::exists`
unfoldable pub exists : FilePath → Io IoError Bool
exists path d = elim (d.files path) [ none ↦ (ok false, d) | some _ ↦ (ok true, d) ]

-- `read_if_present`: an error of the kind `NotFound` is `None`, any other is passed on.
found_or_none : Returned IoError Bytes × Disk → Returned IoError (Option Bytes) × Disk
found_or_none (ok bytes, d) = (ok (some bytes), d)
found_or_none (err e, d) = (elim e.kind [ not_found ↦ ok none | other ↦ err e ], d)

unfoldable pub read_if_present : FilePath → Io IoError (Option Bytes)
unfolding found_or_none
read_if_present path d = found_or_none (read path d)

-- `remove_if_present`: an error of the kind `NotFound` is no error.
unfoldable pub unless_missing :
    Returned IoError (Unit {0}) × Disk → Returned IoError (Unit {0}) × Disk
unless_missing (ok _, d) = (ok tt, d)
unless_missing (err e, d) = (elim e.kind [ not_found ↦ ok tt | other ↦ err e ], d)

unfoldable pub remove_if_present : FilePath → Io IoError (Unit {0})
unfolding unless_missing
remove_if_present path d = unless_missing (remove_file path d)

-- The disk after a crash and a restart: the files stay, and the fault is gone.
abbrev pub restart : Disk → Disk
restart d = record { files = d.files; fault = none }
