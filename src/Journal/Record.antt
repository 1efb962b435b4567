-- ===== src/Journal/Record.antt =====
-- `JournalRecord` and its encoding. A path is a Rust `String`: its bytes.
use nostdb_core.Base.{ℕ, ◌%◌, [], ◌++◌, Bytes, length}
use nostdb_core.Base.Words.{u32_mod, le_bytes}
use nostdb_core.Crc.{crc32c}
use nostdb_core.Generation.{Generation}

abbrev pub kind_begin : ℕ
kind_begin = 1

abbrev pub kind_promote : ℕ
kind_promote = 2

abbrev pub kind_remove : ℕ
kind_remove = 3

abbrev pub kind_commit : ℕ
kind_commit = 4

abbrev pub record_header_length : ℕ
record_header_length = 12

pub data JournalRecord : Type 0 where
  begin : Generation → JournalRecord
  promote : Bytes → Bytes → JournalRecord
  remove : Bytes → JournalRecord
  commit : JournalRecord

unfoldable pub kind : JournalRecord → ℕ
kind (begin _) = kind_begin
kind (promote _ _) = kind_promote
kind (remove _) = kind_remove
kind commit = kind_commit

-- What `write_string` appends: the length `as u32`, and the bytes.
unfoldable pub string_bytes : Bytes → Bytes
string_bytes value = le_bytes 4 (length value % u32_mod) ++ value

unfoldable pub payload : JournalRecord → Bytes
payload (begin generation) = le_bytes 8 generation
payload (promote staged destination) = string_bytes staged ++ string_bytes destination
payload (remove path) = string_bytes path
payload commit = []

-- What a record's checksum covers.
unfoldable pub covered : ℕ → ℕ → Bytes → Bytes
covered kind length body = le_bytes 4 kind ++ (le_bytes 4 length ++ body)

-- A framed record, from its kind, its length field and its payload.
unfoldable pub frame : ℕ → ℕ → Bytes → Bytes
frame kind length body =
    le_bytes 4 kind
    ++ (le_bytes 4 length ++ (le_bytes 4 (crc32c (covered kind length body)) ++ body))

unfoldable pub encode : JournalRecord → Bytes
encode r = frame (kind r) (length (payload r) % u32_mod) (payload r)
