-- ===== src/Journal/Cursor.antt =====
-- `Cursor` and `decode_payload`. A reader returns its value and the cursor behind it.
use nostdb_core.Base.{◌>>=◌, ℕ, Bool, Option, none, some, ◌==◌, if◌then◌else◌, Bytes, length, slice}
use nostdb_core.Base.Words.{checked_add, from_le}
use nostdb_core.Base.Utf8.{is_utf8}
use nostdb_core.Journal.Record.{
  JournalRecord, begin, promote, remove, commit, kind_begin, kind_promote, kind_remove, kind_commit,
}

pub record Cursor : Type 0 where
  pub bytes : Bytes
  pub at : ℕ

-- The next `n` bytes.
unfoldable pub read : ℕ → Cursor → Option (Bytes × Cursor)
read n c = do
  end ← checked_add c.at n
  array ← slice c.bytes c.at end
  some (array, record c { at = end })

unfoldable pub read_u32 : Cursor → Option (ℕ × Cursor)
read_u32 c = do (array, c') ← read 4 c; some (from_le array, c')

unfoldable pub read_u64 : Cursor → Option (ℕ × Cursor)
read_u64 c = do (array, c') ← read 8 c; some (from_le array, c')

unfoldable pub read_string : Cursor → Option (Bytes × Cursor)
read_string c = do
  (length, c') ← read_u32 c
  (text, c'') ← read length c'
  if is_utf8 text then some (text, c'') else none

unfoldable pub done : Cursor → Bool
done c = c.at == length c.bytes

-- The `match` on the kind.
unfoldable pub decode_kind : ℕ → Cursor → Option (JournalRecord × Cursor)
decode_kind kind c =
    if kind == kind_begin
    then (do (generation, c') ← read_u64 c; some (begin generation, c'))
    else if kind == kind_promote
    then (do
      (staged, c') ← read_string c
      (destination, c'') ← read_string c'
      some (promote staged destination, c''))
    else if kind == kind_remove
    then (do (path, c') ← read_string c; some (remove path, c'))
    else if kind == kind_commit
    then some (commit, c)
    else none

unfoldable pub decode_payload : ℕ → Bytes → Option JournalRecord
decode_payload kind body = do
  (r, c) ← decode_kind kind (record { bytes = body; at = 0 })
  if done c then some r else none
