-- ===== src/Encoding/Tables.antt =====
-- The string table is read back.
use nostdb_core.Base.{
  ◌*◌, ◌%◌, ◌≤◌, ◌<◌, ◌≡◌, refl, ◌∙◌, List, [], ◌∷◌, ◌++◌, append_assoc, append-nil, Bytes, length,
  length-append, arith,
}
use nostdb_core.Base.Results.{ok}
use nostdb_core.Base.Words.{u32_mod, le_bytes, length-le_bytes}
use nostdb_core.Encoding.Strings.{Strings, encode_entries, encode}
use nostdb_core.Encoding.Reader.{
  ◌>>=◌, return, take_bytes, read_u32, read_count, repeat, finish, checked_text, read_entry,
  read_table, run, Reader,
}
use nostdb_core.Encoding.Codes.{IsText, AllTexts, bind_ok}
use nostdb_core.Encoding.Leaves.{take_bytes-append, read_u32-le_bytes, read_count-room}

read_entry-text :
    (text rest : Bytes)
    → IsText text
    → read_entry (le_bytes 4 (length text % u32_mod) ++ (text ++ rest)) ≡ ok (text, rest)
unfolding read_entry checked_text return
read_entry-text text rest (utf8, short) =
    let small : length text % u32_mod ≡ length text = omega arith in
    rw small (
      bind_ok read_u32 (λ n. take_bytes n >>= checked_text) _
        (read_u32-le_bytes (length text) (text ++ rest) short)
      ∙ bind_ok (take_bytes (length text)) checked_text _
          (take_bytes-append (length text) text rest refl)
      ∙ rw utf8 refl)

repeat-encode_entries :
    (texts : List Bytes) (rest : Bytes)
    → AllTexts texts
    → repeat (length texts) read_entry (encode_entries texts ++ rest) ≡ ok (texts, rest)
unfolding encode_entries repeat return
repeat-encode_entries [] rest h = refl
repeat-encode_entries (text ∷ texts) rest (h, hs) =
    rw
      (
        append_assoc (le_bytes 4 (length text % u32_mod)) (text ++ encode_entries texts) rest,
        append_assoc text (encode_entries texts) rest,
      )
      (bind_ok read_entry _ _ (read_entry-text text (encode_entries texts ++ rest) h)
        ∙ bind_ok (repeat (length texts) read_entry) (λ xs. return (text ∷ xs)) _
            (repeat-encode_entries texts rest hs))

length-encode_entries : (texts : List Bytes) → length texts * 4 ≤ length (encode_entries texts)
unfolding encode_entries
length-encode_entries [] = omega arith
length-encode_entries (text ∷ texts) = omega (
  arith,
  length-encode_entries texts,
  length-le_bytes 4 (length text % u32_mod),
  length-append (le_bytes 4 (length text % u32_mod)) (text ++ encode_entries texts),
  length-append text (encode_entries texts),
)

-- A reader of everything that there is.
pub run_whole :
    {A : Type 0} (r : Reader A) (payload : Bytes) {v : A}
    → r (payload ++ []) ≡ ok (v, [])
    → run r payload ≡ ok v
unfolding run
run_whole r payload e = rw (← append-nil payload) (rw (e, run) refl)

room_for_texts : (texts : List Bytes) → length texts * 4 ≤ length (encode_entries texts ++ [])
room_for_texts texts = rw (append-nil (encode_entries texts)) (length-encode_entries texts)

pub read_table-encode :
    (s : Strings)
    → AllTexts s.entries
    → length s.entries < u32_mod
    → run read_table (encode s) ≡ ok s.entries
unfolding encode read_table finish return
read_table-encode s h short = run_whole read_table (encode s) (
    rw (append_assoc (le_bytes 4 (length s.entries % u32_mod)) (encode_entries s.entries) []) (
      bind_ok (read_count 4) _ _
        (read_count-room 3 (length s.entries) _ short (room_for_texts s.entries))
      ∙ bind_ok (repeat (length s.entries) read_entry) _ _ (repeat-encode_entries s.entries [] h)
      ∙ bind_ok finish (λ _. return s.entries) [] refl))
