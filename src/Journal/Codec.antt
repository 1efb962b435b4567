-- ===== src/Journal/Codec.antt =====
-- A record that is written is read back.
use nostdb_core.Base.{
  max_length, drop-drop, ℕ, ◌+◌, ◌-◌, ◌%◌, ◌≤◌, ◌<◌, ◌≡◌, refl, ap, ◌∙◌, true, List, [], ◌∷◌, ◌++◌,
  append-nil, append_assoc, some, Bytes, length, take, drop, slice, length-append, le→leb,
  take-length-append, drop-length-append, arith,
}
use nostdb_core.Base.Words.{
  checked_add, u32_mod, u64_mod, checked_add_fits, le_bytes, length-le_bytes, from_le-le_bytes,
}
use nostdb_core.Base.Utf8.{IsUtf8}
use nostdb_core.Generation.{IsU64}
use nostdb_core.Journal.Record.{JournalRecord, begin, promote, remove, commit, string_bytes}
use nostdb_core.Journal.Cursor.{Cursor, read, read_u32, read_u64, read_string, done}

-- A record that `encode` can frame: its texts are UTF-8 and its payload has a 32-bit length.
abbrev pub IsValid : JournalRecord → Type 0
IsValid (begin generation) = IsU64 generation
IsValid (promote staged destination) =
    IsUtf8 staged × IsUtf8 destination × (length staged + length destination + 8 < u32_mod)
IsValid (remove path) = IsUtf8 path × (length path + 4 < u32_mod)
IsValid commit = Unit

-- The cursor stands before `rest`, in a slice that Rust can hold.
pub record Before (c : Cursor) (rest : Bytes) : Type 0 where
  pub left : drop c.at c.bytes ≡ rest
  pub place : c.at + length rest ≡ length c.bytes
  pub fits : length c.bytes < max_length

abbrev pub step : ℕ → Cursor → Cursor
step n c = record c { at = c.at + n }

module _ (c : Cursor) (n : ℕ) (xs rest : Bytes) (b : Before c (xs ++ rest))
    (e : length xs ≡ n) where
  pub slice-Before : slice c.bytes c.at (c.at + n) ≡ some xs
  unfolding slice
  slice-Before =
      let room : c.at + n ≤ length c.bytes = omega (arith, b.place, length-append xs rest) in
      let width : c.at + n - c.at ≡ n = omega arith in
      let front : take n (xs ++ rest) ≡ xs = rw (← e) (take-length-append xs rest) in
      rw (le→leb (c.at + n) _ room, le→leb c.at (c.at + n) (omega arith), width, b.left, front) refl

  pub checked_add-Before : checked_add c.at n ≡ some (c.at + n)
  checked_add-Before =
      checked_add_fits c.at n (omega (arith, b.fits, b.place, length-append xs rest))

  pub read-Before : read n c ≡ some (xs, step n c)
  unfolding read
  read-Before = rw checked_add-Before (rw slice-Before refl)

  pub step-Before : Before (step n c) rest
  step-Before = record {
    left = drop-drop c.at n c.bytes ∙ ap (drop n) b.left ∙ rw (← e) (drop-length-append xs rest);
    place = omega (arith, b.place, length-append xs rest);
    fits = b.fits;
  }

module _ (c : Cursor) (v : ℕ) (rest : Bytes) where
  pub read_u32-Before :
      Before c (le_bytes 4 v ++ rest) → v < u32_mod → read_u32 c ≡ some (v, step 4 c)
  unfolding read_u32
  read_u32-Before b h =
      rw (read-Before c 4 (le_bytes 4 v) rest b (length-le_bytes 4 v))
        (ap (λ k. some (k, step 4 c)) (from_le-le_bytes 4 v h))

  pub read_u64-Before :
      Before c (le_bytes 8 v ++ rest) → v < u64_mod → read_u64 c ≡ some (v, step 8 c)
  unfolding read_u64
  read_u64-Before b h =
      rw (read-Before c 8 (le_bytes 8 v) rest b (length-le_bytes 8 v))
        (ap (λ k. some (k, step 8 c)) (from_le-le_bytes 8 v h))

module _ (c : Cursor) (text rest : Bytes) (b : Before c (string_bytes text ++ rest)) where
  opened : length text < u32_mod → Before c (le_bytes 4 (length text) ++ (text ++ rest))
  unfolding string_bytes
  opened h =
      let small : length text % u32_mod ≡ length text = omega arith in
      let b' : Before c ((le_bytes 4 (length text) ++ text) ++ rest) = rw small at b in
      rw (append_assoc (le_bytes 4 (length text)) text rest) at b'

  pub read_string-Before :
      length text < u32_mod
      → IsUtf8 text
      → read_string c ≡ some (text, step (length text) (step 4 c))
  unfolding read_string
  read_string-Before h u =
      let o = opened h in
      let after =
        step-Before c 4 (le_bytes 4 (length text)) (text ++ rest) o (length-le_bytes 4 _) in
      rw (read_u32-Before c (length text) (text ++ rest) o h)
        (rw (read-Before (step 4 c) (length text) text rest after refl) (rw u refl))

  pub step-Before_string : length text < u32_mod → Before (step (length text) (step 4 c)) rest
  step-Before_string h =
      step-Before (step 4 c) (length text) text rest
        (step-Before c 4 (le_bytes 4 (length text)) (text ++ rest) (opened h) (length-le_bytes 4 _))
        refl

unfoldable pub start : Bytes → Cursor
start bytes = record { bytes = bytes; at = 0 }

pub start-Before : (bytes : Bytes) → length bytes < max_length → Before (start bytes) (bytes ++ [])
unfolding start
start-Before bytes h = rw append-nil (record { left = refl; place = omega arith; fits = h })

-- Behind the last field nothing is left.
pub done-Before : (c : Cursor) → Before c [] → done c ≡ true
unfolding done
done-Before c b = let e : c.at ≡ length c.bytes = omega (arith, b.place) in ground arith

abbrev pub AllValid : List JournalRecord → Type 0
AllValid [] = Unit
AllValid (r ∷ rs) = IsValid r × AllValid rs
