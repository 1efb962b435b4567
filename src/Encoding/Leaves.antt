-- ===== src/Encoding/Leaves.antt =====
-- The writers and readers of numbers, bytes, counts and texts fit.
use nostdb_core.Base.{
  ℕ, suc, ◌+◌, ◌*◌, ◌/◌, ◌%◌, ◌≤◌, ◌<◌, ◌≡◌, refl, ap, ◌∙◌, true, false, [], ◌∷◌, ◌++◌,
  append_assoc, ltb, leb, Bytes, length, length-append, le→leb, take, drop, take-length-append,
  drop-length-append, arith,
}
use native.Mathlib.Nat.{le-div_iff_mul-le}
use nostdb_core.Base.Results.{ok}
use nostdb_core.Base.Words.{u32_mod, u64_mod, le_bytes, length-le_bytes, from_le, from_le-le_bytes}
use nostdb_core.Encoding.Strings.{Put, ◌>>◌, put, put_u32, put_u64}
use nostdb_core.Encoding.Reader.{
  Reader, Table, ◌>>=◌, return, take_bytes, read_u8, read_u32, read_u64, read_count, bounded,
}
use nostdb_core.Encoding.Codes.{Codes, bind_ok, Codes-then, Codes-put}

pub take_bytes-append :
    (n : ℕ) (xs rest : Bytes) → length xs ≡ n → take_bytes n (xs ++ rest) ≡ ok (xs, rest)
unfolding take_bytes
take_bytes-append n xs rest e =
    let room : leb n (length (xs ++ rest)) ≡ true =
      le→leb _ _ (omega (arith, length-append xs rest)) in
    let front : take n (xs ++ rest) ≡ xs = rw (← e) (take-length-append xs rest) in
    let back : drop n (xs ++ rest) ≡ rest = rw (← e) (drop-length-append xs rest) in
    rw (room, front, back) refl

module _ (v : ℕ) (rest : Bytes) where
  pub read_u32-le_bytes : v < u32_mod → read_u32 (le_bytes 4 v ++ rest) ≡ ok (v, rest)
  unfolding read_u32 return
  read_u32-le_bytes h =
      bind_ok (take_bytes 4) (λ array. return (from_le array)) _
        (take_bytes-append 4 (le_bytes 4 v) rest (length-le_bytes 4 v))
      ∙ ap (λ x. ok (x, rest)) (from_le-le_bytes 4 v h)

  pub read_u64-le_bytes : v < u64_mod → read_u64 (le_bytes 8 v ++ rest) ≡ ok (v, rest)
  unfolding read_u64 return
  read_u64-le_bytes h =
      bind_ok (take_bytes 8) (λ array. return (from_le array)) _
        (take_bytes-append 8 (le_bytes 8 v) rest (length-le_bytes 8 v))
      ∙ ap (λ x. ok (x, rest)) (from_le-le_bytes 8 v h)

  pub read_u8-byte : read_u8 (v ∷ rest) ≡ ok (v, rest)
  unfolding read_u8 return
  read_u8-byte = bind_ok (take_bytes 1) _ (v ∷ rest) (take_bytes-append 1 (v ∷ []) rest refl)

pub Codes-u8 : (tag : ℕ) → Codes 1 (put (tag ∷ [])) (λ t. read_u8) tag
Codes-u8 tag = Codes-put (tag ∷ []) (λ t. read_u8-byte tag)

pub Codes-u32 : (v : ℕ) → v < u32_mod → Codes 4 (put_u32 v) (λ t. read_u32) v
unfolding put_u32 le_bytes
Codes-u32 v h =
    let small : v % u32_mod ≡ v = omega arith in
    rw small (Codes-put (le_bytes 4 v) (λ t rest. read_u32-le_bytes v rest h))

pub Codes-u64 : (v : ℕ) → v < u64_mod → Codes 8 (put_u64 v) (λ t. read_u64) v
unfolding put_u64 le_bytes
Codes-u64 v h = Codes-put (le_bytes 8 v) (λ t rest. read_u64-le_bytes v rest h)

-- The bit pattern of an `f32`.
pub Codes-f32 : (v : ℕ) → v < u32_mod → Codes 4 (put (le_bytes 4 v)) (λ t. read_u32) v
unfolding le_bytes
Codes-f32 v h = Codes-put (le_bytes 4 v) (λ t rest. read_u32-le_bytes v rest h)

pub Codes-take :
    (n : ℕ) (bytes : Bytes) → length bytes ≡ n → Codes n (put bytes) (λ t. take_bytes n) bytes
Codes-take n bytes e =
    rw (← e) (Codes-put bytes (λ t rest. take_bytes-append (length bytes) bytes rest refl))

-- A count is let through if what follows it has room for so many records.
bounded-room :
    (least n : ℕ) (bytes : Bytes)
    → n * suc least ≤ length bytes
    → bounded (suc least) n bytes ≡ ok (n, bytes)
unfolding bounded
bounded-room least n bytes h =
    let fits : n ≤ length bytes / suc least = (le-div_iff_mul-le (omega arith)).1 h in
    let test : ltb (length bytes / suc least) n ≡ false = ground arith in rw test refl

pub read_count-room :
    (least n : ℕ) (bytes : Bytes)
    → n < u32_mod
    → n * suc least ≤ length bytes
    → read_count (suc least) (le_bytes 4 (n % u32_mod) ++ bytes) ≡ ok (n, bytes)
unfolding read_count
read_count-room least n bytes h room =
    let small : n % u32_mod ≡ n = omega arith in
    rw small (
      bind_ok read_u32 (bounded (suc least)) _ (read_u32-le_bytes n bytes h)
      ∙ bounded-room least n bytes room)

module _ {B : Type 0} {b : ℕ} {w : Put} {u : B} (least n : ℕ) where
  -- A count, and what it counts.
  pub Codes-count :
      (k : Table → ℕ → Reader B)
      → n < u32_mod
      → n * suc least ≤ b
      → Codes b w (λ t. k t n) u
      → Codes (4 + b) (put_u32 n >> w) (λ t. read_count (suc least) >>= k t) u
  unfolding ◌>>◌ put_u32 put
  Codes-count k h room a =
      let whole = Codes-then k (Codes-u32 n h) a in
      record {
        long = whole.long;
        texts = whole.texts;
        grows = whole.grows;
        reads = λ t s below end c.
            let (c1, read1) = a.reads t s below end c in
            (
              c1,
              λ rest.
                  let room : n * suc least ≤ length ((w s).0 ++ rest) =
                    omega (arith, a.long s, room, length-append (w s).0 rest) in
                  rw (append_assoc (le_bytes 4 (n % u32_mod)) (w s).0 rest) (
                    bind_ok (read_count (suc least)) (k t) _ (read_count-room least n _ h room)
                    ∙ read1 rest),
            );
      }
