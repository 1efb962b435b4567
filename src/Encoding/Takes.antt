-- ===== src/Encoding/Takes.antt =====
-- The least that a reader takes, where it succeeds.
use nostdb_core.Base.{
  ℕ, zero, suc, ◌+◌, ◌*◌, ◌/◌, ◌≤◌, ◌≡◌, refl, ap, Bool, true, false, [], ◌∷◌, Option, none, some,
  inl, inr, Bytes, length, if◌then◌else◌, Bool-cases, ltb, ◌==◌, arith,
}
use native.Mathlib.Nat.{le-div_iff_mul-le}
use nostdb_core.Base.Results.{Result, ok, err}
use nostdb_core.Encoding.Errors.{DecodeError}
use nostdb_core.Encoding.Reader.{
  Reader, Table, ◌>>=◌, return, fail, lift, take_bytes, read_u8, read_u32, read_u64, id16, bounded,
  read_count, repeat, get, optional, read_string, read_optional, capacity,
}
use nostdb_core.Encoding.Strings.{no_string}
use nostdb_core.Encoding.Counts.{Result-cases, bind_inv, take_bytes_inv, bounded_inv, length-drop}

pub record Takes {A : Type 0} (n : ℕ) (r : Reader A) : Type 0 where
  pub takes :
      (bytes : Bytes) (v : A) (rest : Bytes)
      → r bytes ≡ ok (v, rest)
      → n + length rest ≤ length bytes

module _ {A : Type 0} where
  pub Takes-least : {m n : ℕ} {r : Reader A} → Takes n r → m ≤ n → Takes m r
  Takes-least t h = record { takes = λ bytes v rest e. omega (arith, t.takes bytes v rest e) }

  pub Takes-any : {n : ℕ} {r : Reader A} → Takes n r → Takes 0 r
  Takes-any t = Takes-least t (omega arith)

  pub Takes-return : (v : A) → Takes 0 (return v)
  unfolding return
  Takes-return v = record {
    takes = λ bytes u rest e. let same : bytes ≡ rest = cc in omega (arith, ap length same);
  }

  pub Takes-fail : {n : ℕ} (e : DecodeError) → Takes {A = A} n (fail e)
  unfolding fail
  Takes-fail e = record { takes = λ bytes v rest h. absurd cc }

  pub Takes-lift : (o : Result DecodeError A) → Takes 0 (lift o)
  unfolding lift
  Takes-lift (err e) = record { takes = λ bytes v rest h. absurd cc }
  Takes-lift (ok v) = record {
    takes = λ bytes u rest e. let same : bytes ≡ rest = cc in omega (arith, ap length same);
  }

  pub Takes-if :
      (b : Bool) {n : ℕ} {r r' : Reader A} → Takes n r → Takes n r' → Takes n (if b then r else r')
  Takes-if true s t = s
  Takes-if false s t = t

module _ {A B : Type 0} where
  pub Takes-then :
      {m n : ℕ} {r : Reader A} {k : A → Reader B}
      → Takes m r
      → ((v : A) → Takes n (k v))
      → Takes (m + n) (r >>= k)
  Takes-then {m} {n} {r} {k} first next = record {
    takes = λ bytes u rest e.
        let (v, between, h1, h2) = bind_inv r k bytes u rest e in
        omega (arith, first.takes bytes v between h1, (next v).takes between u rest h2);
  }

  -- The last step makes a value of what was read.
  pub Takes-map :
      {n : ℕ} {r : Reader A} (f : A → B) → Takes n r → Takes n (r >>= (λ v. return (f v)))
  Takes-map f first = Takes-least (Takes-then first (λ v. Takes-return (f v))) (omega arith)

pub Takes-bytes : (n : ℕ) → Takes n (take_bytes n)
Takes-bytes n = record {
  takes = λ bytes v rest e.
      let (room, _, left) = take_bytes_inv n bytes e in
      omega (arith, room, ap length left, length-drop n bytes);
}

pub Takes-u8 : Takes 1 read_u8
unfolding read_u8
Takes-u8 = Takes-map _ (Takes-bytes 1)

pub Takes-u32 : Takes 4 read_u32
unfolding read_u32
Takes-u32 = Takes-map _ (Takes-bytes 4)

pub Takes-u64 : Takes 8 read_u64
unfolding read_u64
Takes-u64 = Takes-map _ (Takes-bytes 8)

pub Takes-id16 : Takes 16 id16
unfolding id16
Takes-id16 = Takes-bytes 16

Takes-bounded : (least n : ℕ) → Takes 0 (bounded (suc least) n)
Takes-bounded least n = record {
  takes = λ bytes v rest e.
      let (_, same, _) = bounded_inv least n bytes e in omega (arith, ap length same);
}

pub Takes-count : (least : ℕ) → Takes 4 (read_count (suc least))
unfolding read_count
Takes-count least = Takes-then Takes-u32 (Takes-bounded least)

pub Takes-repeat :
    {A : Type 0} {n : ℕ} {r : Reader A}
    → Takes n r
    → (count : ℕ) → Takes (count * n) (repeat count r)
unfolding repeat
Takes-repeat one zero = Takes-least (Takes-return []) (omega arith)
Takes-repeat {n = n} one (suc count) =
    Takes-least (Takes-then one (λ x. Takes-map (λ xs. x ∷ xs) (Takes-repeat one count)))
      (omega arith)

pub Takes-string : (table : Table) → Takes 4 (read_string table)
unfolding read_string
Takes-string table = Takes-then Takes-u32 (λ index. Takes-lift (get table index))

pub Takes-optional : (table : Table) → Takes 4 (read_optional table)
unfolding read_optional optional
Takes-optional table = Takes-then Takes-u32 (λ index.
    Takes-if (index == no_string) (Takes-return none)
      (Takes-map some (Takes-lift (get table index))))

-- What is accepted, the error aside.
unfoldable pub accepted : {E A : Type 0} → Result E A → Option A
accepted (err e) = none
accepted (ok v) = some v

-- A count is checked against what is left, and then as many records are read as it says. If they take
-- at least what the check reckons with, then it refuses no payload that is accepted without it.
module _ {A : Type 0} (least : ℕ) (loop : ℕ → Reader A)
    (records : (count : ℕ) → Takes (count * suc least) (loop count)) where
  bounded-unchecked :
      (count : ℕ) (bytes : Bytes)
      → accepted ((bounded (suc least) count >>= loop) bytes) ≡ accepted (loop count bytes)
  unfolding bounded accepted ◌>>=◌
  bounded-unchecked count bytes = elim (Bool-cases (ltb (capacity (suc least) bytes) count)) [
    | inr fits ↦ rw (fits, ◌>>=◌, bounded) refl
    | inl many ↦ elim (Result-cases (loop count bytes)) [
      | inl (e, stop) ↦ rw (many, stop, ◌>>=◌, bounded) refl
      | inr ((v, rest), found) ↦
          let room : count * suc least ≤ length bytes =
            omega (arith, (records count).takes bytes v rest found) in
          let fits : count ≤ length bytes / suc least = (le-div_iff_mul-le (omega arith)).1 room in
          absurd (ground (arith, many, fits))
    ]
  ]

  pub counted-unchecked :
      (bytes : Bytes)
      → accepted ((read_count (suc least) >>= loop) bytes) ≡ accepted ((read_u32 >>= loop) bytes)
  unfolding read_count ◌>>=◌
  counted-unchecked bytes = elim (Result-cases (read_u32 bytes)) [
    | inl (e, stop) ↦ rw (stop, ◌>>=◌) refl
    | inr ((count, between), found) ↦ rw (found, ◌>>=◌) (bounded-unchecked count between)
  ]
