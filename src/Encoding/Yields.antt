-- ===== src/Encoding/Yields.antt =====
-- What holds of everything that a reader can return, whatever the bytes are.
use nostdb_core.Base.{
  ℕ, zero, suc, ◌^◌, ◌<◌, ◌≡◌, refl, ap, sym, Bool, true, false, [], ◌∷◌, if◌then◌else◌, Bytes,
  AllBytes, length, take, drop, length-take, arith,
}
use native.Mathlib.Nat.{pow-suc}
use mathlib.Core.Path.{subst}
use nostdb_core.Base.Results.{Result, ok, err}
use nostdb_core.Base.Words.{u32_mod, u64_mod, from_le}
use nostdb_core.Encoding.Errors.{DecodeError}
use nostdb_core.Encoding.Reader.{
  Reader, ◌>>=◌, return, fail, lift, take_bytes, read_u8, read_u32, read_u64, bounded, read_count,
  repeat,
}
use nostdb_core.Encoding.Valid.{All}
use nostdb_core.Encoding.Counts.{bind_inv, take_bytes_inv, fixed_inv, bounded_inv}

pub record Yields {A : Type 0} (P : A → Type 0) (r : Reader A) : Type 0 where
  pub yields :
      (bytes : Bytes) (v : A) (rest : Bytes)
      → AllBytes bytes
      → r bytes ≡ ok (v, rest)
      → P v × AllBytes rest

AllBytes-take : (n : ℕ) (bytes : Bytes) → AllBytes bytes → AllBytes (take n bytes)
AllBytes-take zero bytes h = tt
AllBytes-take (suc n) [] h = tt
AllBytes-take (suc n) (b ∷ bytes) (h, hs) = (h, AllBytes-take n bytes hs)

AllBytes-drop : (n : ℕ) (bytes : Bytes) → AllBytes bytes → AllBytes (drop n bytes)
AllBytes-drop zero bytes h = h
AllBytes-drop (suc n) [] h = tt
AllBytes-drop (suc n) (b ∷ bytes) (h, hs) = AllBytes-drop n bytes hs

from_le-small : (bytes : Bytes) → AllBytes bytes → from_le bytes < 256 ^ length bytes
unfolding from_le
from_le-small [] h = omega arith
from_le-small (b ∷ bytes) (h, hs) =
    omega (arith, from_le-small bytes hs, pow-suc 256 (length bytes))

module _ {A B : Type 0} {P : A → Type 0} {Q : B → Type 0} where
  pub Yields-then :
      {r : Reader A} {k : A → Reader B}
      → Yields P r
      → ((v : A) → P v → Yields Q (k v))
      → Yields Q (r >>= k)
  Yields-then {r} {k} first next = record {
    yields = λ bytes u rest all h.
        let (v, between, h1, h2) = bind_inv r k bytes u rest h in
        let (held, all') = first.yields bytes v between all h1 in
        (next v held).yields between u rest all' h2;
  }

module _ {B : Type 0} {Q : B → Type 0} where
  pub Yields-return : (v : B) → Q v → Yields Q (return v)
  unfolding return
  Yields-return v q = record {
    yields = λ bytes u rest all h.
        let same : v ≡ u = cc in
        let behind : bytes ≡ rest = cc in (subst Q same q, subst AllBytes behind all);
  }

  pub Yields-fail : (e : DecodeError) → Yields Q (fail e)
  unfolding fail
  Yields-fail e = record { yields = λ bytes u rest all h. absurd cc }

  pub Yields-lift : (o : Result DecodeError B) → ((v : B) → o ≡ ok v → Q v) → Yields Q (lift o)
  unfolding lift
  Yields-lift (err e) q = record { yields = λ bytes u rest all h. absurd cc }
  Yields-lift (ok v) q = record {
    yields = λ bytes u rest all h.
        let same : v ≡ u = cc in
        let behind : bytes ≡ rest = cc in (subst Q same (q v refl), subst AllBytes behind all);
  }

  pub Yields-if :
      (b : Bool) {r r' : Reader B} → Yields Q r → Yields Q r' → Yields Q (if b then r else r')
  Yields-if true a c = a
  Yields-if false a c = c

  pub Yields-guard :
      (b : Bool) {r r' : Reader B}
      → (b ≡ true → Yields Q r)
      → Yields Q r'
      → Yields Q (if b then r else r')
  Yields-guard true a c = a refl
  Yields-guard false a c = c

pub Yields-weaken :
    {A : Type 0} {P Q : A → Type 0} {r : Reader A} → Yields P r → ((v : A) → P v → Q v) → Yields Q r
Yields-weaken a f = record {
  yields = λ bytes v rest all h. let (held, all') = a.yields bytes v rest all h in (f v held, all');
}

pub Yields-take : (n : ℕ) → Yields (λ v. length v ≡ n) (take_bytes n)
Yields-take n = record {
  yields = λ bytes v rest all h.
      let (room, taken, left) = take_bytes_inv n bytes h in
      (
        omega (arith, room, ap length taken, length-take n bytes),
        subst AllBytes (sym left) (AllBytes-drop n bytes all),
      );
}

pub Yields-fixed :
    (n : ℕ) → Yields (λ v. v < 256 ^ n) (take_bytes n >>= (λ array. return (from_le array)))
Yields-fixed n = record {
  yields = λ bytes v rest all h.
      let (room, value, left) = fixed_inv n bytes v rest h in
      let width : length (take n bytes) ≡ n = omega (arith, room, length-take n bytes) in
      (
        subst (λ x. x < 256 ^ n) (sym value)
            (subst (λ k. from_le (take n bytes) < 256 ^ k) width
              (from_le-small (take n bytes) (AllBytes-take n bytes all))),
        subst AllBytes (sym left) (AllBytes-drop n bytes all),
      );
}

pub Yields-u32 : Yields (λ v. v < u32_mod) read_u32
unfolding read_u32
Yields-u32 = Yields-fixed 4

pub Yields-u64 : Yields (λ v. v < u64_mod) read_u64
unfolding read_u64
Yields-u64 = Yields-fixed 8

-- A byte, of which nothing is asked.
pub Yields-u8 : Yields (λ v. Unit) read_u8
unfolding read_u8
Yields-u8 = Yields-then (Yields-take 1) (λ v h. Yields-return _ tt)

Yields-bounded : (least n : ℕ) → n < u32_mod → Yields (λ v. v < u32_mod) (bounded (suc least) n)
Yields-bounded least n h = record {
  yields = λ bytes v rest all e.
      let (fits, same, it) = bounded_inv least n bytes e in
      (omega (arith, it), subst AllBytes (sym same) all);
}

pub Yields-count : (least : ℕ) → Yields (λ n. n < u32_mod) (read_count (suc least))
unfolding read_count
Yields-count least = Yields-then Yields-u32 (λ n h. Yields-bounded least n h)

pub Yields-repeat :
    {A : Type 0} {P : A → Type 0} {r : Reader A} (n : ℕ)
    → Yields P r
    → Yields (λ xs. (length xs ≡ n) × All P xs) (repeat n r)
unfolding repeat
Yields-repeat zero one = Yields-return _ (refl, tt)
Yields-repeat (suc n) one = Yields-then one (λ x hx.
    Yields-then (Yields-repeat n one) (λ xs (e, hxs). Yields-return _ (ap suc e, (hx, hxs))))
