-- ===== src/Encoding/Counts.antt =====
-- What a reader that succeeds has done with its bytes.
use nostdb_core.Base.{
  ℕ, zero, suc, ◌-◌, ◌/◌, ◌≤◌, ◌≡◌, refl, ap, ◌∙◌, [], ◌∷◌, Bytes, length, take, drop, ◌⊎◌, inl,
  inr, arith,
}
use nostdb_core.Base.Results.{Result, ok, err}
use nostdb_core.Base.Words.{from_le}
use nostdb_core.Encoding.Reader.{Reader, ◌>>=◌, return, take_bytes, bounded}

pub length-drop : (n : ℕ) (bytes : Bytes) → length (drop n bytes) ≡ length bytes - n
length-drop zero bytes = omega arith
length-drop (suc n) [] = omega arith
length-drop (suc n) (b ∷ bytes) = omega (arith, length-drop n bytes)

pub Result-cases :
    {E A : Type 0} (o : Result E A) → ((e : E) × (o ≡ err e)) ⊎ ((a : A) × (o ≡ ok a))
Result-cases (err e) = inl (e, refl)
Result-cases (ok a) = inr (a, refl)

-- A chain that succeeds has a first reader that does.
pub bind_inv :
    {A B : Type 0} (r : Reader A) (k : A → Reader B) (bytes : Bytes) (u : B) (rest : Bytes)
    → (r >>= k) bytes ≡ ok (u, rest)
    → (v : A) × (between : Bytes) × (r bytes ≡ ok (v, between)) × (k v between ≡ ok (u, rest))
unfolding ◌>>=◌
bind_inv r k bytes u rest h = elim (Result-cases (r bytes)) [
  | inl (e, stop) ↦ let never : err e ≡ ok (u, rest) = rw (stop, ◌>>=◌) at h in absurd cc
  | inr ((v, between), found) ↦ (v, between, found, rw (found, ◌>>=◌) at h)
]

pub take_bytes_inv :
    (n : ℕ) (bytes : Bytes) {v rest : Bytes}
    → take_bytes n bytes ≡ ok (v, rest)
    → (n ≤ length bytes) × (v ≡ take n bytes) × (rest ≡ drop n bytes)
unfolding take_bytes
take_bytes_inv n bytes h = ground arith

pub bounded_inv :
    (least n : ℕ) (bytes : Bytes) {m : ℕ} {rest : Bytes}
    → bounded (suc least) n bytes ≡ ok (m, rest)
    → (m ≤ length bytes / suc least) × (rest ≡ bytes) × (m ≡ n)
unfolding bounded
bounded_inv least n bytes h = ground arith

pub fixed_inv :
    (n : ℕ) (bytes : Bytes) (v : ℕ) (rest : Bytes)
    → (take_bytes n >>= (λ array. return (from_le array))) bytes ≡ ok (v, rest)
    → (n ≤ length bytes) × (v ≡ from_le (take n bytes)) × (rest ≡ drop n bytes)
unfolding return
fixed_inv n bytes v rest h =
    let (array, between, first, last) =
      bind_inv (take_bytes n) (λ array. return (from_le array)) bytes v rest h in
    let (room, taken, left) = take_bytes_inv n bytes first in
    let same : v ≡ from_le array = cc in
    let behind : rest ≡ between = cc in (room, same ∙ ap from_le taken, behind ∙ left)
