-- ===== src/Encoding/Checked.antt =====
-- What the constructors accept is what they return, and the texts of a table are valid.
use nostdb_core.Base.{
  ℕ, zero, suc, ◌<◌, ◌≡◌, ap, ◌∙◌, sym, [], ◌∷◌, Option, none, some, ◌==◌, Bytes, AllBytes, arith,
}
use mathlib.Core.Path.{subst}
use nostdb_core.Base.Results.{Result, ok, err, map_err}
use nostdb_core.Base.Words.{u32_mod, u64_mod}
use nostdb_core.Base.Utf8.{is_utf8}
use nostdb_core.Model.Names.{Xid, name}
use nostdb_core.Model.Texts.{text}
use nostdb_core.Model.Numbers.{finite_f64, score}
use nostdb_core.Model.DateTime.{date_time}
use nostdb_core.Model.Evidence.{SourcePosition, SourceRange, source_range, content_digest}
use nostdb_core.Encoding.Errors.{DecodeError, invalid_utf8}
use nostdb_core.Encoding.Strings.{no_string}
use nostdb_core.Encoding.Reader.{
  Table, lift, finish, checked_text, read_entry, read_table, get_elem?, or_out_of_range, get,
  read_string, optional, read_optional,
}
use nostdb_core.Encoding.Codes.{IsText}
use nostdb_core.Encoding.Valid.{All, IfPresent, IsScore, IsRange, IsPosition}
use nostdb_core.Encoding.Yields.{
  Yields, Yields-then, Yields-return, Yields-fail, Yields-lift, Yields-if, Yields-guard,
  Yields-take, Yields-u32, Yields-count, Yields-repeat,
}

pub map_err_inv :
    {E F A : Type 0} (f : E → F) (o : Result E A) {v : A} → map_err f o ≡ ok v → o ≡ ok v
map_err_inv f (ok a) h = cc
map_err_inv f (err e) h = absurd cc

module _ {E : Type 0} (check : Bytes → Result E Bytes)
    (same : (v u : Bytes) → check v ≡ ok u → u ≡ v) (f : E → DecodeError) where
  -- A text that passes its constructor.
  pub Yields-check :
      (value : Bytes)
      → IsText value
      → Yields (λ u. IsText u × (check u ≡ ok u)) (lift (map_err f (check value)))
  Yields-check value h = Yields-lift (map_err f (check value)) (λ u e.
      let passed = map_err_inv f (check value) e in
      let it : u ≡ value = same value u passed in
      (subst IsText (sym it) h, subst (λ x. check x ≡ ok u) (sym it) passed))

pub text-same : (v u : Bytes) → text v ≡ ok u → u ≡ v
unfolding text
text-same v u h = ground arith

pub name-same : (xid : Xid) (v u : Bytes) → name xid v ≡ ok u → u ≡ v
unfolding name
name-same xid v u h = ground arith

pub content_digest-same : (v u : Bytes) → content_digest v ≡ ok u → u ≡ v
unfolding content_digest
content_digest-same v u h = ground arith

pub date_time-same : (v u : Bytes) → date_time v ≡ ok u → u ≡ v
unfolding date_time
date_time-same v u h = ground arith

pub finite_f64-again :
    (v u : ℕ) → v < u64_mod → finite_f64 v ≡ ok u → (u < u64_mod) × (finite_f64 u ≡ ok u)
unfolding finite_f64
finite_f64-again v u l h = ground arith

pub score-again : (v u : ℕ) → v < u32_mod → score v ≡ ok u → IsScore u
unfolding score
score-again v u l h = ground arith

pub source_range-again :
    (start end : SourcePosition) (range : SourceRange)
    → IsPosition start
    → IsPosition end
    → source_range start end ≡ ok range
    → IsRange range
unfolding source_range
source_range-again start end range hs he h =
    let it : record { start = start; end = end } ≡ range = ground arith in
    subst IsRange it (hs, he, h ∙ ap ok (sym it))

get_elem?-IsText :
    (t : Table) (n : ℕ) {v : Bytes} → All IsText t → get_elem? t n ≡ some v → IsText v
unfolding get_elem?
get_elem?-IsText [] n h e = absurd cc
get_elem?-IsText (x ∷ t) zero (h, hs) e = let it : x ≡ _ = cc in subst IsText it h
get_elem?-IsText (x ∷ t) (suc n) (h, hs) e = get_elem?-IsText t n hs e

get-IsText : (t : Table) (n : ℕ) (v : Bytes) → All IsText t → get t n ≡ ok v → IsText v
unfolding get
get-IsText t n v h e = get_elem?-IsText t n h (there (get_elem? t n) e)
  where
    there : (o : Option Bytes) → or_out_of_range n o ≡ ok v → o ≡ some v
    there (some x) f = cc
    there none f = absurd cc

-- The table itself.
Yields-entry : Yields IsText read_entry
unfolding read_entry checked_text
Yields-entry = Yields-then Yields-u32 (λ n small. Yields-then (Yields-take n) (λ bytes width.
    Yields-guard (is_utf8 bytes) (λ utf8. Yields-return bytes (utf8, omega (arith, small, width)))
      (Yields-fail invalid_utf8)))

pub Yields-finish : Yields (λ _. Unit) finish
unfolding finish
Yields-finish = record { yields = at_end }
  where
    at_end :
        (bytes : Bytes) (v : Unit {0}) (rest : Bytes)
        → AllBytes bytes
        → finish bytes ≡ ok (v, rest)
        → Unit {0} × AllBytes rest
    at_end [] v rest all h = let it : [] ≡ rest = cc in (tt, subst AllBytes it tt)
    at_end (b ∷ bytes) v rest all h = absurd cc

pub Yields-table : Yields (All IsText) read_table
unfolding read_table
Yields-table = Yields-then (Yields-count 3) (λ n small.
    Yields-then (Yields-repeat n Yields-entry)
      (λ entries (e, hs). Yields-then Yields-finish (λ _ _. Yields-return entries hs)))

module _ (t : Table) (valid : All IsText t) where
  pub Yields-string : Yields IsText (read_string t)
  unfolding read_string
  Yields-string =
      Yields-then Yields-u32 (λ n small. Yields-lift (get t n) (λ v e. get-IsText t n v valid e))

  pub Yields-optional : Yields (IfPresent IsText) (read_optional t)
  unfolding read_optional optional
  Yields-optional = Yields-then Yields-u32 (λ n small.
      Yields-if (n == no_string) (Yields-return none tt) (
        Yields-then (Yields-lift (get t n) (λ v e. get-IsText t n v valid e))
          (λ v h. Yields-return (some v) h)))
