-- ===== src/Encoding/Interned.antt =====
-- The texts that a writer puts into the table are read back.
use nostdb_core.Base.{
  ◌==◌, ℕ, ◌+◌, ◌%◌, ◌≤◌, ◌<◌, ◌≡◌, refl, ◌∙◌, false, List, [], ◌∷◌, ◌++◌, append-nil, none, some,
  Bytes, length, length-append, arith, same_bytes, same_bytes_eq, Bool-cases, Option-cases, inl,
  inr,
}
use nostdb_core.Base.Results.{ok}
use nostdb_core.Base.Words.{u32_mod, le_bytes, length-le_bytes}
use nostdb_core.Encoding.Strings.{
  no_string, Strings, lookup, intern, next_place, put, put_u32, put_string, put_optional,
}
use nostdb_core.Encoding.Reader.{
  Reader, Table, return, lift, read_u32, get_elem?, get, read_string, optional, read_optional,
}
use nostdb_core.Encoding.Codes.{
  IsText, AllTexts, StartsWith, IsConsistent, Codes, bind_ok, Codes-put,
}
use nostdb_core.Encoding.Leaves.{read_u32-le_bytes}

module _ (t : Table) where
  -- The index of a text in the table is read as the text.
  read_place :
      (value : Bytes) (place : ℕ) (rest : Bytes)
      → get_elem? t place ≡ some value
      → place < no_string
      → read_string t (le_bytes 4 (place % u32_mod) ++ rest) ≡ ok (value, rest)
  unfolding read_string lift get
  read_place value place rest e h =
      let small : place % u32_mod ≡ place = omega arith in
      rw small (
        bind_ok read_u32 (λ index. lift (get t index)) _
          (read_u32-le_bytes place rest (omega arith))
        ∙ rw e refl)

interned-found :
    (s : Strings) (value : Bytes) (place : ℕ)
    → lookup value s.index ≡ some place
    → put_string value s ≡ (le_bytes 4 (place % u32_mod), s)
unfolding put_string intern put_u32 put
interned-found s value place e = rw (e, intern) refl

abbrev added : Strings → Bytes → Strings
added s value = record {
  entries = s.entries ++ value ∷ [];
  index = (value, next_place s.entries) ∷ s.index;
}

interned-added :
    (s : Strings) (value : Bytes)
    → lookup value s.index ≡ none
    → put_string value s ≡ (le_bytes 4 (next_place s.entries % u32_mod), added s value)
unfolding put_string intern put_u32 put
interned-added s value e = rw (e, intern) refl

AllTexts-last :
    (entries : List Bytes) (value : Bytes)
    → AllTexts entries
    → IsText value
    → AllTexts (entries ++ value ∷ [])
AllTexts-last [] value h k = (k, tt)
AllTexts-last (x ∷ xs) value (h, hs) k = (h, AllTexts-last xs value hs k)

get_elem?-last :
    (entries rest : List Bytes) (value : Bytes)
    → get_elem? ((entries ++ value ∷ []) ++ rest) (length entries) ≡ some value
unfolding get_elem?
get_elem?-last [] rest value = refl
get_elem?-last (x ∷ xs) rest value = get_elem?-last xs rest value

length-StartsWith :
    (front whole : List Bytes) → StartsWith front whole → length front ≤ length whole
length-StartsWith front whole (rest, e) =
    let l : length whole ≡ length front + length rest = rw (← e) (length-append front rest) in
    omega (arith, l)

length-added :
    (t : Table) (s : Strings) (value : Bytes)
    → length t < no_string
    → StartsWith (s.entries ++ value ∷ []) t
    → length s.entries < no_string
length-added t s value small end = omega (
  arith,
  small,
  length-StartsWith (s.entries ++ value ∷ []) t end,
  length-append s.entries (value ∷ []),
)

-- A table with a new text at its end stays consistent with the final one.
IsConsistent-added :
    (t : Table) (s : Strings) (value : Bytes)
    → length t < no_string
    → StartsWith (s.entries ++ value ∷ []) t
    → IsConsistent t s
    → IsConsistent t (added s value)
unfolding lookup next_place
IsConsistent-added t s value small (more, e) c other place found =
    let l = length-added t s value small (more, e) in
    let here : next_place s.entries ≡ length s.entries = ground arith in
    elim (Bool-cases (same_bytes value other)) [
      | inl same ↦
          let met : some (length s.entries) ≡ some place = rw (same, here) at found in
          let is_here : length s.entries ≡ place = cc in
          let it : value ≡ other = same_bytes_eq value other same in
          (rw (← e, ← is_here, ← it) (get_elem?-last s.entries more value), omega arith)
      | inr differ ↦ c other place (rw differ at found)
    ]

-- A reader that makes `v` of the place of the text.
module _ {A : Type 0} (value : Bytes) (valid : IsText value) (r : Table → Reader A) (v : A)
    (at_place : (t : Table) (place : ℕ) (rest : Bytes)
      → get_elem? t place ≡ some value
      → place < no_string
      → r t (le_bytes 4 (place % u32_mod) ++ rest) ≡ ok (v, rest)) where
  -- What is to be shown of `put_string`, of its result.
  abbrev Written : Strings → Bytes × Strings → Type 0
  Written s (out, after) =
      (4 ≤ length out)
      × (AllTexts s.entries → AllTexts after.entries)
      × StartsWith s.entries after.entries
      × ((t : Table)
          → length t < no_string
          → StartsWith after.entries t
          → IsConsistent t s
          → IsConsistent t after × ((rest : Bytes) → r t (out ++ rest) ≡ ok (v, rest)))

  Written-found :
      (s : Strings) (place : ℕ)
      → lookup value s.index ≡ some place
      → Written s (le_bytes 4 (place % u32_mod), s)
  Written-found s place e = (
    omega (arith, length-le_bytes 4 (place % u32_mod)),
    λ h. h,
    ([], append-nil s.entries),
    λ t small end c. (c, λ rest. at_place t place rest (c value place e).0 (c value place e).1),
  )

  Written-added :
      (s : Strings) → Written s (le_bytes 4 (next_place s.entries % u32_mod), added s value)
  unfolding next_place
  Written-added s = (
    omega (arith, length-le_bytes 4 (next_place s.entries % u32_mod)),
    λ h. AllTexts-last s.entries value h valid,
    (value ∷ [], refl),
    λ t small end c. (
      IsConsistent-added t s value small end c,
      λ rest.
          let l = length-added t s value small end in
          let here : next_place s.entries ≡ length s.entries = ground arith in
          let it : get_elem? t (length s.entries) ≡ some value =
            rw (← end.1) (get_elem?-last s.entries end.0 value) in
          rw here (at_place t (length s.entries) rest it l),
    ),
  )

  written : (s : Strings) → Written s (put_string value s)
  written s = elim (Option-cases (lookup value s.index)) [
    | inl e ↦ rw (interned-added s value e) (Written-added s)
    | inr (place, e) ↦ rw (interned-found s value place e) (Written-found s place e)
  ]

  Codes-place : Codes 4 (put_string value) r v
  Codes-place = record {
    long = λ s. (written s).0;
    texts = λ s. (written s).1;
    grows = λ s. (written s).2;
    reads = λ t s small end c. (written s).3 t small end c;
  }

pub Codes-string :
    (value : Bytes) → IsText value → Codes 4 (put_string value) (λ t. read_string t) value
Codes-string value h =
    Codes-place value h (λ t. read_string t) value
      (λ t place rest e l. read_place t value place rest e l)

pub Codes-none : Codes 4 (put_optional none) (λ t. read_optional t) none
unfolding put_optional put_u32 le_bytes read_optional optional return
Codes-none =
    Codes-put (le_bytes 4 no_string)
      (λ t rest. bind_ok read_u32 (optional t) _ (read_u32-le_bytes no_string rest (omega arith)))

-- The index of a text is not the sentinel.
read_some_place :
    (t : Table) (value : Bytes) (place : ℕ) (rest : Bytes)
    → get_elem? t place ≡ some value
    → place < no_string
    → read_optional t (le_bytes 4 (place % u32_mod) ++ rest) ≡ ok (some value, rest)
unfolding read_optional optional lift get return
read_some_place t value place rest e h =
    let small : place % u32_mod ≡ place = omega arith in
    let there : (place == no_string) ≡ false = ground arith in
    rw small (
      bind_ok read_u32 (optional t) _ (read_u32-le_bytes place rest (omega arith))
      ∙ rw there (bind_ok (lift (get t place)) (λ entry. return (some entry)) rest (rw e refl)))

pub Codes-some :
    (value : Bytes)
    → IsText value
    → Codes 4 (put_optional (some value)) (λ t. read_optional t) (some value)
unfolding put_optional
Codes-some value h =
    Codes-place value h (λ t. read_optional t) (some value)
      (λ t place rest e l. read_some_place t value place rest e l)
