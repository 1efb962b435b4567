-- ===== src/Encoding/SoundNamed.antt =====
-- Values, types and the records of the four sections meet the rules, whatever the bytes are.
use nostdb_core.Base.{
  ℕ, zero, suc, ◌≤◌, ◌≡◌, refl, [], ◌∷◌, Option, none, some, ◌==◌, Bytes, AllBytes, ap, arith,
}
use mathlib.Core.Path.{subst}
use nostdb_core.Base.Results.{ok}
use nostdb_core.Model.Names.{Xid, name}
use nostdb_core.Model.Values.{
  PropertyScalar, PropertyValue, of_scalar, count_items, count_entries, max_nesting_depth, nesting,
  nesting_items, nesting_entries,
}
use nostdb_core.Encoding.Errors.{What, unknown_tag, invalid_name}
use nostdb_core.Encoding.Reader.{Reader, Table, peek}
use nostdb_core.Encoding.Read.{tag_is, flag_of, read_flag}
use nostdb_core.Encoding.ReadNamed.{
  as_name, read_name, optional_name, read_optional_name, read_items, read_entries, read_list,
  read_map, read_scalar_value, value_of_tag, read_value, read_properties,
}
use nostdb_core.Encoding.Codes.{IsText}
use nostdb_core.Encoding.Valid.{
  All, IfPresent, IsScalar, IsName, IsValue, AreItems, AreEntries, AreProperties,
}
use nostdb_core.Encoding.Yields.{
  Yields, Yields-then, Yields-return, Yields-weaken, Yields-fail, Yields-if, Yields-take,
  Yields-u32, Yields-count,
}
use nostdb_core.Encoding.Checked.{Yields-check, name-same, Yields-string, Yields-optional}
use nostdb_core.Encoding.Sound.{Yields-IsScalar}

-- The next byte is looked at, of which nothing is asked.
Yields-peek : Yields (λ _. Unit) peek
unfolding peek
Yields-peek = record { yields = λ bytes v rest all h. (tt, kept bytes v rest all h) }
  where
    kept :
        (bytes : Bytes) (v : Option ℕ) (rest : Bytes)
        → AllBytes bytes
        → peek bytes ≡ ok (v, rest)
        → AllBytes rest
    kept [] v rest all h = let it : [] ≡ rest = cc in subst AllBytes it tt
    kept (b ∷ bytes) v rest all h = let it : b ∷ bytes ≡ rest = cc in subst AllBytes it all

pub Yields-flag : (what : What) → Yields (λ _. Unit) (read_flag what)
unfolding read_flag flag_of
Yields-flag what = Yields-then Yields-u32 (λ tag _.
    Yields-if (tag == 0) (Yields-return _ tt)
      (Yields-if (tag == 1) (Yields-return _ tt) (Yields-fail (unknown_tag what tag))))

module _ (t : Table) (valid : All IsText t) (xid : Xid) where
  Yields-as_name : (v : Bytes) → IsText v → Yields (IsName xid) (as_name t xid v)
  unfolding as_name
  Yields-as_name v h = Yields-check (name xid) (name-same xid) invalid_name v h

  pub Yields-name : Yields (IsName xid) (read_name t xid)
  unfolding read_name
  Yields-name = Yields-then (Yields-string t valid) Yields-as_name

  Yields-if_named :
      (value : Option Bytes)
      → IfPresent IsText value
      → Yields (IfPresent (IsName xid)) (optional_name t xid value)
  unfolding optional_name
  Yields-if_named none h = Yields-return none tt
  Yields-if_named (some value) h =
      Yields-then (Yields-as_name value h) (λ v k. Yields-return (some v) k)

  pub Yields-optional_name : Yields (IfPresent (IsName xid)) (read_optional_name t xid)
  unfolding read_optional_name
  Yields-optional_name = Yields-then (Yields-optional t valid) Yields-if_named

  -- A valid value of so many levels.
  abbrev IsWithin : ℕ → PropertyValue → Type 0
  IsWithin levels value = IsValue xid value × (nesting value ≤ levels)

  of_scalar-IsWithin :
      (levels : ℕ) (scalar : PropertyScalar) → IsScalar scalar → IsWithin levels (of_scalar scalar)
  unfolding of_scalar IsValue nesting
  of_scalar-IsWithin levels (PropertyScalar.boolean _) h = (h, omega arith)
  of_scalar-IsWithin levels (PropertyScalar.integer _) h = (h, omega arith)
  of_scalar-IsWithin levels (PropertyScalar.float _) h = (h, omega arith)
  of_scalar-IsWithin levels (PropertyScalar.string _) h = (h, omega arith)
  of_scalar-IsWithin levels (PropertyScalar.bytes _) h = (h, omega arith)
  of_scalar-IsWithin levels (PropertyScalar.datetime _) h = (h, omega arith)

  module _ (levels : ℕ) (inside : Reader PropertyValue)
      (one : Yields (IsWithin levels) inside) where
    Yields-items :
        (n : ℕ)
        → Yields
            (λ items. (count_items items ≡ n) × AreItems xid items × (nesting_items items ≤ levels))
            (read_items t xid inside n)
    unfolding read_items count_items IsValue nesting
    Yields-items zero = Yields-return _ (refl, tt, omega arith)
    Yields-items (suc n) = Yields-then one (λ v (h, d).
        Yields-then (Yields-items n)
          (λ rest (e, hs, ds). Yields-return _ (ap suc e, (h, hs), omega arith)))

    Yields-entries :
        (n : ℕ)
        → Yields
            (λ entries.
              (count_entries entries ≡ n)
              × AreEntries xid entries
              × (nesting_entries entries ≤ levels))
            (read_entries t xid inside n)
    unfolding read_entries count_entries IsValue nesting
    Yields-entries zero = Yields-return _ (refl, tt, omega arith)
    Yields-entries (suc n) = Yields-then Yields-name (λ key hk. Yields-then one (λ v (h, d).
        Yields-then (Yields-entries n)
          (λ rest (e, hs, ds). Yields-return _ (ap suc e, (hk, h, hs), omega arith))))

    Yields-list : Yields (IsWithin (suc levels)) (read_list t xid inside)
    unfolding read_list IsValue nesting
    Yields-list = Yields-then (Yields-take 1) (λ _ _. Yields-then (Yields-count 1) (λ n small.
        Yields-then (Yields-items n)
          (λ items (e, hs, d). Yields-return _ ((omega (arith, e, small), hs), omega arith))))

    Yields-map : Yields (IsWithin (suc levels)) (read_map t xid inside)
    unfolding read_map IsValue nesting
    Yields-map = Yields-then (Yields-take 1) (λ _ _. Yields-then (Yields-count 5) (λ n small.
        Yields-then (Yields-entries n)
          (λ entries (e, hs, d). Yields-return _ ((omega (arith, e, small), hs), omega arith))))

  Yields-by_tag :
      (levels : ℕ) {of_list of_map : Reader PropertyValue} (tag : Option ℕ)
      → Yields (IsWithin levels) of_list
      → Yields (IsWithin levels) of_map
      → Yields (IsWithin levels) (value_of_tag t xid of_list of_map tag)
  unfolding value_of_tag read_scalar_value
  Yields-by_tag levels tag a b = Yields-if (tag_is 7 tag) a (
      Yields-if (tag_is 8 tag) b (
        Yields-then (Yields-IsScalar t valid)
          (λ scalar h. Yields-return _ (of_scalar-IsWithin levels scalar h))))

  pub Yields-value : (levels : ℕ) → Yields (IsWithin levels) (read_value t xid levels)
  unfolding read_value
  Yields-value zero =
      Yields-then Yields-peek (λ tag _. Yields-by_tag 0 tag (Yields-fail _) (Yields-fail _))
  Yields-value (suc levels) = Yields-then Yields-peek (λ tag _.
      Yields-by_tag (suc levels) tag
        (Yields-list levels (read_value t xid levels) (Yields-value levels))
        (Yields-map levels (read_value t xid levels) (Yields-value levels)))

  pub Yields-properties : Yields (AreProperties xid) (read_properties t xid)
  unfolding read_properties
  Yields-properties = Yields-then (Yields-count 5) (λ n small.
      Yields-weaken
        (Yields-entries max_nesting_depth (read_value t xid max_nesting_depth)
          (Yields-value max_nesting_depth) n)
        (λ entries (e, hs, d). record {
          count = omega (arith, e, small);
          entries_hold = hs;
          shallow = d;
        }))
