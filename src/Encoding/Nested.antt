-- ===== src/Encoding/Nested.antt =====
-- Property values and field types, which nest, are read back.
use nostdb_core.Base.{
  ℕ, zero, suc, ◌*◌, ◌≤◌, ◌<◌, refl, ap, ◌∙◌, [], ◌∷◌, Option, none, some, Bytes, arith,
}
use nostdb_core.Base.Results.{map_err}
use nostdb_core.Base.Words.{u32_mod}
use nostdb_core.Model.Names.{Xid, name}
use nostdb_core.Model.Values.{
  PropertyScalar, PropertyValue, Items, no_items, item, Entries, no_entries, entry, count_items,
  count_entries, max_nesting_depth, nesting, nesting_items, nesting_entries, of_scalar,
}
use nostdb_core.Encoding.Errors.{invalid_name}
use nostdb_core.Encoding.Strings.{Put, ◌>>◌, put, put_string, put_optional}
use nostdb_core.Encoding.Reader.{Reader, Table, ◌>>=◌, return, lift, read_count, peek}
use nostdb_core.Encoding.Write.{put_scalar, put_value, put_items, put_entries, put_properties}
use nostdb_core.Encoding.Read.{tag_is, too_deep}
use nostdb_core.Encoding.ReadNamed.{
  read_name, as_name, optional_name, read_optional_name, read_items, read_entries, read_list,
  read_map, read_scalar_value, value_of_tag, read_value, read_properties,
}
use nostdb_core.Encoding.Codes.{
  Codes, bind_ok, Codes-then, Codes-map, Codes-lift, Codes-pass, Codes-weaken, Codes-put,
}
use nostdb_core.Encoding.Leaves.{Codes-take, Codes-count}
use nostdb_core.Encoding.Interned.{Codes-string, Codes-none, Codes-some}
use nostdb_core.Encoding.Valid.{
  IfPresent, IsScalar, IsName, IsValue, AreItems, AreEntries, AreProperties,
}
use nostdb_core.Encoding.Parts.{lifted, Codes-scalar}

-- The first byte is looked at before it is read.
Codes-peek :
    {A : Type 0} {m tag : ℕ} (w : Put) (k : Table → Option ℕ → Reader A) {v : A}
    → Codes m (put (tag ∷ []) >> w) (λ t. k t (some tag)) v
    → Codes m (put (tag ∷ []) >> w) (λ t. peek >>= k t) v
unfolding ◌>>◌ put peek
Codes-peek w k a = record {
  long = a.long;
  texts = a.texts;
  grows = a.grows;
  reads = λ t s small end c.
      let (c1, read1) = a.reads t s small end c in
      (c1, λ rest. bind_ok peek (k t) _ refl ∙ read1 rest);
}

module _ (xid : Xid) where
  pub Codes-name :
      (value : Bytes) → IsName xid value → Codes 4 (put_string value) (λ t. read_name t xid) value
  unfolding read_name as_name
  Codes-name value (h, e) = Codes-lift _ (Codes-string value h) (ap (map_err invalid_name) e)

  pub Codes-optional_name :
      (value : Option Bytes)
      → IfPresent (IsName xid) value
      → Codes 4 (put_optional value) (λ t. read_optional_name t xid) value
  unfolding read_optional_name optional_name as_name return
  Codes-optional_name none h = Codes-pass (λ t. optional_name t xid) Codes-none (λ t rest. refl)
  Codes-optional_name (some value) (h, e) =
      Codes-pass (λ t. optional_name t xid) (Codes-some value h)
        (λ t rest.
          bind_ok (lift (map_err invalid_name (name xid value))) (λ x. return (some x)) rest
            (lifted invalid_name rest e))

  -- A scalar is read, whatever the readers of a list and of an object are.
  module _ (of_list of_map : Table → Reader PropertyValue) where
    abbrev by_tag : Table → Reader PropertyValue
    by_tag t = peek >>= value_of_tag t xid (of_list t) (of_map t)

    Codes-scalar_value :
        (scalar : PropertyScalar)
        → IsScalar scalar
        → Codes 2 (put_scalar scalar) (λ t. read_scalar_value t xid) (of_scalar scalar)
    unfolding read_scalar_value
    Codes-scalar_value scalar h = Codes-map of_scalar (Codes-scalar scalar h)

    Codes-by_tag :
        (scalar : PropertyScalar)
        → IsScalar scalar
        → Codes 2 (put_scalar scalar) by_tag (of_scalar scalar)
    unfolding put_scalar value_of_tag tag_is
    Codes-by_tag (PropertyScalar.boolean value) h =
        Codes-peek _ _ (Codes-scalar_value (PropertyScalar.boolean value) h)
    Codes-by_tag (PropertyScalar.integer value) h =
        Codes-peek _ _ (Codes-scalar_value (PropertyScalar.integer value) h)
    Codes-by_tag (PropertyScalar.float value) h =
        Codes-peek _ _ (Codes-scalar_value (PropertyScalar.float value) h)
    Codes-by_tag (PropertyScalar.string value) h =
        Codes-peek _ _ (Codes-scalar_value (PropertyScalar.string value) h)
    Codes-by_tag (PropertyScalar.bytes value) h =
        Codes-peek _ _ (Codes-scalar_value (PropertyScalar.bytes value) h)
    Codes-by_tag (PropertyScalar.datetime value) h =
        Codes-peek _ _ (Codes-scalar_value (PropertyScalar.datetime value) h)

  Codes-scalar_at :
      (levels : ℕ) (scalar : PropertyScalar)
      → IsScalar scalar
      → Codes 2 (put_scalar scalar) (λ t. read_value t xid levels) (of_scalar scalar)
  unfolding read_value
  Codes-scalar_at zero scalar h = Codes-by_tag (λ t. too_deep) (λ t. too_deep) scalar h
  Codes-scalar_at (suc levels) scalar h =
      Codes-by_tag (λ t. read_list t xid (read_value t xid levels))
        (λ t. read_map t xid (read_value t xid levels)) scalar h

  Codes-list :
      (levels : ℕ) (items : Items)
      → count_items items < u32_mod
      → Codes
          (count_items items * 2)
          (put_items items)
          (λ t. read_items t xid (read_value t xid levels) (count_items items))
          items
      → Codes 2
          (put_value (PropertyValue.list items))
          (λ t. read_value t xid (suc levels))
          (PropertyValue.list items)
  unfolding put_value read_value value_of_tag tag_is read_list
  Codes-list levels items h inside =
      Codes-weaken
        (Codes-peek _ _ (
          Codes-then
            (λ t _. read_count 2 >>= (λ count.
              read_items t xid (read_value t xid levels) count
              >>= (λ is. return (PropertyValue.list is))))
            (Codes-take 1 (7 ∷ []) refl)
            (Codes-count 1 (count_items items) _ h (omega arith) (Codes-map _ inside))))
        (omega arith)

  Codes-map_value :
      (levels : ℕ) (entries : Entries)
      → count_entries entries < u32_mod
      → Codes
          (count_entries entries * 6)
          (put_entries entries)
          (λ t. read_entries t xid (read_value t xid levels) (count_entries entries))
          entries
      → Codes 2
          (put_value (PropertyValue.map entries))
          (λ t. read_value t xid (suc levels))
          (PropertyValue.map entries)
  unfolding put_value read_value value_of_tag tag_is read_map
  Codes-map_value levels entries h inside =
      Codes-weaken
        (Codes-peek _ _ (
          Codes-then
            (λ t _. read_count 6 >>= (λ count.
              read_entries t xid (read_value t xid levels) count
              >>= (λ es. return (PropertyValue.map es))))
            (Codes-take 1 (8 ∷ []) refl)
            (Codes-count 5 (count_entries entries) _ h (omega arith) (Codes-map _ inside))))
        (omega arith)

  mutual
    unfolding count_items count_entries put_value put_items put_entries read_items read_entries
        return of_scalar IsValue nesting

    Codes-value :
        (levels : ℕ) (value : PropertyValue)
        → IsValue xid value
        → nesting value ≤ levels
        → Codes 2 (put_value value) (λ t. read_value t xid levels) value
    Codes-value levels (PropertyValue.boolean value) h n =
        Codes-scalar_at levels (PropertyScalar.boolean value) h
    Codes-value levels (PropertyValue.integer value) h n =
        Codes-scalar_at levels (PropertyScalar.integer value) h
    Codes-value levels (PropertyValue.float value) h n =
        Codes-scalar_at levels (PropertyScalar.float value) h
    Codes-value levels (PropertyValue.string value) h n =
        Codes-scalar_at levels (PropertyScalar.string value) h
    Codes-value levels (PropertyValue.bytes value) h n =
        Codes-scalar_at levels (PropertyScalar.bytes value) h
    Codes-value levels (PropertyValue.datetime value) h n =
        Codes-scalar_at levels (PropertyScalar.datetime value) h
    Codes-value zero (PropertyValue.list items) h n = absurd (omega arith)
    Codes-value zero (PropertyValue.map _) h n = absurd (omega arith)
    Codes-value (suc levels) (PropertyValue.list items) (h, hs) n =
        Codes-list levels items h (Codes-items levels items hs (omega arith))
    Codes-value (suc levels) (PropertyValue.map entries) (h, hs) n =
        Codes-map_value levels entries h (Codes-entries levels entries hs (omega arith))

    Codes-items :
        (levels : ℕ) (items : Items)
        → AreItems xid items
        → nesting_items items ≤ levels
        → Codes
            (count_items items * 2)
            (put_items items)
            (λ t. read_items t xid (read_value t xid levels) (count_items items))
            items
    Codes-items levels no_items h n = Codes-weaken (Codes-put [] (λ t rest. refl)) (omega arith)
    Codes-items levels (item value rest) (h, hs) n =
        Codes-weaken
          (Codes-then _ (Codes-value levels value h (omega arith))
            (Codes-map _ (Codes-items levels rest hs (omega arith))))
          (omega arith)

    Codes-entries :
        (levels : ℕ) (entries : Entries)
        → AreEntries xid entries
        → nesting_entries entries ≤ levels
        → Codes
            (count_entries entries * 6)
            (put_entries entries)
            (λ t. read_entries t xid (read_value t xid levels) (count_entries entries))
            entries
    Codes-entries levels no_entries h n = Codes-weaken (Codes-put [] (λ t rest. refl)) (omega arith)
    Codes-entries levels (entry key value rest) (hk, h, hs) n =
        Codes-weaken
          (Codes-then _ (Codes-name key hk) (
            Codes-then _ (Codes-value levels value h (omega arith))
              (Codes-map _ (Codes-entries levels rest hs (omega arith)))))
          (omega arith)

  pub Codes-properties :
      (entries : Entries)
      → AreProperties xid entries
      → Codes 4 (put_properties entries) (λ t. read_properties t xid) entries
  unfolding put_properties read_properties
  Codes-properties entries h =
      Codes-weaken
        (Codes-count 5 (count_entries entries) _ h.count (omega arith)
          (Codes-entries max_nesting_depth entries h.entries_hold h.shallow))
        (omega arith)
