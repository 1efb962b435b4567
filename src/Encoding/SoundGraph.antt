-- ===== src/Encoding/SoundGraph.antt =====
-- A graph that is decoded meets the rules of its types, whatever the payloads are.
use nostdb_core.Base.{ℕ, zero, suc, ◌≤◌, ◌≡◌, refl, Option, none, some, ◌==◌, ap, arith}
use nostdb_core.Model.Names.{Xid}
use nostdb_core.Model.Values.{max_nesting_depth}
use nostdb_core.Model.Schemas.{
  ScalarType, from_raw, FieldType, count_fields, nesting, nesting_fields, nesting_field,
}
use nostdb_core.Encoding.Errors.{What, unknown_tag}
use nostdb_core.Encoding.Reader.{Reader, Table, return, fail}
use nostdb_core.Encoding.Read.{scalar_type_of, read_scalar_type}
use nostdb_core.Encoding.ReadNamed.{
  read_field, read_fields, read_array, read_object, type_of_tag, read_field_type, read_node,
  read_edge, read_link, read_constraint, endpoints_of, read_endpoints, read_schema,
}
use nostdb_core.Encoding.Codes.{IsText}
use nostdb_core.Encoding.Valid.{
  All, IfPresent, IsFieldType, AreFields, IsField, IsNode, IsEdge, IsLink, IsConstraint, IsSchema,
}
use nostdb_core.Encoding.Yields.{
  Yields, Yields-then, Yields-return, Yields-fail, Yields-if, Yields-u32, Yields-u8, Yields-count,
  Yields-repeat,
}
use nostdb_core.Encoding.Sound.{
  Yields-locator, Yields-IsId, Yields-contributions, Yields-IsReference,
}
use nostdb_core.Encoding.SoundNamed.{
  Yields-flag, Yields-name, Yields-optional_name, Yields-properties,
}

module _ (t : Table) (valid : All IsText t) (xid : Xid) where
  abbrev IsTypeWithin : ℕ → FieldType → Type 0
  IsTypeWithin levels declared = IsFieldType xid declared × (nesting declared ≤ levels)

  Yields-scalar_type : (levels raw : ℕ) → Yields (IsTypeWithin levels) (scalar_type_of raw)
  unfolding scalar_type_of IsFieldType nesting
  Yields-scalar_type levels raw = known (from_raw raw)
    where
      known :
          (found : Option ScalarType)
          → Yields (IsTypeWithin levels) (elim found [
            | none ↦ fail (unknown_tag What.scalar_type raw)
            | some scalar ↦ return (FieldType.scalar scalar)
          ])
      known none = Yields-fail _
      known (some scalar) = Yields-return _ (tt, omega arith)

  module _ (levels : ℕ) (inside : Reader FieldType)
      (one : Yields (IsTypeWithin levels) inside) where
    Yields-IsField :
        Yields (λ f. IsField xid f × (nesting_field f ≤ levels)) (read_field t xid inside)
    unfolding read_field IsFieldType nesting
    Yields-IsField = Yields-then (Yields-name t valid xid) (λ key hk.
        Yields-then one (λ declared (h, d).
          Yields-then (Yields-flag What.required_marker)
            (λ required _. Yields-return _ ((hk, h), d))))

    Yields-fields :
        (n : ℕ)
        → Yields
            (λ fields.
              (count_fields fields ≡ n) × AreFields xid fields × (nesting_fields fields ≤ levels))
            (read_fields t xid inside n)
    unfolding read_fields count_fields IsFieldType nesting
    Yields-fields zero = Yields-return _ (refl, tt, omega arith)
    Yields-fields (suc n) = Yields-then Yields-IsField (λ f (h, d).
        Yields-then (Yields-fields n)
          (λ rest (e, hs, ds). Yields-return _ (ap suc e, (h, hs), omega arith)))

    Yields-array : Yields (IsTypeWithin (suc levels)) (read_array t xid inside)
    unfolding read_array IsFieldType nesting
    Yields-array = Yields-then one (λ inner (h, d). Yields-return _ (h, omega arith))

    Yields-object : Yields (IsTypeWithin (suc levels)) (read_object t xid inside)
    unfolding read_object IsFieldType nesting
    Yields-object = Yields-then (Yields-count 12) (λ n small.
        Yields-then (Yields-fields n)
          (λ fields (e, hs, d). Yields-return _ ((omega (arith, e, small), hs), omega arith)))

  Yields-type_by_tag :
      (levels : ℕ) {of_array of_object : Reader FieldType} (tag : ℕ)
      → Yields (IsTypeWithin levels) of_array
      → Yields (IsTypeWithin levels) of_object
      → Yields (IsTypeWithin levels) (type_of_tag t xid of_array of_object tag)
  unfolding type_of_tag read_scalar_type
  Yields-type_by_tag levels tag a b =
      Yields-if (tag == 1) (Yields-then Yields-u32 (λ raw _. Yields-scalar_type levels raw)) (
        Yields-if (tag == 2) a
          (Yields-if (tag == 3) b (Yields-fail (unknown_tag What.field_type tag))))

  Yields-field_type : (levels : ℕ) → Yields (IsTypeWithin levels) (read_field_type t xid levels)
  unfolding read_field_type
  Yields-field_type zero =
      Yields-then Yields-u8 (λ tag _. Yields-type_by_tag 0 tag (Yields-fail _) (Yields-fail _))
  Yields-field_type (suc levels) = Yields-then Yields-u8 (λ tag _.
      Yields-type_by_tag (suc levels) tag
        (Yields-array levels (read_field_type t xid levels) (Yields-field_type levels))
        (Yields-object levels (read_field_type t xid levels) (Yields-field_type levels)))

  pub Yields-IsNode : Yields (IsNode xid) (read_node t xid)
  unfolding read_node
  Yields-IsNode = Yields-then (Yields-IsId t valid) (λ id hid.
      Yields-then (Yields-count 3) (λ n small.
        Yields-then (Yields-repeat n (Yields-name t valid xid)) (λ labels (e, hl).
          Yields-then (Yields-properties t valid xid) (λ properties hp.
            Yields-then (Yields-contributions t valid) (λ contributions hc.
              Yields-return _ (record {
                id = hid;
                label_count = omega (arith, e, small);
                labels = hl;
                properties = hp;
                contributions = hc;
              }))))))

  pub Yields-IsEdge : Yields (IsEdge xid) (read_edge t xid)
  unfolding read_edge
  Yields-IsEdge = Yields-then (Yields-IsId t valid) (λ id hid.
      Yields-then (Yields-IsReference t valid) (λ source hs.
        Yields-then (Yields-IsReference t valid) (λ target ht.
          Yields-then (Yields-name t valid xid) (λ relation hr.
            Yields-then (Yields-properties t valid xid) (λ properties hp.
              Yields-then (Yields-contributions t valid) (λ contributions hc.
                Yields-return _ (record {
                  id = hid;
                  source = hs;
                  target = ht;
                  relation = hr;
                  properties = hp;
                  contributions = hc;
                })))))))

  pub Yields-IsLink : Yields (IsLink xid) (read_link t xid)
  unfolding read_link
  Yields-IsLink = Yields-then (Yields-locator t valid) (λ source hs.
      Yields-then (Yields-optional_name t valid xid)
        (λ alias ha. Yields-return _ (record { source = hs; alias = ha })))

  Yields-endpoints : Yields (IfPresent (IsConstraint xid)) (read_endpoints t xid)
  unfolding read_endpoints endpoints_of read_constraint
  Yields-endpoints = Yields-then Yields-u32 (λ tag _. Yields-if (tag == 0) (Yields-return none tt) (
      Yields-if (tag == 1)
        (Yields-then (Yields-name t valid xid) (λ source hs.
          Yields-then (Yields-name t valid xid) (λ target ht.
            Yields-return (some (record { source = source; target = target })) (hs, ht))))
        (Yields-fail (unknown_tag What.endpoint_constraint tag))))

  pub Yields-IsSchema : Yields (IsSchema xid) (read_schema t xid)
  unfolding read_schema
  Yields-IsSchema = Yields-then (Yields-name t valid xid) (λ name hn.
      Yields-then Yields-endpoints (λ endpoints he. Yields-then (Yields-count 12) (λ n small.
        Yields-then
          (Yields-fields max_nesting_depth (read_field_type t xid max_nesting_depth)
            (Yields-field_type max_nesting_depth) n)
          (λ fields (e, hs, d). Yields-return _ (record {
            name = hn;
            endpoints = he;
            count = omega (arith, e, small);
            fields = hs;
            shallow = d;
          })))))
