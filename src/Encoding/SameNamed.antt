-- ===== src/Encoding/SameNamed.antt =====
-- Every reader accepts what it accepts without its checks of counts.
use nostdb_core.Base.{ℕ, zero, suc, Option, ◌==◌, arith}
use nostdb_core.Model.Names.{Xid}
use nostdb_core.Model.Values.{PropertyValue, max_nesting_depth}
use nostdb_core.Model.Schemas.{FieldType}
use nostdb_core.Encoding.Reader.{Reader, Table}
use nostdb_core.Encoding.Read.{tag_is, read_contribution, read_contributions}
use nostdb_core.Encoding.ReadNamed.{
  read_items, read_entries, read_list, read_map, value_of_tag, read_value, read_properties,
  read_field, read_fields, read_array, read_object, type_of_tag, read_field_type, read_node,
  read_edge, read_schema,
}
use nostdb_core.Encoding.Takes.{Takes, Takes-least, Takes-then, Takes-map, Takes-repeat}
use nostdb_core.Encoding.Minimums.{Takes-evidence, Takes-contribution, Takes-contributions}
use nostdb_core.Encoding.MinimumsNamed.{
  Takes-name, Takes-items, Takes-entries, Takes-value, Takes-properties, Takes-fields,
  Takes-field_type,
}
use nostdb_core.Encoding.Unchecked.{
  contribution_unchecked, contributions_unchecked, list_unchecked, map_unchecked, value_unchecked,
  properties_unchecked, object_unchecked, type_unchecked, node_unchecked, edge_unchecked,
  schema_unchecked,
}
use nostdb_core.Encoding.Same.{Same, Same-refl, Same-then, Same-if, Same-repeat, Same-count}

module _ (t : Table) where
  Same-contribution : Same (read_contribution t) (contribution_unchecked t)
  unfolding read_contribution contribution_unchecked
  Same-contribution = Same-then Same-refl (λ owner. Same-then Same-refl (λ source_unit.
      Same-count 23 (λ count. Takes-map _ (Takes-repeat (Takes-evidence t) count))
        (λ count. Same-refl)))

  Same-contributions : Same (read_contributions t) (contributions_unchecked t)
  unfolding read_contributions contributions_unchecked
  Same-contributions =
      Same-count 20 (Takes-repeat (Takes-contribution t)) (Same-repeat Same-contribution)

  module _ (xid : Xid) where
    module _ {inside inside' : Reader PropertyValue} (one : Same inside inside') where
      Same-items :
          (count : ℕ) → Same (read_items t xid inside count) (read_items t xid inside' count)
      unfolding read_items
      Same-items zero = Same-refl
      Same-items (suc count) =
          Same-then one (λ value. Same-then (Same-items count) (λ items. Same-refl))

      Same-entries :
          (count : ℕ) → Same (read_entries t xid inside count) (read_entries t xid inside' count)
      unfolding read_entries
      Same-entries zero = Same-refl
      Same-entries (suc count) =
          Same-then Same-refl
            (λ key. Same-then one (λ value. Same-then (Same-entries count) (λ entries. Same-refl)))

      module _ (least : Takes 2 inside) where
        Same-list : Same (read_list t xid inside) (list_unchecked t xid inside')
        unfolding read_list list_unchecked
        Same-list = Same-then Same-refl (λ _.
            Same-count 1 (λ count. Takes-map _ (Takes-items t xid least count))
              (λ count. Same-then (Same-items count) (λ items. Same-refl)))

        Same-map : Same (read_map t xid inside) (map_unchecked t xid inside')
        unfolding read_map map_unchecked
        Same-map = Same-then Same-refl (λ _.
            Same-count 5 (λ count. Takes-map _ (Takes-entries t xid least count))
              (λ count. Same-then (Same-entries count) (λ entries. Same-refl)))

    Same-of_tag :
        (tag : Option ℕ) {of_list of_list' of_map of_map' : Reader PropertyValue}
        → Same of_list of_list'
        → Same of_map of_map'
        → Same (value_of_tag t xid of_list of_map tag) (value_of_tag t xid of_list' of_map' tag)
    unfolding value_of_tag
    Same-of_tag tag of_list of_map =
        Same-if (tag_is 7 tag) of_list (Same-if (tag_is 8 tag) of_map Same-refl)

    Same-value : (levels : ℕ) → Same (read_value t xid levels) (value_unchecked t xid levels)
    unfolding read_value value_unchecked
    Same-value zero = Same-refl
    Same-value (suc levels) = Same-then Same-refl (λ tag.
        Same-of_tag tag (Same-list (Same-value levels) (Takes-value t xid levels))
          (Same-map (Same-value levels) (Takes-value t xid levels)))

    Same-properties : Same (read_properties t xid) (properties_unchecked t xid)
    unfolding read_properties properties_unchecked
    Same-properties =
        Same-count 5 (Takes-entries t xid (Takes-value t xid max_nesting_depth))
          (Same-entries (Same-value max_nesting_depth))

    module _ {of_type of_type' : Reader FieldType} (one : Same of_type of_type') where
      Same-fields :
          (count : ℕ) → Same (read_fields t xid of_type count) (read_fields t xid of_type' count)
      unfolding read_fields read_field
      Same-fields zero = Same-refl
      Same-fields (suc count) =
          Same-then (Same-then Same-refl (λ key. Same-then one (λ declared. Same-refl)))
            (λ first. Same-then (Same-fields count) (λ fields. Same-refl))

      Same-array : Same (read_array t xid of_type) (read_array t xid of_type')
      unfolding read_array
      Same-array = Same-then one (λ inner. Same-refl)

      Same-object :
          Takes 5 of_type → Same (read_object t xid of_type) (object_unchecked t xid of_type')
      unfolding read_object object_unchecked
      Same-object least =
          Same-count 12 (λ count. Takes-map _ (Takes-fields t xid least count))
            (λ count. Same-then (Same-fields count) (λ fields. Same-refl))

    Same-of_type_tag :
        (tag : ℕ) {of_array of_array' of_object of_object' : Reader FieldType}
        → Same of_array of_array'
        → Same of_object of_object'
        → Same
            (type_of_tag t xid of_array of_object tag)
            (type_of_tag t xid of_array' of_object' tag)
    unfolding type_of_tag
    Same-of_type_tag tag of_array of_object =
        Same-if (tag == 1) Same-refl
          (Same-if (tag == 2) of_array (Same-if (tag == 3) of_object Same-refl))

    Same-type : (levels : ℕ) → Same (read_field_type t xid levels) (type_unchecked t xid levels)
    unfolding read_field_type type_unchecked
    Same-type zero = Same-refl
    Same-type (suc levels) = Same-then Same-refl (λ tag.
        Same-of_type_tag tag (Same-array (Same-type levels))
          (Same-object (Same-type levels) (Takes-field_type t xid levels)))

    pub Same-node : Same (read_node t xid) (node_unchecked t xid)
    unfolding read_node node_unchecked
    Same-node = Same-then Same-refl (λ id.
        Same-count 3
          (λ count.
            Takes-least
              (Takes-then (Takes-repeat (Takes-name t xid) count) (λ labels.
                Takes-then (Takes-properties t xid)
                  (λ properties. Takes-map _ (Takes-contributions t))))
              (omega arith))
          (λ count. Same-then Same-refl (λ labels.
            Same-then Same-properties
              (λ properties. Same-then Same-contributions (λ contributions. Same-refl)))))

    pub Same-edge : Same (read_edge t xid) (edge_unchecked t xid)
    unfolding read_edge edge_unchecked
    Same-edge = Same-then Same-refl (λ id. Same-then Same-refl (λ source.
        Same-then Same-refl (λ target. Same-then Same-refl (λ relation.
          Same-then Same-properties
            (λ properties. Same-then Same-contributions (λ contributions. Same-refl))))))

    pub Same-schema : Same (read_schema t xid) (schema_unchecked t xid)
    unfolding read_schema schema_unchecked
    Same-schema = Same-then Same-refl (λ name. Same-then Same-refl (λ endpoints.
        Same-count 12
          (λ count.
            Takes-map _ (Takes-fields t xid (Takes-field_type t xid max_nesting_depth) count))
          (λ count.
            Same-then (Same-fields (Same-type max_nesting_depth) count) (λ fields. Same-refl))))
