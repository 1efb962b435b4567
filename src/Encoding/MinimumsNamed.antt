-- ===== src/Encoding/MinimumsNamed.antt =====
-- The least that the records with names take.
use nostdb_core.Base.{
  length, ℕ, zero, suc, ◌+◌, ◌*◌, ◌≤◌, Option, none, some, ◌==◌, Bytes, [], ◌∷◌, ap, ◌≡◌, arith,
}
use nostdb_core.Base.Results.{ok}
use nostdb_core.Model.Names.{Xid}
use nostdb_core.Model.Values.{PropertyValue, max_nesting_depth}
use nostdb_core.Model.Schemas.{FieldType}
use nostdb_core.Encoding.Errors.{What}
use nostdb_core.Encoding.Reader.{Reader, Table, peek}
use nostdb_core.Encoding.Read.{tag_is}
use nostdb_core.Encoding.ReadNamed.{
  as_name, read_name, optional_name, read_optional_name, read_items, read_entries, read_list,
  read_map, read_scalar_value, value_of_tag, read_value, read_properties, read_field, read_fields,
  read_array, read_object, type_of_tag, read_field_type, read_node, read_edge, read_link,
  read_constraint, endpoints_of, read_endpoints, read_schema,
}
use nostdb_core.Encoding.Takes.{
  Takes, Takes-least, Takes-any, Takes-return, Takes-fail, Takes-lift, Takes-if, Takes-then,
  Takes-map, Takes-bytes, Takes-u8, Takes-u32, Takes-id16, Takes-count, Takes-repeat, Takes-string,
  Takes-optional,
}
use nostdb_core.Encoding.Minimums.{
  Takes-flag, Takes-scalar_type, Takes-locator, Takes-scalar, Takes-contributions, Takes-reference,
}

Takes-peek : Takes 0 peek
unfolding peek
Takes-peek = record { takes = kept }
  where
    kept :
        (bytes : Bytes) (v : Option ℕ) (rest : Bytes)
        → peek bytes ≡ ok (v, rest)
        → 0 + length rest ≤ length bytes
    kept [] v rest h = let it : [] ≡ rest = cc in omega (arith, ap length it)
    kept (b ∷ bytes) v rest h = let it : b ∷ bytes ≡ rest = cc in omega (arith, ap length it)

module _ (t : Table) (xid : Xid) where
  pub Takes-name : Takes 4 (read_name t xid)
  unfolding read_name as_name
  Takes-name = Takes-then (Takes-string t) (λ value. Takes-lift _)

  Takes-optional_name : Takes 4 (read_optional_name t xid)
  unfolding read_optional_name optional_name as_name
  Takes-optional_name = Takes-then (Takes-optional t) present
    where
      present : (value : Option Bytes) → Takes 0 (optional_name t xid value)
      present none = Takes-return none
      present (some value) = Takes-map some (Takes-lift _)

  module _ {inside : Reader PropertyValue} (one : Takes 2 inside) where
    pub Takes-items : (count : ℕ) → Takes (count * 2) (read_items t xid inside count)
    unfolding read_items
    Takes-items zero = Takes-least (Takes-return _) (omega arith)
    Takes-items (suc count) =
        Takes-least (Takes-then one (λ value. Takes-map _ (Takes-items count))) (omega arith)

    pub Takes-entries : (count : ℕ) → Takes (count * 6) (read_entries t xid inside count)
    unfolding read_entries
    Takes-entries zero = Takes-least (Takes-return _) (omega arith)
    Takes-entries (suc count) =
        Takes-least
          (Takes-then Takes-name
            (λ key. Takes-then one (λ value. Takes-map _ (Takes-entries count))))
          (omega arith)

    Takes-list : Takes 2 (read_list t xid inside)
    unfolding read_list
    Takes-list =
        Takes-least {n = 5}
          (Takes-then (Takes-bytes 1) (λ _.
            Takes-then (Takes-count 1) (λ count. Takes-any (Takes-map _ (Takes-items count)))))
          (omega arith)

    Takes-map_value : Takes 2 (read_map t xid inside)
    unfolding read_map
    Takes-map_value =
        Takes-least {n = 5}
          (Takes-then (Takes-bytes 1) (λ _.
            Takes-then (Takes-count 5) (λ count. Takes-any (Takes-map _ (Takes-entries count)))))
          (omega arith)

  Takes-of_tag :
      (tag : Option ℕ) {of_list of_map : Reader PropertyValue}
      → Takes 2 of_list
      → Takes 2 of_map
      → Takes 2 (value_of_tag t xid of_list of_map tag)
  unfolding value_of_tag read_scalar_value
  Takes-of_tag tag of_list of_map =
      Takes-if (tag_is 7 tag) of_list
        (Takes-if (tag_is 8 tag) of_map (Takes-map _ (Takes-scalar t)))

  pub Takes-value : (levels : ℕ) → Takes 2 (read_value t xid levels)
  unfolding read_value
  Takes-value zero = Takes-then Takes-peek (λ tag. Takes-of_tag tag (Takes-fail _) (Takes-fail _))
  Takes-value (suc levels) = Takes-then Takes-peek (λ tag.
      Takes-of_tag tag (Takes-list (Takes-value levels)) (Takes-map_value (Takes-value levels)))

  pub Takes-properties : Takes 4 (read_properties t xid)
  unfolding read_properties
  Takes-properties =
      Takes-then (Takes-count 5)
        (λ count. Takes-any (Takes-entries (Takes-value max_nesting_depth) count))

  module _ {of_type : Reader FieldType} (one : Takes 5 of_type) where
    Takes-field : Takes 13 (read_field t xid of_type)
    unfolding read_field
    Takes-field =
        Takes-then Takes-name
          (λ key. Takes-then one (λ declared. Takes-map _ (Takes-flag What.required_marker)))

    pub Takes-fields : (count : ℕ) → Takes (count * 13) (read_fields t xid of_type count)
    unfolding read_fields
    Takes-fields zero = Takes-least (Takes-return _) (omega arith)
    Takes-fields (suc count) =
        Takes-least (Takes-then Takes-field (λ first. Takes-map _ (Takes-fields count)))
          (omega arith)

    Takes-array : Takes 4 (read_array t xid of_type)
    unfolding read_array
    Takes-array = Takes-least (Takes-map _ one) (omega arith)

    Takes-object : Takes 4 (read_object t xid of_type)
    unfolding read_object
    Takes-object =
        Takes-then (Takes-count 12) (λ count. Takes-any (Takes-map _ (Takes-fields count)))

  Takes-of_type_tag :
      (tag : ℕ) {of_array of_object : Reader FieldType}
      → Takes 4 of_array
      → Takes 4 of_object
      → Takes 4 (type_of_tag t xid of_array of_object tag)
  unfolding type_of_tag
  Takes-of_type_tag tag of_array of_object =
      Takes-if (tag == 1) Takes-scalar_type
        (Takes-if (tag == 2) of_array (Takes-if (tag == 3) of_object (Takes-fail _)))

  pub Takes-field_type : (levels : ℕ) → Takes 5 (read_field_type t xid levels)
  unfolding read_field_type
  Takes-field_type zero =
      Takes-then Takes-u8 (λ tag. Takes-of_type_tag tag (Takes-fail _) (Takes-fail _))
  Takes-field_type (suc levels) = Takes-then Takes-u8 (λ tag.
      Takes-of_type_tag tag (Takes-array (Takes-field_type levels))
        (Takes-object (Takes-field_type levels)))

  pub Takes-node : Takes 28 (read_node t xid)
  unfolding read_node
  Takes-node = Takes-then Takes-id16 (λ id. Takes-then (Takes-count 3) (λ count.
      Takes-then {m = 0} (Takes-any (Takes-repeat Takes-name count)) (λ labels.
        Takes-then Takes-properties (λ properties. Takes-map _ (Takes-contributions t)))))

  -- A relationship takes at least 62 bytes, and is reckoned with 40.
  pub Takes-edge : Takes 40 (read_edge t xid)
  unfolding read_edge
  Takes-edge =
      Takes-least {n = 62}
        (Takes-then Takes-id16 (λ id. Takes-then (Takes-reference t) (λ source.
          Takes-then (Takes-reference t) (λ target. Takes-then Takes-name (λ relation.
            Takes-then Takes-properties (λ properties. Takes-map _ (Takes-contributions t)))))))
        (omega arith)

  pub Takes-link : Takes 8 (read_link t xid)
  unfolding read_link
  Takes-link = Takes-then (Takes-locator t) (λ source. Takes-map _ Takes-optional_name)

  Takes-endpoints : Takes 4 (read_endpoints t xid)
  unfolding read_endpoints endpoints_of read_constraint
  Takes-endpoints = Takes-then Takes-u32 (λ tag. Takes-if (tag == 0) (Takes-return _) (
      Takes-if (tag == 1) (Takes-any (Takes-then Takes-name (λ source. Takes-map _ Takes-name)))
        (Takes-fail _)))

  pub Takes-schema : Takes 12 (read_schema t xid)
  unfolding read_schema
  Takes-schema = Takes-then Takes-name (λ name. Takes-then Takes-endpoints (λ endpoints.
      Takes-then (Takes-count 12) (λ count.
        Takes-any (Takes-map _ (Takes-fields (Takes-field_type max_nesting_depth) count)))))
