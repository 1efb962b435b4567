-- ===== src/Encoding/Types.antt =====
-- Declared field types are read back.
use nostdb_core.Base.{ℕ, zero, suc, ◌*◌, ◌≤◌, ◌<◌, ◌≡◌, refl, Bool, true, false, [], some, arith}
use nostdb_core.Base.Words.{u32_mod}
use nostdb_core.Model.Names.{Xid}
use nostdb_core.Model.Schemas.{
  ScalarType, boolean, integer, double, string, bytes, datetime, raw, from_raw, FieldType, Fields,
  no_fields, field, SchemaField, schema_field, count_fields, nesting, nesting_fields, nesting_field,
}
use nostdb_core.Encoding.Errors.{What}
use nostdb_core.Encoding.Strings.{put_u32}
use nostdb_core.Encoding.Reader.{Reader, Table, return}
use nostdb_core.Encoding.Write.{put_field, put_fields, put_field_type, u32_of}
use nostdb_core.Encoding.Read.{flag_of, read_flag, scalar_type_of, read_scalar_type, too_deep}
use nostdb_core.Encoding.ReadNamed.{
  read_field, read_fields, read_array, read_object, type_of_tag, read_field_type,
}
use nostdb_core.Encoding.Codes.{Codes, Codes-then, Codes-map, Codes-pass, Codes-weaken, Codes-put}
use nostdb_core.Encoding.Leaves.{Codes-u8, Codes-u32, Codes-count}
use nostdb_core.Encoding.Valid.{IsFieldType, AreFields, IsField}
use nostdb_core.Encoding.Nested.{Codes-name}

raw-small : (scalar : ScalarType) → raw scalar < u32_mod
unfolding raw
raw-small boolean = omega arith
raw-small integer = omega arith
raw-small double = omega arith
raw-small string = omega arith
raw-small bytes = omega arith
raw-small datetime = omega arith

pub from_raw-raw : (scalar : ScalarType) → from_raw (raw scalar) ≡ some scalar
unfolding raw from_raw
from_raw-raw boolean = refl
from_raw-raw integer = refl
from_raw-raw double = refl
from_raw-raw string = refl
from_raw-raw bytes = refl
from_raw-raw datetime = refl

Codes-scalar_type :
    (scalar : ScalarType)
    → Codes 4 (put_u32 (raw scalar)) (λ t. read_scalar_type) (FieldType.scalar scalar)
unfolding read_scalar_type scalar_type_of return
Codes-scalar_type scalar =
    Codes-pass (λ t. scalar_type_of) (Codes-u32 (raw scalar) (raw-small scalar))
      (λ t rest. rw (from_raw-raw scalar, scalar_type_of) refl)

Codes-flag :
    (what : What) (flag : Bool) → Codes 4 (put_u32 (u32_of flag)) (λ t. read_flag what) flag
unfolding u32_of read_flag flag_of return
Codes-flag what true = Codes-pass (λ t. flag_of what) (Codes-u32 1 (omega arith)) (λ t rest. refl)
Codes-flag what false = Codes-pass (λ t. flag_of what) (Codes-u32 0 (omega arith)) (λ t rest. refl)

module _ (xid : Xid) where
  abbrev by_tag : ℕ → Table → ℕ → Reader FieldType
  by_tag levels t =
      type_of_tag t xid (read_array t xid (read_field_type t xid levels))
        (read_object t xid (read_field_type t xid levels))

  Codes-scalar_at :
      (levels : ℕ) (scalar : ScalarType)
      → Codes 5
          (put_field_type (FieldType.scalar scalar))
          (λ t. read_field_type t xid levels)
          (FieldType.scalar scalar)
  unfolding put_field_type read_field_type type_of_tag
  Codes-scalar_at zero scalar =
      Codes-then (λ t tag. type_of_tag t xid too_deep too_deep tag) (Codes-u8 1)
        (Codes-scalar_type scalar)
  Codes-scalar_at (suc levels) scalar =
      Codes-then (λ t tag. by_tag levels t tag) (Codes-u8 1) (Codes-scalar_type scalar)

  mutual
    unfolding count_fields put_field_type put_fields put_field read_fields read_field
        read_field_type type_of_tag read_array read_object return IsFieldType nesting

    pub Codes-field_type :
        (levels : ℕ) (declared : FieldType)
        → IsFieldType xid declared
        → nesting declared ≤ levels
        → Codes 5 (put_field_type declared) (λ t. read_field_type t xid levels) declared
    Codes-field_type levels (FieldType.scalar scalar) h n = Codes-scalar_at levels scalar
    Codes-field_type zero (FieldType.array inner) h n = absurd (omega arith)
    Codes-field_type zero (FieldType.object _) h n = absurd (omega arith)
    Codes-field_type (suc levels) (FieldType.array inner) h n =
        Codes-weaken
          (Codes-then (λ t tag. by_tag levels t tag) (Codes-u8 2)
            (Codes-map _ (Codes-field_type levels inner h (omega arith))))
          (omega arith)
    Codes-field_type (suc levels) (FieldType.object fields) (h, hs) n =
        Codes-weaken
          (Codes-then (λ t tag. by_tag levels t tag) (Codes-u8 3)
            (Codes-count 12 (count_fields fields) _ h (omega arith)
              (Codes-map _ (Codes-fields levels fields hs (omega arith)))))
          (omega arith)

    pub Codes-fields :
        (levels : ℕ) (fields : Fields)
        → AreFields xid fields
        → nesting_fields fields ≤ levels
        → Codes
            (count_fields fields * 13)
            (put_fields fields)
            (λ t. read_fields t xid (read_field_type t xid levels) (count_fields fields))
            fields
    Codes-fields levels no_fields h n = Codes-weaken (Codes-put [] (λ t rest. refl)) (omega arith)
    Codes-fields levels (field first rest) (h, hs) n =
        Codes-weaken
          (Codes-then _ (Codes-field levels first h (omega arith))
            (Codes-map _ (Codes-fields levels rest hs (omega arith))))
          (omega arith)

    Codes-field :
        (levels : ℕ) (f : SchemaField)
        → IsField xid f
        → nesting_field f ≤ levels
        → Codes 13 (put_field f) (λ t. read_field t xid (read_field_type t xid levels)) f
    Codes-field levels (schema_field key declared required) (hk, h) n =
        Codes-then _ (Codes-name xid key hk) (
          Codes-then _ (Codes-field_type levels declared h n)
            (Codes-map _ (Codes-flag What.required_marker required)))
