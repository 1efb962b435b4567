-- ===== src/Model/Schemas.antt =====
-- `ScalarType`, `FieldType`, `SchemaField` and `Schema` of `src/schema.rs`.
use Prim.Native.Nat.{max}
use nostdb_core.Base.{ℕ, suc, Bool, Option, none, some, ◌==◌, if◌then◌else◌, Bytes}

pub data ScalarType : Type 0 where
  boolean integer double string bytes datetime : ScalarType

unfoldable pub raw : ScalarType → ℕ
raw boolean = 1
raw integer = 2
raw double = 3
raw string = 4
raw bytes = 5
raw datetime = 6

unfoldable pub from_raw : ℕ → Option ScalarType
from_raw value =
    if value == 1
    then some boolean
    else if value == 2
    then some integer
    else if value == 3
    then some double
    else if value == 4
    then some string
    else if value == 5
    then some bytes
    else if value == 6
    then some datetime
    else none

-- A field is its key, its type and whether it is required; a list of fields is a list of its own.
mutual
  pub data FieldType : Type 0 where
    scalar : ScalarType → FieldType
    object : Fields → FieldType
    array : FieldType → FieldType

  pub data Fields : Type 0 where
    no_fields : Fields
    field : SchemaField → Fields → Fields

  pub data SchemaField : Type 0 where
    schema_field : Bytes → FieldType → Bool → SchemaField

unfoldable pub count_fields : Fields → ℕ
count_fields no_fields = 0
count_fields (field _ rest) = suc (count_fields rest)

pub record EndpointConstraint : Type 0 where
  pub source : Bytes
  pub target : Bytes

pub record Schema : Type 0 where
  pub name : Bytes
  pub endpoints : Option EndpointConstraint
  pub fields : Fields

-- The depth of a type by recursion.
unfoldable mutual
  pub nesting : FieldType → ℕ
  nesting (scalar _) = 0
  nesting (object fields) = suc (nesting_fields fields)
  nesting (array inner) = suc (nesting inner)

  pub nesting_fields : Fields → ℕ
  nesting_fields no_fields = 0
  nesting_fields (field first rest) = max (nesting_field first) (nesting_fields rest)

  pub nesting_field : SchemaField → ℕ
  nesting_field (schema_field key declared required) = nesting declared
