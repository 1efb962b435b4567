-- ===== src/Model/Values.antt =====
-- `PropertyScalar` and `PropertyValue` (`src/property.rs`), and the depth of a value.
use nostdb_core.Base.{ℕ, zero, suc, ◌+◌, Bool, List, [], ◌∷◌, Option, none, some, ltb, Bytes}
use Prim.Native.Nat.{max}

pub data PropertyScalar : Type 0 where
  boolean : Bool → PropertyScalar
  integer float : ℕ → PropertyScalar
  string bytes datetime : Bytes → PropertyScalar

-- An integer is the pattern of its 64 bits, as is a float. A list's items and an object's entries
-- are lists of their own.
mutual
  pub data PropertyValue : Type 0 where
    boolean : Bool → PropertyValue
    integer float : ℕ → PropertyValue
    string bytes datetime : Bytes → PropertyValue
    list : Items → PropertyValue
    map : Entries → PropertyValue

  pub data Items : Type 0 where
    no_items : Items
    item : PropertyValue → Items → Items

  pub data Entries : Type 0 where
    no_entries : Entries
    entry : Bytes → PropertyValue → Entries → Entries

abbrev pub max_nesting_depth : ℕ
max_nesting_depth = 8

unfoldable pub count_items : Items → ℕ
count_items no_items = 0
count_items (item _ rest) = suc (count_items rest)

unfoldable pub count_entries : Entries → ℕ
count_entries no_entries = 0
count_entries (entry _ _ rest) = suc (count_entries rest)

-- `From<PropertyScalar>`
unfoldable pub of_scalar : PropertyScalar → PropertyValue
of_scalar (PropertyScalar.boolean value) = PropertyValue.boolean value
of_scalar (PropertyScalar.integer value) = PropertyValue.integer value
of_scalar (PropertyScalar.float value) = PropertyValue.float value
of_scalar (PropertyScalar.string value) = PropertyValue.string value
of_scalar (PropertyScalar.bytes value) = PropertyValue.bytes value
of_scalar (PropertyScalar.datetime value) = PropertyValue.datetime value

-- The values that `depth` has still to visit, each with its depth. The source's stack is read from
-- its end: the last child is visited first.
abbrev pub Pending : Type 0
Pending = List (PropertyValue × ℕ)

unfoldable pub push_items : Items → ℕ → Pending → Pending
push_items no_items depth pending = pending
push_items (item value rest) depth pending = push_items rest depth ((value, depth) ∷ pending)

unfoldable pub push_entries : Entries → ℕ → Pending → Pending
push_entries no_entries depth pending = pending
push_entries (entry key value rest) depth pending =
    push_entries rest depth ((value, depth) ∷ pending)

-- One round of the loop: the deepest level so far, and the stack.
unfoldable pub visit : PropertyValue → ℕ → ℕ → Pending → ℕ × Pending
visit (PropertyValue.list items) depth deepest pending =
    (max (max deepest depth) (depth + 1), push_items items (depth + 1) pending)
visit (PropertyValue.map entries) depth deepest pending =
    (max (max deepest depth) (depth + 1), push_entries entries (depth + 1) pending)
visit _ depth deepest pending = (max deepest depth, pending)

-- The loop on fuel; nothing where the fuel does not suffice.
unfoldable pub depth_loop : ℕ → ℕ → Pending → Option ℕ
depth_loop fuel deepest [] = some deepest
depth_loop zero deepest (_ ∷ _) = none
depth_loop (suc fuel) deepest ((value, depth) ∷ pending) =
    let next = visit value depth deepest pending in depth_loop fuel next.0 next.1

-- How many values there are, which is how many rounds the loop makes.
unfoldable mutual
  pub size : PropertyValue → ℕ
  size (PropertyValue.list items) = suc (size_items items)
  size (PropertyValue.map entries) = suc (size_entries entries)
  size _ = 1

  pub size_items : Items → ℕ
  size_items no_items = 0
  size_items (item value rest) = size value + size_items rest

  pub size_entries : Entries → ℕ
  size_entries no_entries = 0
  size_entries (entry key value rest) = size value + size_entries rest

unfoldable pub depth : PropertyValue → Option ℕ
depth value = depth_loop (size value) 0 ((value, 0) ∷ [])

unfoldable pub exceeds_nesting_limit : PropertyValue → Option Bool
exceeds_nesting_limit value = elim (depth value) [
  | none ↦ none
  | some levels ↦ some (ltb max_nesting_depth levels)
]

-- The depth by recursion: none for a scalar, and one more than the deepest child for a list or an
-- object.
unfoldable mutual
  pub nesting : PropertyValue → ℕ
  nesting (PropertyValue.list items) = suc (nesting_items items)
  nesting (PropertyValue.map entries) = suc (nesting_entries entries)
  nesting _ = 0

  pub nesting_items : Items → ℕ
  nesting_items no_items = 0
  nesting_items (item value rest) = max (nesting value) (nesting_items rest)

  pub nesting_entries : Entries → ℕ
  nesting_entries no_entries = 0
  nesting_entries (entry key value rest) = max (nesting value) (nesting_entries rest)
