-- ===== src/Model/Depths.antt =====
-- The depth of a value by its explicit stack, and by recursion.
use nostdb_core.Base.{ℕ, zero, suc, ◌+◌, ◌≤◌, ◌<◌, ◌≡◌, ap, ◌∙◌, [], ◌∷◌, some, arith}
use Prim.Native.Nat.{max}
use nostdb_core.Model.Values.{
  PropertyValue, Items, no_items, item, Entries, no_entries, entry, Pending, push_items,
  push_entries, visit, depth_loop, size, size_items, size_entries, depth, nesting, nesting_items,
  nesting_entries,
}

-- What the values on the stack reach, and how many values they hold.
abbrev reach : Pending → ℕ
reach [] = 0
reach ((value, level) ∷ pending) = max (level + nesting value) (reach pending)

abbrev total : Pending → ℕ
total [] = 0
total ((value, level) ∷ pending) = size value + total pending

mutual
  unfolding nesting size push_items

  total-push_items :
      (items : Items) (level : ℕ) (pending : Pending)
      → total (push_items items level pending) ≡ size_items items + total pending
  total-push_items no_items level pending = omega arith
  total-push_items (item value rest) level pending =
      omega (arith, total-push_items rest level ((value, level) ∷ pending))

total-push_entries :
    (entries : Entries) (level : ℕ) (pending : Pending)
    → total (push_entries entries level pending) ≡ size_entries entries + total pending
unfolding size push_entries
total-push_entries no_entries level pending = omega arith
total-push_entries (entry key value rest) level pending =
    omega (arith, total-push_entries rest level ((value, level) ∷ pending))

-- Pushed children reach as deep as the deepest of them.
reach-push_items :
    (items : Items) (level : ℕ) (pending : Pending)
    → max level (reach (push_items items level pending))
      ≡ max (level + nesting_items items) (reach pending)
unfolding nesting push_items
reach-push_items no_items level pending = omega arith
reach-push_items (item value rest) level pending =
    omega (arith, reach-push_items rest level ((value, level) ∷ pending))

reach-push_entries :
    (entries : Entries) (level : ℕ) (pending : Pending)
    → max level (reach (push_entries entries level pending))
      ≡ max (level + nesting_entries entries) (reach pending)
unfolding nesting push_entries
reach-push_entries no_entries level pending = omega arith
reach-push_entries (entry key value rest) level pending =
    omega (arith, reach-push_entries rest level ((value, level) ∷ pending))

-- One round takes one value off the stack, and loses nothing of what is reached.
visit-total :
    (value : PropertyValue) (level deepest : ℕ) (pending : Pending)
    → suc (total (visit value level deepest pending).1) ≡ size value + total pending
unfolding visit size
visit-total (PropertyValue.list items) level deepest pending =
    omega (arith, total-push_items items (level + 1) pending)
visit-total (PropertyValue.map entries) level deepest pending =
    omega (arith, total-push_entries entries (level + 1) pending)
visit-total (PropertyValue.boolean _) level deepest pending = omega arith
visit-total (PropertyValue.integer _) level deepest pending = omega arith
visit-total (PropertyValue.float _) level deepest pending = omega arith
visit-total (PropertyValue.string _) level deepest pending = omega arith
visit-total (PropertyValue.bytes _) level deepest pending = omega arith
visit-total (PropertyValue.datetime _) level deepest pending = omega arith

visit-reach :
    (value : PropertyValue) (level deepest : ℕ) (pending : Pending)
    → max (visit value level deepest pending).0 (reach (visit value level deepest pending).1)
      ≡ max deepest (max (level + nesting value) (reach pending))
unfolding visit nesting
visit-reach (PropertyValue.list items) level deepest pending =
    omega (arith, reach-push_items items (level + 1) pending)
visit-reach (PropertyValue.map entries) level deepest pending =
    omega (arith, reach-push_entries entries (level + 1) pending)
visit-reach (PropertyValue.boolean _) level deepest pending = omega arith
visit-reach (PropertyValue.integer _) level deepest pending = omega arith
visit-reach (PropertyValue.float _) level deepest pending = omega arith
visit-reach (PropertyValue.string _) level deepest pending = omega arith
visit-reach (PropertyValue.bytes _) level deepest pending = omega arith
visit-reach (PropertyValue.datetime _) level deepest pending = omega arith

size-positive : (value : PropertyValue) → 0 < size value
unfolding size
size-positive (PropertyValue.list items) = omega arith
size-positive (PropertyValue.map _) = omega arith
size-positive (PropertyValue.boolean _) = omega arith
size-positive (PropertyValue.integer _) = omega arith
size-positive (PropertyValue.float _) = omega arith
size-positive (PropertyValue.string _) = omega arith
size-positive (PropertyValue.bytes _) = omega arith
size-positive (PropertyValue.datetime _) = omega arith

-- With a round of fuel for each value the loop ends, at the deepest level there is.
depth_loop-reach :
    (fuel deepest : ℕ) (pending : Pending)
    → total pending ≤ fuel
    → depth_loop fuel deepest pending ≡ some (max deepest (reach pending))
unfolding depth_loop
depth_loop-reach zero deepest [] h = ap some (omega arith)
depth_loop-reach (suc fuel) deepest [] h = ap some (omega arith)
depth_loop-reach zero deepest ((value, level) ∷ pending) h =
    absurd (omega (arith, size-positive value))
depth_loop-reach (suc fuel) deepest ((value, level) ∷ pending) h =
    depth_loop-reach fuel (visit value level deepest pending).0
      (visit value level deepest pending).1 (omega (arith, visit-total value level deepest pending))
    ∙ ap some (visit-reach value level deepest pending)

-- The loop over the explicit stack ends, and its depth is none for a scalar and one more than the
-- deepest child for a list or an object.
pub depth-nesting : (value : PropertyValue) → depth value ≡ some (nesting value)
unfolding depth
depth-nesting value =
    depth_loop-reach (size value) 0 ((value, 0) ∷ []) (omega arith) ∙ ap some (omega arith)
