-- ===== src/Model/Violations.antt =====
-- The collection rules of `src/graph.rs`: the duplicates, and the violations of a node and an edge. A
-- set is the list of what was inserted.
use nostdb_core.Base.{List, [], ◌∷◌, ◌++◌, map, if◌then◌else◌, Bytes}
use nostdb_core.Model.Names.{among}
use nostdb_core.Model.Values.{Entries, no_entries, entry}
use nostdb_core.Model.Records.{Node, Edge}

pub data RecordViolation : Type 0 where
  node_without_label no_contribution : RecordViolation
  duplicate_label duplicate_property_key : Bytes → RecordViolation

-- The loop of both collectors, over the keys that were seen and those that were reported.
unfoldable pub duplicates_from : List Bytes → List Bytes → List Bytes → List Bytes
duplicates_from seen reported [] = []
duplicates_from seen reported (key ∷ rest) =
    let fresh = duplicates_from (key ∷ seen) reported rest in
    let again = duplicates_from seen reported rest in
    let second = duplicates_from seen (key ∷ reported) rest in
    if among seen key then (if among reported key then again else key ∷ second) else fresh

unfoldable pub duplicates : List Bytes → List Bytes
duplicates keys = duplicates_from [] [] keys

unfoldable pub keys_of : Entries → List Bytes
keys_of no_entries = []
keys_of (entry key _ rest) = key ∷ keys_of rest

unfoldable pub unless_any {ℓ} : {A : Type ℓ} → List A → RecordViolation → List RecordViolation
unless_any [] violation = violation ∷ []
unless_any (_ ∷ _) violation = []

unfoldable pub node_violations : Node → List RecordViolation
node_violations node =
    unless_any node.labels node_without_label
    ++ (map duplicate_label (duplicates node.labels)
        ++ (map duplicate_property_key (duplicates (keys_of node.properties))
            ++ unless_any node.contributions no_contribution))

unfoldable pub edge_violations : Edge → List RecordViolation
edge_violations edge =
    map duplicate_property_key (duplicates (keys_of edge.properties))
    ++ unless_any edge.contributions no_contribution
