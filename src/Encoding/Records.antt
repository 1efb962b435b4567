-- ===== src/Encoding/Records.antt =====
-- The records of the four sections are read back.
use nostdb_core.Base.{refl, Option, none, some, length, arith}
use nostdb_core.Model.Names.{Xid}
use nostdb_core.Model.Values.{max_nesting_depth}
use nostdb_core.Model.Schemas.{count_fields, Schema, EndpointConstraint}
use nostdb_core.Model.Records.{Node, Edge, Link}
use nostdb_core.Encoding.Strings.{put_string}
use nostdb_core.Encoding.Reader.{return}
use nostdb_core.Encoding.Write.{put_node, put_edge, put_link, put_endpoints, put_schema}
use nostdb_core.Encoding.ReadNamed.{
  read_name, read_node, read_edge, read_link, read_constraint, endpoints_of, read_endpoints,
  read_schema,
}
use nostdb_core.Encoding.Codes.{Codes, Codes-then, Codes-map, Codes-pass, Codes-weaken}
use nostdb_core.Encoding.Leaves.{Codes-u32, Codes-count}
use nostdb_core.Encoding.Valid.{IfPresent, IsNode, IsEdge, IsLink, IsConstraint, IsSchema}
use nostdb_core.Encoding.Parts.{
  Codes-each, Codes-id, Codes-locator, Codes-reference, Codes-contributions,
}
use nostdb_core.Encoding.Nested.{Codes-name, Codes-optional_name, Codes-properties}
use nostdb_core.Encoding.Types.{Codes-fields}

module _ (xid : Xid) where
  pub Codes-node : (n : Node) → IsNode xid n → Codes 28 (put_node n) (λ t. read_node t xid) n
  unfolding put_node read_node
  Codes-node n h =
      Codes-weaken
        (Codes-then _ (Codes-id n.id h.id) (
          Codes-count 3 (length n.labels) _ h.label_count (omega arith) (
            Codes-then _
              (Codes-each 4 put_string (λ t. read_name t xid) (Codes-name xid) n.labels h.labels)
              (Codes-then _ (Codes-properties xid n.properties h.properties)
                (Codes-map _ (Codes-contributions n.contributions h.contributions))))))
        (omega arith)

  pub Codes-edge : (e : Edge) → IsEdge xid e → Codes 40 (put_edge e) (λ t. read_edge t xid) e
  unfolding put_edge read_edge
  Codes-edge e h =
      Codes-weaken
        (Codes-then _ (Codes-id e.id h.id) (
          Codes-then _ (Codes-reference e.source h.source) (
            Codes-then _ (Codes-reference e.target h.target) (
              Codes-then _ (Codes-name xid e.relation h.relation) (
                Codes-then _ (Codes-properties xid e.properties h.properties)
                  (Codes-map _ (Codes-contributions e.contributions h.contributions)))))))
        (omega arith)

  pub Codes-link : (l : Link) → IsLink xid l → Codes 8 (put_link l) (λ t. read_link t xid) l
  unfolding put_link read_link
  Codes-link l h =
      Codes-then _ (Codes-locator l.source h.source)
        (Codes-map _ (Codes-optional_name xid l.alias h.alias))

  Codes-endpoints :
      (endpoints : Option EndpointConstraint)
      → IfPresent (IsConstraint xid) endpoints
      → Codes 4 (put_endpoints endpoints) (λ t. read_endpoints t xid) endpoints
  unfolding put_endpoints read_endpoints endpoints_of read_constraint return
  Codes-endpoints none h =
      Codes-pass (λ t. endpoints_of t xid) (Codes-u32 0 (omega arith)) (λ t rest. refl)
  Codes-endpoints (some constraint) (hs, ht) =
      Codes-weaken
        (Codes-then (λ t tag. endpoints_of t xid tag) (Codes-u32 1 (omega arith))
          (Codes-then _ (Codes-name xid constraint.source hs)
            (Codes-map _ (Codes-name xid constraint.target ht))))
        (omega arith)

  pub Codes-schema :
      (s : Schema) → IsSchema xid s → Codes 12 (put_schema s) (λ t. read_schema t xid) s
  unfolding put_schema read_schema
  Codes-schema s h =
      Codes-weaken
        (Codes-then _ (Codes-name xid s.name h.name) (
          Codes-then _ (Codes-endpoints s.endpoints h.endpoints) (
            Codes-count 12 (count_fields s.fields) _ h.count (omega arith)
              (Codes-map _ (Codes-fields xid max_nesting_depth s.fields h.fields h.shallow)))))
        (omega arith)
