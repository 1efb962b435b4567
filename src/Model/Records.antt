-- ===== src/Model/Records.antt =====
-- The records of a graph: `src/contribution.rs`, `src/graph.rs`, `src/link.rs` and `Graph` of
-- `src/encoding.rs`. An identifier is its sixteen bytes.
use nostdb_core.Base.{List, Option, Bytes}
use nostdb_core.Model.Values.{Entries}
use nostdb_core.Model.Schemas.{Schema}
use nostdb_core.Model.Evidence.{Evidence}

-- An owner is its name.
pub record Contribution : Type 0 where
  pub owner : Bytes
  pub source_unit : Bytes
  pub evidence : List Evidence

pub record ScopedNodeId : Type 0 where
  pub source : Bytes
  pub local : Bytes

pub data NodeReference : Type 0 where
  local : Bytes → NodeReference
  external : ScopedNodeId → NodeReference

pub record Node : Type 0 where
  pub id : Bytes
  pub labels : List Bytes
  pub properties : Entries
  pub contributions : List Contribution

pub record Edge : Type 0 where
  pub id : Bytes
  pub source : NodeReference
  pub target : NodeReference
  pub relation : Bytes
  pub properties : Entries
  pub contributions : List Contribution

pub record Link : Type 0 where
  pub source : Bytes
  pub alias : Option Bytes

pub record Graph : Type 0 where
  pub nodes : List Node
  pub edges : List Edge
  pub links : List Link
  pub schemas : List Schema
