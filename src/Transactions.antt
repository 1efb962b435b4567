-- ===== src/Transactions.antt =====
-- Explicit transactions, `src/transaction.rs`, with `WriteSummary` of `src/mutate.rs`. The execution of
-- a query is a parameter: it takes the graph of the transaction, and returns it with the query's result
-- or its error.
use nostdb_core.Base.{ℕ, ◌+◌, ◌%◌, ◌^◌, Bool, ◌&&◌, ◌==◌, List, [], ◌∷◌, if◌then◌else◌}
use nostdb_core.Base.Results
use nostdb_core.Base.Results.{Result}
use nostdb_core.Generation.{Generation}
use nostdb_core.Files.{Disk, Returned, ok, err, Io, ◌>>=◌, ◌>>◌, pure, fail}
use nostdb_core.Storage.{Database, StorageError, open_file}
use nostdb_core.Model.Names.{Xid}
use nostdb_core.Model.Records.{Graph}
use nostdb_core.Encoding.Errors.{DecodeError}
use nostdb_core.Encoding.Graphs.{read_graph, commit_graph}
pub mod Laws

pub record WriteSummary : Type 0 where
  pub nodes_created : ℕ
  pub nodes_deleted : ℕ
  pub edges_created : ℕ
  pub edges_deleted : ℕ
  pub properties_set : ℕ
  pub properties_removed : ℕ
  pub labels_added : ℕ
  pub labels_removed : ℕ

abbrev pub no_writes : WriteSummary
no_writes = record {
  nodes_created = 0;
  nodes_deleted = 0;
  edges_created = 0;
  edges_deleted = 0;
  properties_set = 0;
  properties_removed = 0;
  labels_added = 0;
  labels_removed = 0;
}

unfoldable pub is_empty : WriteSummary → Bool
is_empty w =
    w.nodes_created == 0
    && w.nodes_deleted == 0
    && w.edges_created == 0
    && w.edges_deleted == 0
    && w.properties_set == 0
    && w.properties_removed == 0
    && w.labels_added == 0
    && w.labels_removed == 0

-- `+=` on `u64`, without the overflow check of a debug build.
unfoldable pub added : ℕ → ℕ → ℕ
added m n = (m + n) % 2 ^ 64

unfoldable pub accumulate : WriteSummary → WriteSummary → WriteSummary
accumulate a b = record {
  nodes_created = added a.nodes_created b.nodes_created;
  nodes_deleted = added a.nodes_deleted b.nodes_deleted;
  edges_created = added a.edges_created b.edges_created;
  edges_deleted = added a.edges_deleted b.edges_deleted;
  properties_set = added a.properties_set b.properties_set;
  properties_removed = added a.properties_removed b.properties_removed;
  labels_added = added a.labels_added b.labels_added;
  labels_removed = added a.labels_removed b.labels_removed;
}

pub data TransactionError (Q : Type 0) : Type 0 where
  decode : DecodeError → TransactionError Q
  storage : StorageError → TransactionError Q
  query : Q → TransactionError Q
  conflict : ℕ → ℕ → TransactionError Q

pub record Transaction : Type 0 where
  pub database : Database
  pub base : Generation
  pub graph : Graph
  pub writes : WriteSummary

-- Over the queries with their parameters, their results and their errors.
module _ (xid : Xid) (Query R Q : Type 0)
    (execute : Query → Graph → Graph × Result Q (R × WriteSummary)) where
  unfoldable pub started :
      Database → Result DecodeError Graph → Result (TransactionError Q) Transaction
  started database (Results.err e) = Results.err (decode e)
  started database (Results.ok graph) = Results.ok (record {
    database = database;
    base = database.container.generation;
    graph = graph;
    writes = no_writes;
  })

  -- `begin`; the context that it makes for the execution is left to the parameter.
  unfoldable pub begin : Database → Result (TransactionError Q) Transaction
  begin database = started database (read_graph xid database)

  -- What is made of an execution: the graph is what it left, also where it failed.
  unfoldable pub ran : Transaction → Graph → Result Q (R × WriteSummary) → Transaction × Result Q R
  ran t graph (Results.err e) = (record t { graph = graph }, Results.err e)
  ran t graph (Results.ok (result, writes)) =
      (record t { graph = graph; writes = accumulate t.writes writes }, Results.ok result)

  -- `run`, `run_federated` and `run_cancellable`, each over its execution.
  unfoldable pub run : Query → Transaction → Transaction × Result Q R
  run q t = let (graph, outcome) = execute q t.graph in ran t graph outcome

  -- The queries of a transaction, whether they succeed or not.
  unfoldable pub run_all : List Query → Transaction → Transaction
  run_all [] t = t
  run_all (q ∷ queries) t = run_all queries (run q t).0

  -- `?` on a `StorageError`.
  unfoldable pub as_storage :
      {A : Type 0} → Returned StorageError A × Disk → Returned (TransactionError Q) A × Disk
  as_storage (ok a, d) = (ok a, d)
  as_storage (err e, d) = (err (storage e), d)

  unfoldable pub of_storage : {A : Type 0} → Io StorageError A → Io (TransactionError Q) A
  of_storage action d = as_storage (action d)

  unfoldable pub refuse_conflict : Generation → Generation → Io (TransactionError Q) (Unit {0})
  refuse_conflict base found = if found == base then pure tt else fail (conflict base found)

  -- The part of `commit` behind the test for writes.
  unfoldable pub commit_writes : Transaction → Io (TransactionError Q) (Generation × Database)
  commit_writes t = do
    current ← of_storage (open_file t.database.path)
    refuse_conflict t.base current.container.generation
    of_storage (commit_graph t.database t.graph)

  -- The database is returned as it is behind the commit.
  unfoldable pub commit : Transaction → Io (TransactionError Q) (Generation × Database)
  commit t = if is_empty t.writes then pure (t.base, t.database) else commit_writes t
