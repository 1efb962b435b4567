-- ===== src/Transactions/Laws.antt =====
-- A transaction commits what it ran on what it began with, or not at all.
use nostdb_core.Base.{
  ◌+◌, ◌<◌, ◌≡◌, ◌≢◌, refl, ap, ◌∙◌, true, false, List, [], ◌∷◌, ◌==◌, length, arith,
}
use nostdb_core.Base.Results
use nostdb_core.Base.Results.{Result}
use nostdb_core.Base.Utf8.{IsUtf8}
use nostdb_core.Container.RoundTrip.{IsBuildable}
use nostdb_core.Files.{FileMap, Disk, Io, ok, err}
use nostdb_core.Files.Laws.{sound, bind-ok}
use nostdb_core.Storage.{Database, StorageError, open_file}
use nostdb_core.Storage.Paths.{staged_of}
use nostdb_core.Model.Names.{Xid}
use nostdb_core.Model.Records.{Graph}
use nostdb_core.Encoding.Errors.{DecodeError}
use nostdb_core.Encoding.Strings.{no_string}
use nostdb_core.Encoding.Graphs.{payloads, encode_graph, read_graph, commit_graph}
use nostdb_core.Encoding.Valid.{IsGraph}
use nostdb_core.Encoding.Stored.{stored, commit_graph-IsStored}
use nostdb_core.Transactions.{
  WriteSummary, is_empty, conflict, Transaction, started, no_writes, as_storage, begin, ran, run,
  run_all, of_storage, refuse_conflict, commit_writes, commit,
}

module _ (xid : Xid) (Query R Q : Type 0)
    (execute : Query → Graph → Graph × Result Q (R × WriteSummary)) where
  -- The database and the base of a transaction.
  abbrev Keeps : Transaction → Transaction → Type 0
  Keeps t t' = (t'.database ≡ t.database) × (t'.base ≡ t.base)

  ran-Keeps :
      (t : Transaction) (graph : Graph) (outcome : Result Q (R × WriteSummary))
      → Keeps t (ran xid Query R Q execute t graph outcome).0
  unfolding ran
  ran-Keeps t graph (Results.err e) = (refl, refl)
  ran-Keeps t graph (Results.ok (result, writes)) = (refl, refl)

  -- Running queries leaves the database and the base as they were.
  run_all-Keeps :
      (queries : List Query) (t : Transaction) → Keeps t (run_all xid Query R Q execute queries t)
  unfolding run_all run
  run_all-Keeps [] t = (refl, refl)
  run_all-Keeps (q ∷ queries) t =
      let (database, base) = ran-Keeps t (execute q t.graph).0 (execute q t.graph).1 in
      let (database', base') = run_all-Keeps queries (run xid Query R Q execute q t).0 in
      (database' ∙ database, base' ∙ base)

  started-Keeps :
      (db : Database) (t : Transaction) (outcome : Result DecodeError Graph)
      → started xid Query R Q execute db outcome ≡ Results.ok t
      → (t.database ≡ db) × (t.base ≡ db.container.generation)
  unfolding started
  started-Keeps db t (Results.err e) h = absurd cc
  started-Keeps db t (Results.ok graph) h =
      let it : t ≡ record {
        database = db;
        base = db.container.generation;
        graph = graph;
        writes = no_writes;
      } =
        cc in
      (ap (λ x. x.database) it, ap (λ x. x.base) it)

  begin-Keeps :
      (db : Database) (t : Transaction)
      → begin xid Query R Q execute db ≡ Results.ok t
      → (t.database ≡ db) × (t.base ≡ db.container.generation)
  unfolding begin
  begin-Keeps db t h = started-Keeps db t (read_graph xid db) h

  of_storage_ok :
      {A : Type 0} (action : Io StorageError A) (d d' : Disk) (a : A)
      → action d ≡ (ok a, d')
      → of_storage xid Query R Q execute action d ≡ (ok a, d')
  unfolding of_storage as_storage
  of_storage_ok action d d' a e = ap (as_storage xid Query R Q execute) e

  -- The commit of a transaction that wrote, up to the check.
  module _ (t : Transaction) (files : FileMap) (wrote : is_empty t.writes ≡ false)
      (current : Database)
      (opens : open_file t.database.path (sound files) ≡ (ok current, sound files)) where
    refused :
        current.container.generation ≢ t.base
        → commit xid Query R Q execute t (sound files)
          ≡ (err (conflict t.base current.container.generation), sound files)
    unfolding commit commit_writes refuse_conflict
    refused other =
        let test : (current.container.generation == t.base) ≡ false = ground arith in
        rw wrote (
          bind-ok (of_storage xid Query R Q execute (open_file t.database.path)) _ (sound files)
            (sound files) current (of_storage_ok _ (sound files) (sound files) current opens)
          ∙ rw test refl)

    accepted :
        current.container.generation ≡ t.base
        → commit xid Query R Q execute t (sound files)
          ≡ of_storage xid Query R Q execute (commit_graph t.database t.graph) (sound files)
    unfolding commit commit_writes refuse_conflict
    accepted same =
        let test : (current.container.generation == t.base) ≡ true = ground arith in
        rw wrote (
          bind-ok (of_storage xid Query R Q execute (open_file t.database.path)) _ (sound files)
            (sound files) current (of_storage_ok _ (sound files) (sound files) current opens)
          ∙ rw test refl)

  module _ (db : Database) (t : Transaction) (queries : List Query)
      (begins : begin xid Query R Q execute db ≡ Results.ok t) (files : FileMap)
      (wrote : is_empty (run_all xid Query R Q execute queries t).writes ≡ false)
      (current : Database)
      (opens : open_file db.path (sound files) ≡ (ok current, sound files)) where
    abbrev finished : Transaction
    finished = run_all xid Query R Q execute queries t

    at_database : finished.database ≡ db
    at_database = (run_all-Keeps queries t).0 ∙ (begin-Keeps db t begins).0

    at_base : finished.base ≡ db.container.generation
    at_base = (run_all-Keeps queries t).1 ∙ (begin-Keeps db t begins).1

    opens_finished : open_file finished.database.path (sound files) ≡ (ok current, sound files)
    opens_finished = rw at_database opens

    -- With no fault, if the file opens as a database of a generation other than the one that a
    -- transaction that wrote began at, as when another process has committed, then its commit is
    -- refused with both generations, and no file is touched.
    pub commit-conflict :
        current.container.generation ≢ db.container.generation
        → commit xid Query R Q execute finished (sound files)
          ≡ (err (conflict db.container.generation current.container.generation), sound files)
    commit-conflict other =
        rw (← at_base) (refused finished files wrote current opens_finished (rw at_base other))

    -- With no fault, if the file opens as a database of the generation that a transaction that wrote
    -- began at, then its commit stores the graph that its queries made of the one it began with, under
    -- the conditions of a commit of a graph: the generation is the next one, and the database that the
    -- file opens as holds that graph.
    pub commit-stores :
        current.container.generation ≡ db.container.generation
        → IsGraph xid finished.graph
        → length (payloads finished.graph).strings.entries < no_string
        → IsBuildable (record {
          generation = db.container.generation + 1;
          sections = encode_graph finished.graph;
        })
        → IsUtf8 (staged_of db.path)
        → IsUtf8 db.path
        → (after : FileMap) × (commit xid Query R Q execute finished (sound files)
            ≡ (ok (db.container.generation + 1, stored xid db finished.graph files), sound after))
          × (open_file db.path (sound after)
              ≡ (ok (stored xid db finished.graph files), sound after))
          × (read_graph xid (stored xid db finished.graph files) ≡ Results.ok finished.graph)
    commit-stores same valid small buildable staged path =
        let p =
          commit_graph-IsStored xid db finished.graph files valid small buildable staged path in
        (
          p.after,
          accepted finished files wrote current opens_finished (rw at_base same)
              ∙ of_storage_ok _ (sound files) (sound p.after) _ (rw at_database p.commits),
          p.opens,
          p.reads,
        )
