-- ===== src/Encoding/Stored.antt =====
-- A graph through the database: committed, opened and read.
use nostdb_core.Base.{◌+◌, ◌<◌, ◌≡◌, length}
use nostdb_core.Base.Results.{ok}
use nostdb_core.Base.Utf8.{IsUtf8}
use nostdb_core.Container.RoundTrip.{IsBuildable}
use nostdb_core.Files
use nostdb_core.Files.{FileMap}
use nostdb_core.Files.Laws.{sound}
use nostdb_core.Storage.{Database, open_file}
use nostdb_core.Storage.Paths.{staged_of}
use nostdb_core.Storage.Publishes.{committed, commit-Publishes}
use nostdb_core.Model.Names.{Xid}
use nostdb_core.Model.Records.{Graph}
use nostdb_core.Encoding.Strings.{no_string}
use nostdb_core.Encoding.Graphs.{payloads, encode_graph, commit_graph, read_graph}
use nostdb_core.Encoding.Valid.{IsGraph}
use nostdb_core.Encoding.RoundTrip.{decode_graph-encode_graph}

module _ (xid : Xid) (db : Database) (g : Graph) (files : FileMap) where
  -- The database behind the commit.
  abbrev pub stored : Database
  stored = committed db (encode_graph g) files

  -- Committing the graph succeeds, and the file that it leaves opens as a database that holds it.
  pub record IsStored : Type 0 where
    pub after : FileMap
    pub commits :
        commit_graph db g (sound files)
        ≡ (Files.ok (db.container.generation + 1, stored), sound after)
    pub opens : open_file db.path (sound after) ≡ (Files.ok stored, sound after)
    pub reads : read_graph xid stored ≡ ok g

  -- With no fault, and paths that are UTF-8, a graph that meets the rules of its types, has fewer than
  -- 2 ^ 32 - 1 different texts and fits a container is committed; the file that is left opens as the
  -- database that was returned, and the graph that is read from it is the one committed.
  pub commit_graph-IsStored :
      IsGraph xid g
      → length (payloads g).strings.entries < no_string
      → IsBuildable (record { generation = db.container.generation + 1; sections = encode_graph g })
      → IsUtf8 (staged_of db.path)
      → IsUtf8 db.path
      → IsStored
  unfolding commit_graph read_graph
  commit_graph-IsStored valid small buildable staged path =
      let p = commit-Publishes db (encode_graph g) files buildable staged path in
      record {
        after = p.after;
        commits = p.commits;
        opens = p.opens;
        reads = decode_graph-encode_graph xid g valid small (db.container.generation + 1);
      }
