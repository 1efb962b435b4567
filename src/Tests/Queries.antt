-- ===== src/Tests/Queries.antt =====
-- A query over the database of a graph of one link, in a transaction: it takes the link away.
use nostdb_core.Base.{◌≡◌, refl, ap, List, [], ◌∷◌, length, arith, false}
use nostdb_core.Base.Results.{Result, ok}
use nostdb_core.Base.Words.{le_bytes}
use nostdb_core.Container.{Section, string_table, raw, from_raw, contains, payload_bytes}
use nostdb_core.Container.RoundTrip.{IsBuildable}
use nostdb_core.Files
use nostdb_core.Files.{FileMap}
use nostdb_core.Files.Laws.{sound}
use nostdb_core.Storage.{Database, open_file}
use nostdb_core.Model.Records.{Graph}
use nostdb_core.Encoding.Strings.{
  ◌>>◌, put_all, put, put_u32, put_string, put_optional, intern, lookup, next_place, encode,
  encode_entries,
}
use nostdb_core.Encoding.Write.{put_section}
use nostdb_core.Encoding.Graphs.{payloads, push_unless_empty, sections_of, encode_graph, read_graph}
use nostdb_core.Encoding.Valid.{IsGraph}
use nostdb_core.Encoding.Stored.{stored, IsStored, commit_graph-IsStored}
use nostdb_core.Transactions.{
  WriteSummary, no_writes, is_empty, added, accumulate, conflict, Transaction, started, begin, ran,
  run, run_all, commit,
}
use nostdb_core.Transactions.Laws.{commit-conflict, commit-stores}
use nostdb_core.Tests.Encodings.{letters}
use nostdb_core.Tests.Stored.{
  graph, graph-IsGraph, texts_count, encoded-IsBuildable, path, database, only_database,
  stored_sections, decoded, staged-IsUtf8, path-IsUtf8,
}

abbrev nothing : Graph
nothing = record { nodes = []; edges = []; links = []; schemas = [] }

nothing-IsGraph : IsGraph letters nothing
nothing-IsGraph = record {
  nodes = (omega arith, tt);
  edges = (omega arith, tt);
  links = (omega arith, tt);
  schemas = (omega arith, tt);
}

abbrev Only : Type 0
Only = Unit {0}

-- The execution of the one query there is.
unfoldable remove_links : Only → Graph → Graph × Result Only (Only × WriteSummary)
remove_links q g = (nothing, ok (tt, record no_writes { nodes_deleted = 1 }))

-- The database as it is stored, at generation 2.
first : IsStored letters database graph only_database
first =
    commit_graph-IsStored letters database graph only_database graph-IsGraph
      (omega (arith, texts_count)) encoded-IsBuildable staged-IsUtf8 path-IsUtf8

abbrev held : Database
held = stored letters database graph only_database

abbrev opened : Transaction
opened = record { database = held; base = 2; graph = graph; writes = no_writes }

begins : begin letters Only Only Only remove_links held ≡ ok opened
unfolding begin started
begins = ap (started letters Only Only Only remove_links held) first.reads

abbrev one_query : List Only
one_query = tt ∷ []

wrote :
    (t : Transaction)
    → t.writes ≡ no_writes
    → is_empty (run_all letters Only Only Only remove_links one_query t).writes ≡ false
unfolding run_all run ran remove_links accumulate added is_empty
wrote t e = rw e refl

abbrev bare_sections : List Section
bare_sections = record { kind = string_table; payload = 0 ∷ 0 ∷ 0 ∷ 0 ∷ [] } ∷ []

nothing_encoded : encode_graph nothing ≡ bare_sections
unfolding encode_graph sections_of push_unless_empty payloads put_section ◌>>◌ put_all put put_u32
    put_string put_optional intern lookup next_place encode encode_entries le_bytes
nothing_encoded = refl

nothing-count : length (payloads nothing).strings.entries ≡ 0
unfolding payloads put_section ◌>>◌ put_all put put_u32
nothing-count = refl

bare-IsBuildable : IsBuildable (record { generation = 3; sections = bare_sections })
unfolding raw from_raw contains payload_bytes
bare-IsBuildable = record {
  generation_fits = omega arith;
  few = omega arith;
  fresh = ((refl, omega arith), refl, tt);
  fits = omega arith;
}

nothing-IsBuildable : IsBuildable (record { generation = 3; sections = encode_graph nothing })
nothing-IsBuildable = rw nothing_encoded bare-IsBuildable

left : (run_all letters Only Only Only remove_links one_query opened).graph ≡ nothing
unfolding run_all run ran remove_links
left = refl

-- The stored graph is replaced by the empty one, and the file opens as a database that holds that.
commit-stores_example :
    (after : FileMap) × (commit letters Only Only Only remove_links
        (run_all letters Only Only Only remove_links one_query opened)
        (sound first.after)
      ≡ (
        Files.ok (
          3,
          stored letters held
              (run_all letters Only Only Only remove_links one_query opened).graph
              first.after,
        ),
        sound after,
      ))
    × (open_file path (sound after) ≡ (
      Files.ok (
          stored letters held
            (run_all letters Only Only Only remove_links one_query opened).graph
            first.after),
      sound after,
    ))
    × (read_graph letters (
          stored letters held
            (run_all letters Only Only Only remove_links one_query opened).graph
            first.after)
        ≡ ok (run_all letters Only Only Only remove_links one_query opened).graph)
commit-stores_example =
    commit-stores letters Only Only Only remove_links held opened one_query begins first.after
      (wrote opened refl) held first.opens refl (rw left nothing-IsGraph)
      (rw left (omega (arith, nothing-count))) (rw left nothing-IsBuildable) staged-IsUtf8
      path-IsUtf8

-- The same database as it was before, in another process.
abbrev stale : Database
stale = record { path = path; container = record { generation = 1; sections = stored_sections } }

abbrev behind : Transaction
behind = record { database = stale; base = 1; graph = graph; writes = no_writes }

stale_begins : begin letters Only Only Only remove_links stale ≡ ok behind
unfolding begin started read_graph
stale_begins = ap (started letters Only Only Only remove_links stale) decoded

commit-conflict_example :
    commit letters Only Only Only remove_links
      (run_all letters Only Only Only remove_links one_query behind)
      (sound first.after)
    ≡ (Files.err (conflict 1 2), sound first.after)
commit-conflict_example =
    commit-conflict letters Only Only Only remove_links stale behind one_query stale_begins
      first.after (wrote behind refl) held first.opens (λ e. absurd (omega arith))
