-- ===== src/Encoding/RoundTrip.antt =====
-- A graph that is encoded is decoded as itself.
use nostdb_core.Base.{
  ℕ, suc, ◌<◌, ◌≡◌, refl, ◌∙◌, true, false, List, [], ◌∷◌, append-nil, Option, none, some, Bytes,
  length, arith,
}
use nostdb_core.Base.Results.{ok}
use nostdb_core.Base.Words.{u32_mod}
use nostdb_core.Generation.{Generation}
use nostdb_core.Container.{SectionKind, Section, section, same_kind}
use nostdb_core.Model.Names.{Xid}
use nostdb_core.Model.Records.{Graph}
use nostdb_core.Encoding.Strings.{Strings, no_strings, no_string, lookup, Put}
use nostdb_core.Encoding.Reader.{Reader, Table, return, run, finish}
use nostdb_core.Encoding.Write.{put_section, put_node, put_edge, put_link, put_schema}
use nostdb_core.Encoding.ReadNamed.{read_node, read_edge, read_link, read_schema}
use nostdb_core.Encoding.Graphs.{
  payloads, push_unless_empty, sections_of, encode_graph, table_of, read_counted, read_records,
  read_section, decode_sections, decode_graph,
}
use nostdb_core.Encoding.Codes.{
  AllTexts, StartsWith, StartsWith-trans, IsConsistent, Codes, bind_ok, Codes-weaken,
}
use nostdb_core.Encoding.Leaves.{Codes-count}
use nostdb_core.Encoding.Valid.{All, IsGraph}
use nostdb_core.Encoding.Parts.{Codes-each}
use nostdb_core.Encoding.Records.{Codes-node, Codes-edge, Codes-link, Codes-schema}
use nostdb_core.Encoding.Tables.{run_whole, read_table-encode}

-- The payload of a section, if it is there.
abbrev pub present {ℓ} : {A : Type ℓ} → List A → Bytes → Option Bytes
present [] payload = none
present (_ ∷ _) payload = some payload

module _ {A : Type 0} {P : A → Type 0} (least : ℕ) (put_one : A → Put) (r : Table → Reader A)
    (one : (x : A) → P x → Codes (suc least) (put_one x) r x) (xs : List A)
    (valid : (length xs < u32_mod) × All P xs) where
  Codes-section : Codes 4 (put_section put_one xs) (λ t. read_counted (suc least) (r t)) xs
  unfolding put_section read_counted
  Codes-section =
      Codes-weaken
        (Codes-count least (length xs) _ valid.0 (omega arith)
          (Codes-each (suc least) put_one r one xs valid.1))
        (omega arith)

  -- The whole section is read back over the final table.
  section_read :
      (t : Table) (s : Strings)
      → length t < no_string
      → StartsWith (put_section put_one xs s).1.entries t
      → IsConsistent t s
      → IsConsistent t (put_section put_one xs s).1
        × (read_section (read_records (suc least) (r t)) (present xs (put_section put_one xs s).0)
            ≡ ok xs)
  unfolding read_records read_section finish return
  section_read t s small end c =
      let (c1, read1) = Codes-section.reads t s small end c in
      let payload = (put_section put_one xs s).0 in
      (
        c1,
        if_present xs payload (
            run_whole (read_records (suc least) (r t)) payload (
              bind_ok (read_counted (suc least) (r t)) _ _ (read1 [])
              ∙ bind_ok finish (λ _. return xs) [] refl)),
      )
    where
      if_present :
          (ys : List A) (payload : Bytes)
          → run (read_records (suc least) (r t)) payload ≡ ok ys
          → read_section (read_records (suc least) (r t)) (present ys payload) ≡ ok ys
      if_present [] payload e = refl
      if_present (y ∷ ys) payload e = e

section_after :
    {A : Type 0} (xs : List A) (kind other : SectionKind) (payload : Bytes) (rest : List Section)
    → same_kind kind other ≡ false
    → section other (push_unless_empty xs kind payload rest) ≡ section other rest
unfolding section push_unless_empty
section_after [] kind other payload rest e = refl
section_after (x ∷ xs) kind other payload rest e = rw e refl

section_here :
    {A : Type 0} (xs : List A) (kind : SectionKind) (payload : Bytes) (rest : List Section)
    → same_kind kind kind ≡ true
    → section kind rest ≡ none
    → section kind (push_unless_empty xs kind payload rest) ≡ present xs payload
unfolding section push_unless_empty
section_here [] kind payload rest e absent = absent
section_here (x ∷ xs) kind payload rest e absent = rw e refl

module _ (xid : Xid) (g : Graph) (valid : IsGraph xid g)
    (small : length (payloads g).strings.entries < no_string) where
  abbrev s1 : Strings
  s1 = (put_section put_node g.nodes no_strings).1

  abbrev s2 : Strings
  s2 = (put_section put_edge g.edges s1).1

  abbrev s3 : Strings
  s3 = (put_section put_link g.links s2).1

  abbrev s4 : Strings
  s4 = (put_section put_schema g.schemas s3).1

  nodes_code :
      Codes 4 (put_section put_node g.nodes) (λ t. read_counted 28 (read_node t xid)) g.nodes
  nodes_code = Codes-section 27 put_node (λ t. read_node t xid) (Codes-node xid) g.nodes valid.nodes

  edges_code :
      Codes 4 (put_section put_edge g.edges) (λ t. read_counted 40 (read_edge t xid)) g.edges
  edges_code = Codes-section 39 put_edge (λ t. read_edge t xid) (Codes-edge xid) g.edges valid.edges

  links_code :
      Codes 4 (put_section put_link g.links) (λ t. read_counted 8 (read_link t xid)) g.links
  links_code = Codes-section 7 put_link (λ t. read_link t xid) (Codes-link xid) g.links valid.links

  schemas_code :
      Codes 4
        (put_section put_schema g.schemas)
        (λ t. read_counted 12 (read_schema t xid))
        g.schemas
  schemas_code =
      Codes-section 11 put_schema (λ t. read_schema t xid) (Codes-schema xid) g.schemas
        valid.schemas

  texts : AllTexts s4.entries
  texts =
      schemas_code.texts s3
        (links_code.texts s2 (edges_code.texts s1 (nodes_code.texts no_strings tt)))

  end4 : StartsWith s4.entries s4.entries
  end4 = ([], append-nil s4.entries)

  end3 : StartsWith s3.entries s4.entries
  end3 = schemas_code.grows s3

  end2 : StartsWith s2.entries s4.entries
  end2 = StartsWith-trans s2.entries s3.entries s4.entries (links_code.grows s2) end3

  end1 : StartsWith s1.entries s4.entries
  end1 = StartsWith-trans s1.entries s2.entries s4.entries (edges_code.grows s1) end2

  empty-IsConsistent : IsConsistent s4.entries no_strings
  unfolding lookup
  empty-IsConsistent value place found = cc

  short : length s4.entries < no_string
  unfolding payloads
  short = small

  -- What a section makes of its payload, and the index behind it.
  abbrev Reads : {A : Type 0} → (Table → Reader (List A)) → List A → Bytes × Strings → Type 0
  Reads reader xs (payload, after) =
      IsConsistent s4.entries after
      × (read_section (reader s4.entries) (present xs payload) ≡ ok xs)

  nodes_read :
      Reads
        (λ t. read_records 28 (read_node t xid))
        g.nodes
        (put_section put_node g.nodes no_strings)
  nodes_read =
      section_read 27 put_node (λ t. read_node t xid) (Codes-node xid) g.nodes valid.nodes
        s4.entries no_strings short end1 empty-IsConsistent

  edges_read :
      Reads (λ t. read_records 40 (read_edge t xid)) g.edges (put_section put_edge g.edges s1)
  edges_read =
      section_read 39 put_edge (λ t. read_edge t xid) (Codes-edge xid) g.edges valid.edges
        s4.entries s1 short end2 nodes_read.0

  links_read :
      Reads (λ t. read_records 8 (read_link t xid)) g.links (put_section put_link g.links s2)
  links_read =
      section_read 7 put_link (λ t. read_link t xid) (Codes-link xid) g.links valid.links s4.entries
        s2 short end3 edges_read.0

  schemas_read :
      Reads
        (λ t. read_records 12 (read_schema t xid))
        g.schemas
        (put_section put_schema g.schemas s3)
  schemas_read =
      section_read 11 put_schema (λ t. read_schema t xid) (Codes-schema xid) g.schemas valid.schemas
        s4.entries s3 short end4 links_read.0

  -- The payloads, where the sections hold them.
  abbrev encoded : List Section
  encoded = encode_graph g

  table_encoded : table_of encoded ≡ ok s4.entries
  unfolding encode_graph sections_of payloads table_of section same_kind
  table_encoded = read_table-encode s4 texts (omega (arith, short))

  nodes_there : section SectionKind.nodes encoded ≡ present g.nodes (payloads g).nodes
  unfolding encode_graph sections_of section same_kind
  nodes_there = section_here g.nodes SectionKind.nodes (payloads g).nodes _ refl (
      section_after g.edges SectionKind.edges SectionKind.nodes (payloads g).edges _ refl
      ∙ section_after g.links SectionKind.links SectionKind.nodes (payloads g).links _ refl
      ∙ section_after g.schemas SectionKind.schemas SectionKind.nodes (payloads g).schemas _ refl)

  edges_there : section SectionKind.edges encoded ≡ present g.edges (payloads g).edges
  unfolding encode_graph sections_of section same_kind
  edges_there =
      section_after g.nodes SectionKind.nodes SectionKind.edges (payloads g).nodes _ refl
      ∙ section_here g.edges SectionKind.edges (payloads g).edges _ refl (
          section_after g.links SectionKind.links SectionKind.edges (payloads g).links _ refl
          ∙ section_after g.schemas SectionKind.schemas SectionKind.edges (payloads g).schemas _
              refl)

  links_there : section SectionKind.links encoded ≡ present g.links (payloads g).links
  unfolding encode_graph sections_of section same_kind
  links_there =
      section_after g.nodes SectionKind.nodes SectionKind.links (payloads g).nodes _ refl
      ∙ section_after g.edges SectionKind.edges SectionKind.links (payloads g).edges _ refl
      ∙ section_here g.links SectionKind.links (payloads g).links _ refl (
          section_after g.schemas SectionKind.schemas SectionKind.links (payloads g).schemas _ refl)

  schemas_there : section SectionKind.schemas encoded ≡ present g.schemas (payloads g).schemas
  unfolding encode_graph sections_of section same_kind
  schemas_there =
      section_after g.nodes SectionKind.nodes SectionKind.schemas (payloads g).nodes _ refl
      ∙ section_after g.edges SectionKind.edges SectionKind.schemas (payloads g).edges _ refl
      ∙ section_after g.links SectionKind.links SectionKind.schemas (payloads g).links _ refl
      ∙ section_here g.schemas SectionKind.schemas (payloads g).schemas [] refl refl

  -- Decoding the sections that a graph is encoded as gives the graph back, if it meets the rules of
  -- its types, its lists have 32-bit lengths, and it has fewer than 2 ^ 32 - 1 different texts.
  pub decode_graph-encode_graph :
      (generation : Generation)
      → decode_graph xid (record { generation = generation; sections = encode_graph g }) ≡ ok g
  unfolding decode_graph decode_sections payloads
  decode_graph-encode_graph generation =
      rw
        (
          table_encoded, nodes_there, nodes_read.1, edges_there, edges_read.1, links_there,
          links_read.1, schemas_there, schemas_read.1,
        )
        refl
