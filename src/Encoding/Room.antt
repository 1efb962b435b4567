-- ===== src/Encoding/Room.antt =====
-- The records of a graph that is decoded have room in the payloads that it is decoded from.
use nostdb_core.Base.{
  ℕ, zero, suc, ◌+◌, ◌*◌, ◌≤◌, ◌≡◌, refl, ap, List, [], ◌∷◌, Option, none, some, inl, inr, Bytes,
  length, arith,
}
use mathlib.Core.Path.{subst}
use nostdb_core.Base.Results
use nostdb_core.Base.Results.{Result, ok, err}
use nostdb_core.Container.{SectionKind, Section, Container, section}
use nostdb_core.Model.Names.{Xid}
use nostdb_core.Model.Records.{Graph}
use nostdb_core.Encoding.Reader.{Reader, Table, return, read_count, repeat, finish, run}
use nostdb_core.Encoding.Graphs.{
  table_of, read_counted, read_records, read_section, decode_sections, decode_graph,
}
use nostdb_core.Encoding.Counts.{Result-cases, bind_inv}
use nostdb_core.Encoding.Takes.{Takes, Takes-count}
use nostdb_core.Encoding.MinimumsNamed.{Takes-node, Takes-edge, Takes-link, Takes-schema}

module _ {A : Type 0} {k : ℕ} {r : Reader A} (one : Takes k r) where
  repeat-room :
      (count : ℕ) (bytes : Bytes) (xs : List A) (rest : Bytes)
      → repeat count r bytes ≡ ok (xs, rest)
      → length xs * k + length rest ≤ length bytes
  unfolding repeat return
  repeat-room zero bytes xs rest h =
      let none_read : [] ≡ xs = cc in
      let behind : bytes ≡ rest = cc in
      subst (λ zs. length zs * k + length rest ≤ length bytes) none_read
        (omega (arith, ap length behind))
  repeat-room (suc count) bytes xs rest h =
      let (x, b1, h1, h2) = bind_inv r _ bytes xs rest h in
      let (ys, b2, h3, h4) = bind_inv (repeat count r) (λ ys. return (x ∷ ys)) b1 xs rest h2 in
      let read : x ∷ ys ≡ xs = cc in
      let behind : b2 ≡ rest = cc in
      let first : k + length b1 ≤ length bytes = one.takes bytes x b1 h1 in
      let others : length ys * k + length b2 ≤ length b1 = repeat-room count b1 ys b2 h3 in
      subst (λ zs. length zs * k + length rest ≤ length bytes) read
        (omega (arith, first, others, ap length behind))

  records-room :
      (least : ℕ) (payload : Bytes) (xs : List A) (rest : Bytes)
      → read_records (suc least) r payload ≡ ok (xs, rest)
      → length xs * k ≤ length payload
  unfolding read_records read_counted return
  records-room least payload xs rest h =
      let (ys, b1, h1, h2) = bind_inv (read_counted (suc least) r) _ payload xs rest h in
      let (count, b0, h0, h3) =
        bind_inv (read_count (suc least)) (λ count. repeat count r) payload ys b1 h1 in
      let (_, b2, _, h4) = bind_inv finish (λ _. return ys) b1 xs rest h2 in
      let same : ys ≡ xs = cc in
      let header : 4 + length b0 ≤ length payload = (Takes-count least).takes payload count b0 h0 in
      let inside : length ys * k + length b1 ≤ length b0 = repeat-room count b0 ys b1 h3 in
      subst (λ zs. length zs * k ≤ length payload) same (omega (arith, header, inside))

-- The bytes of a section, none where it is absent.
abbrev pub room : Option Bytes → ℕ
room none = 0
room (some payload) = length payload

run-ok :
    {A : Type 0} (r : Reader A) (payload : Bytes) (v : A)
    → run r payload ≡ ok v
    → (rest : Bytes) × (r payload ≡ ok (v, rest))
unfolding run
run-ok r payload v h = elim (Result-cases (r payload)) [
  | inl (e, stop) ↦ let never : err e ≡ ok v = rw (stop, run) at h in absurd cc
  | inr ((u, rest), found) ↦ let same : ok u ≡ ok v = rw (found, run) at h in (rest, cc)
]

section-room :
    {A : Type 0} {k : ℕ} {r : Reader A}
    → Takes k r
    → (least : ℕ) (payload : Option Bytes) (xs : List A)
    → read_section (read_records (suc least) r) payload ≡ ok xs
    → length xs * k ≤ room payload
unfolding read_section
section-room {k = k} one least none xs h =
    let empty : [] ≡ xs = cc in subst (λ zs. length zs * k ≤ 0) empty (omega arith)
section-room {r = r} one least (some payload) xs h =
    let (rest, found) = run-ok (read_records (suc least) r) payload xs h in
    records-room one least payload xs rest found

-- A step that succeeds in a chain that does.
step_inv :
    {E A B : Type 0} (o : Result E A) (k : A → Result E B) (v : B)
    → Results.◌>>=◌ o k ≡ ok v
    → (u : A) × (o ≡ ok u) × (k u ≡ ok v)
step_inv (err e) k v h = absurd cc
step_inv (ok u) k v h = (u, refl, h)

abbrev HasRoom : List Section → Graph → Type 0
HasRoom sections graph =
    (length graph.nodes * 28 ≤ room (section SectionKind.nodes sections))
    × (length graph.edges * 40 ≤ room (section SectionKind.edges sections))
    × (length graph.links * 8 ≤ room (section SectionKind.links sections))
    × (length graph.schemas * 12 ≤ room (section SectionKind.schemas sections))

sections-room :
    (xid : Xid) (sections : List Section) (table : Table) (graph : Graph)
    → decode_sections xid sections table ≡ ok graph
    → HasRoom sections graph
unfolding decode_sections
sections-room xid sections table graph h =
    let (nodes, h1, k1) = step_inv _ _ graph h in
    let (edges, h2, k2) = step_inv _ _ graph k1 in
    let (links, h3, k3) = step_inv _ _ graph k2 in
    let (schemas, h4, k4) = step_inv _ _ graph k3 in
    let it : record { nodes = nodes; edges = edges; links = links; schemas = schemas } ≡ graph =
      cc in
    subst (HasRoom sections) it (
      section-room (Takes-node table xid) 27 _ nodes h1,
      section-room (Takes-edge table xid) 39 _ edges h2,
      section-room (Takes-link table xid) 7 _ links h3,
      section-room (Takes-schema table xid) 11 _ schemas h4,
    )

-- A graph that is decoded is no larger than its payloads allow, whatever the bytes are: 28 bytes of
-- the section for each node, 40 for each relationship, 8 for each link and 12 for each schema, and no
-- record where the section is absent.
pub decode_graph-room :
    (xid : Xid) (container : Container) (graph : Graph)
    → decode_graph xid container ≡ ok graph
    → (length graph.nodes * 28 ≤ room (section SectionKind.nodes container.sections))
      × (length graph.edges * 40 ≤ room (section SectionKind.edges container.sections))
      × (length graph.links * 8 ≤ room (section SectionKind.links container.sections))
      × (length graph.schemas * 12 ≤ room (section SectionKind.schemas container.sections))
unfolding decode_graph
decode_graph-room xid container graph h =
    let (table, _, decoded) = step_inv (table_of container.sections) _ graph h in
    sections-room xid container.sections table graph decoded
