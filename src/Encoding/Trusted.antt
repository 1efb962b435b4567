-- ===== src/Encoding/Trusted.antt =====
-- Decoding is validation: whatever the container holds.
use nostdb_core.Base.{
  ℕ, suc, ◌<◌, ◌≡◌, refl, Bool, true, false, List, [], ◌∷◌, Option, none, some, if◌then◌else◌,
  Bytes, AllBytes, length, Bool-cases, Option-cases, inl, inr, arith,
}
use mathlib.Core.Path.{subst}
use nostdb_core.Base.Results.{Result, ok, err, ◌>>=◌}
use nostdb_core.Base.Words.{u32_mod}
use nostdb_core.Container.{SectionKind, Section, Container, section, same_kind}
use nostdb_core.Model.Names.{Xid}
use nostdb_core.Model.Records.{Graph}
use nostdb_core.Encoding.Errors.{missing_section}
use nostdb_core.Encoding.Reader.{Reader, Table, run}
use nostdb_core.Encoding.ReadNamed.{read_node, read_edge, read_link, read_schema}
use nostdb_core.Encoding.Graphs.{
  table_of, read_counted, read_records, read_section, decode_sections, decode_graph,
}
use nostdb_core.Encoding.Codes.{IsText}
use nostdb_core.Encoding.Valid.{All, IsGraph}
use nostdb_core.Encoding.Yields.{
  Yields, Yields-then, Yields-return, Yields-weaken, Yields-count, Yields-repeat,
}
use nostdb_core.Encoding.Counts.{Result-cases}
use nostdb_core.Encoding.Checked.{Yields-finish, Yields-table}
use nostdb_core.Encoding.SoundGraph.{Yields-IsNode, Yields-IsEdge, Yields-IsLink, Yields-IsSchema}

-- The payloads are bytes.
abbrev pub AllPayloads : List Section → Type 0
AllPayloads [] = Unit
AllPayloads (s ∷ rest) = AllBytes s.payload × AllPayloads rest

AllBytes-section :
    (kind : SectionKind) (sections : List Section)
    → AllPayloads sections
    → (payload : Bytes) → section kind sections ≡ some payload
    → AllBytes payload
unfolding section
AllBytes-section kind [] h payload e = absurd cc
AllBytes-section kind (s ∷ rest) (h, hs) payload e = elim (Bool-cases (same_kind s.kind kind)) [
  | inl same ↦
      let it : some s.payload ≡ some payload = rw same at e in
      let found : s.payload ≡ payload = cc in subst AllBytes found h
  | inr differ ↦ AllBytes-section kind rest hs payload (rw differ at e)
]

Yields-records :
    {A : Type 0} {P : A → Type 0} (least : ℕ) {r : Reader A}
    → Yields P r
    → Yields (λ xs. (length xs < u32_mod) × All P xs) (read_records (suc least) r)
unfolding read_records read_counted
Yields-records least one =
    Yields-then
      (Yields-then (Yields-count least) (λ n small.
        Yields-weaken (Yields-repeat n one) (λ xs (e, hs). (omega (arith, e, small), hs))))
      (λ xs h. Yields-then Yields-finish (λ _ _. Yields-return xs h))

run-Yields :
    {A : Type 0} {P : A → Type 0} {r : Reader A} (payload : Bytes) (v : A)
    → Yields P r
    → AllBytes payload
    → run r payload ≡ ok v
    → P v
unfolding run
run-Yields {P} {r} payload v y all h = elim (Result-cases (r payload)) [
  | inl (e, stop) ↦ let never : err e ≡ ok v = rw (stop, run) at h in absurd cc
  | inr ((u, rest), found) ↦
      let it : ok u ≡ ok v = rw (found, run) at h in
      let same : u ≡ v = cc in subst P same (y.yields payload u rest all found).0
]

-- A chain of results that succeeds has a first one that does.
then_inv :
    {E A B : Type 0} (o : Result E A) (f : A → Result E B) (v : B)
    → (o >>= f) ≡ ok v
    → (a : A) × (o ≡ ok a) × (f a ≡ ok v)
then_inv (ok a) f v h = (a, refl, h)
then_inv (err e) f v h = absurd cc

section-Yields :
    {A : Type 0} {P : A → Type 0} {r : Reader (List A)} (payload : Option Bytes) (xs : List A)
    → Yields (λ xs. (length xs < u32_mod) × All P xs) r
    → ((bytes : Bytes) → payload ≡ some bytes → AllBytes bytes)
    → read_section r payload ≡ ok xs
    → (length xs < u32_mod) × All P xs
unfolding read_section
section-Yields {A} {P} none xs y all h =
    let none_read : [] ≡ xs = cc in
    subst (λ (ys : List A). (length ys < u32_mod) × All P ys) none_read (omega arith, tt)
section-Yields (some bytes) xs y all h = run-Yields bytes xs y (all bytes refl) h

-- Without a string table there is no text.
without_table :
    (absent : Bool) (t : Table)
    → (if absent then ok [] else err (missing_section SectionKind.string_table)) ≡ ok t
    → All IsText t
without_table true t e = let it : [] ≡ t = cc in subst (All IsText) it tt
without_table false t e = absurd cc

table-IsText :
    (sections : List Section) (t : Table)
    → AllPayloads sections
    → table_of sections ≡ ok t
    → All IsText t
unfolding table_of
table-IsText sections t h e = elim (Option-cases (section SectionKind.string_table sections)) [
  | inl absent ↦ without_table _ t (rw (absent, table_of) at e)
  | inr (payload, found) ↦
      run-Yields payload t Yields-table
        (AllBytes-section SectionKind.string_table sections h payload found)
        (rw (found, table_of) at e)
]

-- A graph that is decoded meets the rules of its types, whatever bytes the sections hold: each name,
-- text, digest, number, timestamp, score and range passes its constructor, no value and no type
-- nests deeper than eight levels, and each list is shorter than 2 ^ 32.
pub decode_graph-IsGraph :
    (xid : Xid) (container : Container) (g : Graph)
    → AllPayloads container.sections
    → decode_graph xid container ≡ ok g
    → IsGraph xid g
unfolding decode_graph decode_sections
decode_graph-IsGraph xid container g h e =
    let sections : List Section = container.sections in
    let (t, et, e0) = then_inv (table_of sections) (decode_sections xid sections) g e in
    let texts = table-IsText sections t h et in
    let (nodes, en, e1) =
      then_inv
        (read_section (read_records 28 (read_node t xid)) (section SectionKind.nodes sections)) _ g
        e0 in
    let (edges, ee, e2) =
      then_inv
        (read_section (read_records 40 (read_edge t xid)) (section SectionKind.edges sections)) _ g
        e1 in
    let (links, el, e3) =
      then_inv
        (read_section (read_records 8 (read_link t xid)) (section SectionKind.links sections)) _ g
        e2 in
    let (schemas, es, e4) =
      then_inv
        (read_section (read_records 12 (read_schema t xid)) (section SectionKind.schemas sections))
        _ g e3 in
    let it : record { nodes = nodes; edges = edges; links = links; schemas = schemas } ≡ g = cc in
    subst (IsGraph xid) it (record {
      nodes =
          section-Yields _ nodes (Yields-records 27 (Yields-IsNode t texts xid))
            (AllBytes-section SectionKind.nodes sections h) en;
      edges =
          section-Yields _ edges (Yields-records 39 (Yields-IsEdge t texts xid))
            (AllBytes-section SectionKind.edges sections h) ee;
      links =
          section-Yields _ links (Yields-records 7 (Yields-IsLink t texts xid))
            (AllBytes-section SectionKind.links sections h) el;
      schemas =
          section-Yields _ schemas (Yields-records 11 (Yields-IsSchema t texts xid))
            (AllBytes-section SectionKind.schemas sections h) es;
    })
