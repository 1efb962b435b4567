-- ===== src/Encoding/Counted.antt =====
-- The check of a count before its records are read refuses nothing that can be read.
use nostdb_core.Base.{
  ℕ, suc, ◌+◌, ◌≤◌, ◌≡◌, refl, ap, sym, ◌∙◌, List, [], ◌∷◌, Option, none, some, Option-cases, inl,
  inr, Bytes, length, arith,
}
use nostdb_core.Base.Results
use nostdb_core.Base.Results.{Result, ok, err}
use nostdb_core.Container.{SectionKind, Section, Container, section}
use nostdb_core.Model.Names.{Xid}
use nostdb_core.Encoding.Reader.{Reader, Table, ◌>>=◌, read_count, repeat, finish, run, read_table}
use nostdb_core.Encoding.Graphs.{
  table_of, read_counted, read_records, read_section, decode_sections, decode_graph,
}
use nostdb_core.Encoding.Counts.{Result-cases}
use nostdb_core.Encoding.Takes.{
  Takes, Takes-least, Takes-then, Takes-map, Takes-repeat, accepted, counted-unchecked,
}
use nostdb_core.Encoding.Unchecked.{
  table_unchecked, records_unchecked, table_of_unchecked, sections_unchecked, graph_unchecked,
}
use nostdb_core.Encoding.Same.{Same, Same-refl, Same-then, Same-repeat, Same-count}
use nostdb_core.Encoding.SameNamed.{Same-node, Same-edge, Same-schema}
use nostdb_core.Encoding.Minimums.{Takes-entry}
use nostdb_core.Encoding.MinimumsNamed.{Takes-node, Takes-edge, Takes-link, Takes-schema}

Takes-finish : Takes 0 finish
unfolding finish
Takes-finish = record { takes = kept }
  where
    kept :
        (bytes : Bytes) (v : Unit) (rest : Bytes)
        → finish bytes ≡ ok (v, rest)
        → 0 + length rest ≤ length bytes
    kept [] v rest h = let it : [] ≡ rest = cc in omega (arith, ap length it)
    kept (b ∷ bytes) v rest h = absurd cc

-- Two results that accept the same.
module _ {E A B : Type 0} where
  accepted-bind :
      (r r' : Result E A) (k k' : A → Result E B)
      → accepted r ≡ accepted r'
      → ((v : A) → accepted (k v) ≡ accepted (k' v))
      → accepted (Results.◌>>=◌ r k) ≡ accepted (Results.◌>>=◌ r' k')
  unfolding accepted Results.◌>>=◌
  accepted-bind (err e) (err e') k k' same next = refl
  accepted-bind (err e) (ok v) k k' same next = absurd cc
  accepted-bind (ok v) (err e) k k' same next = absurd cc
  accepted-bind (ok v) (ok u) k k' same next =
      let it : v ≡ u = cc in next v ∙ ap (λ x. accepted (k' x)) it

module _ {A : Type 0} where
  abbrev value_of : Option (A × Bytes) → Option A
  value_of none = none
  value_of (some (value, _)) = some value

  accepted-value :
      (r : Reader A) (payload : Bytes) → accepted (run r payload) ≡ value_of (accepted (r payload))
  unfolding run accepted
  accepted-value r payload = elim (Result-cases (r payload)) [
    | inl (e, stop) ↦ rw (stop, run) refl
    | inr ((value, rest), found) ↦ rw (found, run) refl
  ]

  accepted-run :
      (r r' : Reader A) (payload : Bytes)
      → accepted (r payload) ≡ accepted (r' payload)
      → accepted (run r payload) ≡ accepted (run r' payload)
  accepted-run r r' payload same =
      accepted-value r payload ∙ ap value_of same ∙ sym (accepted-value r' payload)

then_assoc :
    {A B C : Type 0} (r : Reader A) (k : A → Reader B) (l : B → Reader C) (bytes : Bytes)
    → ((r >>= k) >>= l) bytes ≡ (r >>= (λ v. k v >>= l)) bytes
unfolding ◌>>=◌
then_assoc r k l bytes = elim (Result-cases (r bytes)) [
  | inl (e, stop) ↦ rw (stop, ◌>>=◌) refl
  | inr ((v, rest), found) ↦ rw (found, ◌>>=◌) refl
]

module _ {A : Type 0} (least : ℕ) {r r' : Reader A} (one : Takes (suc least) r)
    (same : Same r r') where
  records-unchecked :
      (bytes : Bytes)
      → accepted (read_records (suc least) r bytes) ≡ accepted (records_unchecked r' bytes)
  unfolding read_records read_counted records_unchecked
  records-unchecked bytes =
      ap accepted (then_assoc (read_count (suc least)) (λ count. repeat count r) _ bytes)
      ∙ (Same-count least
            (λ count.
              Takes-least
                (Takes-then (Takes-repeat one count)
                  (λ records. Takes-map (λ _. records) Takes-finish))
                (omega arith))
            (λ count. Same-then (Same-repeat same count) (λ records. Same-refl))).same
          bytes

  section-unchecked :
      (payload : Option Bytes)
      → accepted (read_section (read_records (suc least) r) payload)
        ≡ accepted (read_section (records_unchecked r') payload)
  unfolding read_section
  section-unchecked none = refl
  section-unchecked (some payload) =
      accepted-run (read_records (suc least) r) (records_unchecked r') payload
        (records-unchecked payload)

table-unchecked : (bytes : Bytes) → accepted (read_table bytes) ≡ accepted (table_unchecked bytes)
unfolding read_table table_unchecked
table-unchecked = counted-unchecked 3 _ (λ count.
    Takes-least
      (Takes-then (Takes-repeat Takes-entry count)
        (λ entries. Takes-map (λ _. entries) Takes-finish))
      (omega arith))

table_of-unchecked :
    (sections : List Section)
    → accepted (table_of sections) ≡ accepted (table_of_unchecked sections)
unfolding table_of table_of_unchecked
table_of-unchecked sections = elim (Option-cases (section SectionKind.string_table sections)) [
  | inl absent ↦ rw (absent, table_of, table_of_unchecked) refl
  | inr (payload, present) ↦
      rw (present, table_of, table_of_unchecked)
        (accepted-run read_table table_unchecked payload (table-unchecked payload))
]

sections-unchecked :
    (xid : Xid) (sections : List Section) (table : Table)
    → accepted (decode_sections xid sections table)
      ≡ accepted (sections_unchecked xid sections table)
unfolding decode_sections sections_unchecked
sections-unchecked xid sections table =
    accepted-bind _ _ _ _ (section-unchecked 27 (Takes-node table xid) (Same-node table xid) _)
      (λ nodes.
        accepted-bind _ _ _ _ (section-unchecked 39 (Takes-edge table xid) (Same-edge table xid) _)
          (λ edges.
            accepted-bind _ _ _ _ (section-unchecked 7 (Takes-link table xid) Same-refl _) (λ links.
              accepted-bind _ _ _ _
                (section-unchecked 11 (Takes-schema table xid) (Same-schema table xid) _)
                (λ schemas. refl))))

-- The checks of counts refuse nothing that could be read: whatever bytes the sections hold, the graph
-- that is decoded, if there is one, is the one that is decoded when every count, of entries, records,
-- labels, properties, values, fields, contributions and evidence, is taken as it stands.
pub decode_graph-unchecked :
    (xid : Xid) (container : Container)
    → accepted (decode_graph xid container) ≡ accepted (graph_unchecked xid container)
unfolding decode_graph graph_unchecked
decode_graph-unchecked xid container =
    accepted-bind _ _ _ _ (table_of-unchecked container.sections)
      (sections-unchecked xid container.sections)
