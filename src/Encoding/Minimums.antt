-- ===== src/Encoding/Minimums.antt =====
-- The least that a record takes, for the records that are counted.
use nostdb_core.Base.{ℕ, suc, Option, none, some, ◌==◌, Option-cases, inl, inr, Bytes, arith}
use nostdb_core.Base.Utf8.{is_utf8}
use nostdb_core.Model.Values.{PropertyScalar}
use nostdb_core.Model.Schemas.{from_raw}
use nostdb_core.Encoding.Errors.{What}
use nostdb_core.Encoding.Reader.{Reader, Table, read_entry, checked_text}
use nostdb_core.Encoding.Read.{
  read_position, read_some_range, read_range_between, range_of, read_range, method_of, read_method,
  read_score, confidence_of, read_confidence, flag_of, read_flag, scalar_type_of, read_scalar_type,
  optional_text, read_text, read_locator, read_optional_text, read_digest, read_date_time,
  read_finite, read_bytes, scalar_of_tag, read_scalar, read_evidence, owner_of_tag, decode_owner,
  read_contribution, read_contributions, reference_of_tag, read_reference,
}
use nostdb_core.Encoding.Takes.{
  Takes, Takes-least, Takes-any, Takes-return, Takes-fail, Takes-lift, Takes-if, Takes-then,
  Takes-map, Takes-bytes, Takes-u8, Takes-u32, Takes-u64, Takes-id16, Takes-count, Takes-repeat,
  Takes-string, Takes-optional,
}

pub Takes-entry : Takes 4 read_entry
unfolding read_entry checked_text
Takes-entry = Takes-then Takes-u32 (λ length. Takes-any (
    Takes-then (Takes-bytes length)
      (λ bytes. Takes-if (is_utf8 bytes) (Takes-return bytes) (Takes-fail _))))

pub Takes-flag : (what : What) → Takes 4 (read_flag what)
unfolding read_flag flag_of
Takes-flag what = Takes-then Takes-u32 (λ tag.
    Takes-if (tag == 0) (Takes-return _) (Takes-if (tag == 1) (Takes-return _) (Takes-fail _)))

Takes-range : Takes 1 read_range
unfolding read_range range_of read_some_range read_position read_range_between
Takes-range = Takes-then Takes-u8 (λ flag. Takes-if (flag == 0) (Takes-return _) (
    Takes-least {n = 32}
      (Takes-then position (λ start. Takes-then position (λ end. Takes-map some (Takes-lift _))))
      (omega arith)))
  where
    position : Takes 16 read_position
    position = Takes-then Takes-u32 (λ line. Takes-then Takes-u32 (λ column. Takes-map _ Takes-u64))

Takes-method : Takes 1 read_method
unfolding read_method method_of
Takes-method = Takes-then Takes-u8 (λ tag.
    Takes-if (tag == 1) (Takes-return _)
      (Takes-if (tag == 2) (Takes-return _) (Takes-if (tag == 3) (Takes-return _) (Takes-fail _))))

Takes-score : Takes 4 read_score
unfolding read_score
Takes-score = Takes-then Takes-u32 (λ bits. Takes-lift _)

Takes-confidence : Takes 1 read_confidence
unfolding read_confidence confidence_of
Takes-confidence = Takes-then Takes-u8 (λ tag. Takes-if (tag == 1) (Takes-return _) (
    Takes-if (tag == 2) (Takes-least (Takes-map _ Takes-score) (omega arith))
      (Takes-if (tag == 3) (Takes-least (Takes-map _ Takes-score) (omega arith)) (Takes-fail _))))

pub Takes-scalar_type : Takes 4 read_scalar_type
unfolding read_scalar_type scalar_type_of
Takes-scalar_type = Takes-then {n = 0} Takes-u32 (λ raw. elim (Option-cases (from_raw raw)) [
  | inl unknown ↦ rw (unknown, scalar_type_of) (Takes-fail _)
  | inr (scalar, known) ↦ rw (known, scalar_type_of) (Takes-return _)
])

module _ (table : Table) where
  Takes-text : Takes 4 (read_text table)
  unfolding read_text
  Takes-text = Takes-then (Takes-string table) (λ value. Takes-lift _)

  pub Takes-locator : Takes 4 (read_locator table)
  unfolding read_locator
  Takes-locator = Takes-then (Takes-string table) (λ value. Takes-lift _)

  Takes-optional_text : Takes 4 (read_optional_text table)
  unfolding read_optional_text optional_text
  Takes-optional_text = Takes-then (Takes-optional table) present
    where
      present : (value : Option Bytes) → Takes 0 (optional_text value)
      present none = Takes-return none
      present (some value) = Takes-map some (Takes-lift _)

  Takes-digest : Takes 4 (read_digest table)
  unfolding read_digest
  Takes-digest = Takes-then (Takes-string table) (λ value. Takes-lift _)

  pub Takes-scalar : Takes 2 (read_scalar table)
  unfolding read_scalar scalar_of_tag read_finite read_bytes read_date_time
  Takes-scalar = Takes-then Takes-u8 (λ tag. Takes-if (tag == 1) (Takes-map _ Takes-u8) (
      Takes-if (tag == 2) (wide (Takes-map _ Takes-u64)) (
        Takes-if (tag == 3) (wide (Takes-map _ (Takes-then Takes-u64 (λ bits. Takes-lift _)))) (
          Takes-if (tag == 4) (wide (Takes-map _ (Takes-string table))) (
            Takes-if (tag == 5)
              (wide (Takes-map _ (Takes-then Takes-u32 (λ length. Takes-any (Takes-bytes length)))))
              (Takes-if (tag == 6)
                (wide (Takes-map _ (Takes-then (Takes-string table) (λ value. Takes-lift _))))
                (Takes-fail _)))))))
    where
      wide : {n : ℕ} {r : Reader PropertyScalar} → Takes (suc n) r → Takes 1 r
      wide t = Takes-least t (omega arith)

  -- An evidence record takes at least 27 bytes, and is reckoned with 24.
  pub Takes-evidence : Takes 24 (read_evidence table)
  unfolding read_evidence
  Takes-evidence =
      Takes-least {n = 27}
        (Takes-then Takes-locator (λ _. Takes-then Takes-optional_text (λ _.
          Takes-then Takes-optional_text (λ _. Takes-then Takes-digest (λ _.
            Takes-then Takes-range (λ _. Takes-then Takes-text (λ _.
              Takes-then Takes-text
                (λ _. Takes-then Takes-method (λ _. Takes-map _ Takes-confidence)))))))))
        (omega arith)

  pub Takes-contribution : Takes 21 (read_contribution table)
  unfolding read_contribution decode_owner owner_of_tag
  Takes-contribution =
      Takes-least {n = 25}
        (Takes-then (Takes-then Takes-u8 (λ tag. Takes-if (tag == 4) Takes-text (Takes-fail _)))
          (λ owner. Takes-then Takes-id16 (λ source_unit.
            Takes-then (Takes-count 23)
              (λ count. Takes-any (Takes-map _ (Takes-repeat Takes-evidence count))))))
        (omega arith)

  pub Takes-contributions : Takes 4 (read_contributions table)
  unfolding read_contributions
  Takes-contributions =
      Takes-then (Takes-count 20) (λ count. Takes-any (Takes-repeat Takes-contribution count))

  pub Takes-reference : Takes 17 (read_reference table)
  unfolding read_reference reference_of_tag
  Takes-reference = Takes-then Takes-u8 (λ tag. Takes-if (tag == 1) (Takes-map _ Takes-id16) (
      Takes-if (tag == 2)
        (Takes-least {n = 20} (Takes-then Takes-locator (λ _. Takes-map _ Takes-id16))
          (omega arith))
        (Takes-fail _)))
