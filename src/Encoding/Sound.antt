-- ===== src/Encoding/Sound.antt =====
-- Whatever the bytes are, the records that are read meet the rules of their types.
use nostdb_core.Base.{Option, none, some, ◌==◌, Bytes, arith}
use nostdb_core.Base.Results.{map_err}
use nostdb_core.Model.Texts.{text}
use nostdb_core.Model.Numbers.{finite_f64, score}
use nostdb_core.Model.DateTime.{date_time}
use nostdb_core.Model.Evidence.{source_range, content_digest}
use nostdb_core.Encoding.Errors.{
  What, unknown_tag, invalid_locator, invalid_text, invalid_number, invalid_date_time,
  invalid_score, invalid_digest, invalid_range,
}
use nostdb_core.Encoding.Reader.{Table}
use nostdb_core.Encoding.Read.{
  optional_text, read_text, read_locator, read_optional_text, read_digest, read_date_time,
  read_finite, read_bytes, scalar_of_tag, read_scalar, read_position, read_some_range, range_of,
  read_range, read_range_between, method_of, read_method, read_score, confidence_of,
  read_confidence, read_evidence, owner_of_tag, decode_owner, read_contribution, read_contributions,
  reference_of_tag, read_reference,
}
use nostdb_core.Encoding.Reader.{id16}
use nostdb_core.Encoding.Codes.{IsText}
use nostdb_core.Encoding.Valid.{
  All, IfPresent, IsTrimmed, IsDigest, IsScore, IsId, IsScalar, IsPosition, IsRange, IsConfidence,
  IsEvidence, IsContribution, AreContributions, IsReference,
}
use nostdb_core.Encoding.Yields.{
  Yields, Yields-then, Yields-return, Yields-weaken, Yields-fail, Yields-lift, Yields-if,
  Yields-take, Yields-u32, Yields-u64, Yields-u8, Yields-count, Yields-repeat,
}
use nostdb_core.Encoding.Checked.{
  map_err_inv, Yields-check, text-same, content_digest-same, date_time-same, finite_f64-again,
  score-again, source_range-again, Yields-string, Yields-optional,
}

Yields-IsPosition : Yields IsPosition read_position
unfolding read_position
Yields-IsPosition = Yields-then Yields-u32 (λ line hl.
    Yields-then Yields-u32
      (λ column hc. Yields-then Yields-u64 (λ offset ho. Yields-return _ (hl, hc, ho))))

Yields-IsRange : Yields (IfPresent IsRange) read_range
unfolding read_range range_of read_some_range read_range_between
Yields-IsRange = Yields-then Yields-u8 (λ flag _. Yields-if (flag == 0) (Yields-return none tt) (
    Yields-then Yields-IsPosition (λ start hs. Yields-then Yields-IsPosition (λ end he.
      Yields-then
        (Yields-lift (map_err invalid_range (source_range start end)) (λ range e.
          source_range-again start end range hs he
            (map_err_inv invalid_range (source_range start end) e)))
        (λ range h. Yields-return (some range) h)))))

Yields-method : Yields (λ _. Unit) read_method
unfolding read_method method_of
Yields-method = Yields-then Yields-u8 (λ tag _. Yields-if (tag == 1) (Yields-return _ tt) (
    Yields-if (tag == 2) (Yields-return _ tt) (
      Yields-if (tag == 3) (Yields-return _ tt)
        (Yields-fail (unknown_tag What.evidence_method tag)))))

Yields-IsScore : Yields IsScore read_score
unfolding read_score
Yields-IsScore = Yields-then Yields-u32 (λ bits small.
    Yields-lift (map_err invalid_score (score bits))
      (λ u e. score-again bits u small (map_err_inv invalid_score (score bits) e)))

Yields-IsConfidence : Yields IsConfidence read_confidence
unfolding read_confidence confidence_of
Yields-IsConfidence = Yields-then Yields-u8 (λ tag _. Yields-if (tag == 1) (Yields-return _ tt) (
    Yields-if (tag == 2) (Yields-then Yields-IsScore (λ bits h. Yields-return _ h)) (
      Yields-if (tag == 3) (Yields-then Yields-IsScore (λ bits h. Yields-return _ h))
        (Yields-fail (unknown_tag What.confidence tag)))))

Yields-if_present :
    (value : Option Bytes)
    → IfPresent IsText value
    → Yields (IfPresent IsTrimmed) (optional_text value)
unfolding optional_text
Yields-if_present none h = Yields-return none tt
Yields-if_present (some value) h =
    Yields-then (Yields-check text text-same invalid_text value h) (λ v k. Yields-return (some v) k)

module _ (t : Table) (valid : All IsText t) where
  pub Yields-text : Yields IsTrimmed (read_text t)
  unfolding read_text
  Yields-text =
      Yields-then (Yields-string t valid) (λ v h. Yields-check text text-same invalid_text v h)

  pub Yields-locator : Yields IsTrimmed (read_locator t)
  unfolding read_locator
  Yields-locator =
      Yields-then (Yields-string t valid) (λ v h. Yields-check text text-same invalid_locator v h)

  Yields-digest : Yields IsDigest (read_digest t)
  unfolding read_digest
  Yields-digest =
      Yields-then (Yields-string t valid)
        (λ v h. Yields-check content_digest content_digest-same invalid_digest v h)

  Yields-optional_text : Yields (IfPresent IsTrimmed) (read_optional_text t)
  unfolding read_optional_text
  Yields-optional_text = Yields-then (Yields-optional t valid) Yields-if_present

  pub Yields-IsScalar : Yields IsScalar (read_scalar t)
  unfolding read_scalar scalar_of_tag read_finite read_bytes read_date_time
  Yields-IsScalar = Yields-then Yields-u8 (λ tag _.
      Yields-if (tag == 1) (Yields-then Yields-u8 (λ byte _. Yields-return _ tt)) (
        Yields-if (tag == 2) (Yields-then Yields-u64 (λ bits h. Yields-return _ h)) (
          Yields-if (tag == 3)
            (Yields-then
              (Yields-then Yields-u64 (λ bits small.
                Yields-lift (map_err invalid_number (finite_f64 bits)) (λ u e.
                  finite_f64-again bits u small (map_err_inv invalid_number (finite_f64 bits) e))))
              (λ bits h. Yields-return _ h))
            (Yields-if (tag == 4) (Yields-then (Yields-string t valid) (λ v h. Yields-return _ h)) (
              Yields-if (tag == 5)
                (Yields-then
                  (Yields-then Yields-u32
                    (λ n small. Yields-weaken (Yields-take n) (λ v e. omega (arith, e, small))))
                  (λ v h. Yields-return _ h))
                (Yields-if (tag == 6)
                  (Yields-then
                    (Yields-then (Yields-string t valid)
                      (λ v h. Yields-check date_time date_time-same invalid_date_time v h))
                    (λ v h. Yields-return _ h))
                  (Yields-fail (unknown_tag What.property_scalar tag))))))))

  Yields-IsEvidence : Yields IsEvidence (read_evidence t)
  unfolding read_evidence
  Yields-IsEvidence = Yields-then Yields-locator (λ source hs.
      Yields-then Yields-optional_text (λ revision hr. Yields-then Yields-optional_text (λ path hp.
        Yields-then Yields-digest (λ digest hd. Yields-then Yields-IsRange (λ range hrange.
          Yields-then Yields-text (λ producer hproducer.
            Yields-then Yields-text (λ version hversion. Yields-then Yields-method (λ method _.
              Yields-then Yields-IsConfidence (λ confidence hc. Yields-return _ (record {
                source = hs;
                resolved_revision = hr;
                path = hp;
                content_digest = hd;
                range = hrange;
                producer = hproducer;
                producer_version = hversion;
                confidence = hc;
              }))))))))))

  Yields-owner : Yields IsTrimmed (decode_owner t)
  unfolding decode_owner owner_of_tag
  Yields-owner =
      Yields-then Yields-u8
        (λ tag _. Yields-if (tag == 4) Yields-text (Yields-fail (unknown_tag What.owner tag)))

  pub Yields-IsId : Yields IsId id16
  unfolding id16
  Yields-IsId = Yields-take 16

  Yields-IsContribution : Yields IsContribution (read_contribution t)
  unfolding read_contribution
  Yields-IsContribution = Yields-then Yields-owner (λ owner ho. Yields-then Yields-IsId (λ unit hu.
      Yields-then (Yields-count 23) (λ n small.
        Yields-then (Yields-repeat n Yields-IsEvidence) (λ evidence (e, hs).
          Yields-return _ (record {
            owner = ho;
            source_unit = hu;
            evidence = hs;
            count = omega (arith, e, small);
          })))))

  pub Yields-contributions : Yields AreContributions (read_contributions t)
  unfolding read_contributions
  Yields-contributions = Yields-then (Yields-count 20) (λ n small.
      Yields-weaken (Yields-repeat n Yields-IsContribution)
        (λ cs (e, hs). (omega (arith, e, small), hs)))

  pub Yields-IsReference : Yields IsReference (read_reference t)
  unfolding read_reference reference_of_tag
  Yields-IsReference = Yields-then Yields-u8 (λ tag _.
      Yields-if (tag == 1) (Yields-then Yields-IsId (λ id h. Yields-return _ h)) (
        Yields-if (tag == 2)
          (Yields-then Yields-locator
            (λ source hs. Yields-then Yields-IsId (λ id h. Yields-return _ (hs, h))))
          (Yields-fail (unknown_tag What.node_reference tag))))
