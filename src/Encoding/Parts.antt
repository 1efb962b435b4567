-- ===== src/Encoding/Parts.antt =====
-- The writers and readers of the parts of a record fit.
use nostdb_core.Base.{
  ℕ, ◌*◌, ◌<◌, ◌≡◌, refl, ap, true, false, List, [], ◌∷◌, Option, none, some, Bytes, length, arith,
}
use native.Mathlib.Nat.{suc-mul}
use nostdb_core.Base.Results.{Result, ok, map_err}
use nostdb_core.Base.Words.{u32_mod, u64_mod, le_bytes}
use nostdb_core.Model.Texts.{text}
use nostdb_core.Model.Numbers.{finite_f64}
use nostdb_core.Model.DateTime.{date_time}
use nostdb_core.Model.Values.{PropertyScalar}
use nostdb_core.Model.Evidence.{
  SourcePosition, SourceRange, source_range, EvidenceMethod, deterministic, ai_inferred,
  user_declared, Confidence, extracted, inferred, ambiguous, Evidence,
}
use nostdb_core.Model.Records.{Contribution, NodeReference, local, external}
use nostdb_core.Encoding.Errors.{
  DecodeError, invalid_locator, invalid_text, invalid_number, invalid_date_time, invalid_score,
  invalid_digest, invalid_range,
}
use nostdb_core.Encoding.Strings.{
  Put, ◌>>◌, put, put_u32, put_u64, put_string, put_optional, put_all,
}
use nostdb_core.Encoding.Reader.{Reader, Table, ◌>>=◌, return, lift, take_bytes, id16, repeat}
use nostdb_core.Encoding.Write.{
  put_bool, put_scalar, put_position, put_range, put_method, put_confidence, put_evidence,
  put_owner, put_contribution, put_contributions, put_reference,
}
use nostdb_core.Encoding.Read.{
  optional_text, read_text, read_locator, read_optional_text, read_digest, read_date_time,
  read_finite, read_bytes, scalar_of_tag, read_scalar, read_position, read_some_range, range_of,
  read_range, read_range_between, method_of, read_method, read_score, confidence_of,
  read_confidence, read_evidence, owner_of_tag, decode_owner, read_contribution, read_contributions,
  reference_of_tag, read_reference,
}
use nostdb_core.Encoding.Codes.{
  IsText, Codes, bind_ok, Codes-pass, Codes-then, Codes-map, Codes-lift, Codes-weaken, Codes-put,
}
use nostdb_core.Encoding.Leaves.{Codes-u8, Codes-u32, Codes-u64, Codes-f32, Codes-take, Codes-count}
use nostdb_core.Encoding.Interned.{Codes-string, Codes-none, Codes-some}
use nostdb_core.Encoding.Valid.{
  All, IfPresent, IsTrimmed, IsDigest, IsScore, IsId, IsScalar, IsPosition, IsRange, IsConfidence,
  IsEvidence, IsContribution, AreContributions, IsReference,
}

-- A list, one record after another.
pub Codes-each :
    {A : Type 0} {P : A → Type 0} (m : ℕ) (put_one : A → Put) (r : Table → Reader A)
    → ((x : A) → P x → Codes m (put_one x) r x)
    → (xs : List A) → All P xs
    → Codes (length xs * m) (put_all put_one xs) (λ t. repeat (length xs) (r t)) xs
unfolding put_all repeat return
Codes-each m put_one r one [] h = Codes-weaken (Codes-put [] (λ t rest. refl)) (omega arith)
Codes-each m put_one r one (x ∷ xs) (hx, hxs) =
    Codes-weaken
      (Codes-then (λ t x'. repeat (length xs) (r t) >>= (λ xs'. return (x' ∷ xs'))) (one x hx)
        (Codes-map (λ xs'. x ∷ xs') (Codes-each m put_one r one xs hxs)))
      (omega (arith, suc-mul (length xs) m))

pub Codes-text :
    (value : Bytes) → IsTrimmed value → Codes 4 (put_string value) (λ t. read_text t) value
unfolding read_text
Codes-text value (h, e) = Codes-lift _ (Codes-string value h) (ap (map_err invalid_text) e)

pub Codes-locator :
    (value : Bytes) → IsTrimmed value → Codes 4 (put_string value) (λ t. read_locator t) value
unfolding read_locator
Codes-locator value (h, e) = Codes-lift _ (Codes-string value h) (ap (map_err invalid_locator) e)

pub Codes-digest :
    (value : Bytes) → IsDigest value → Codes 4 (put_string value) (λ t. read_digest t) value
unfolding read_digest
Codes-digest value (h, e) = Codes-lift _ (Codes-string value h) (ap (map_err invalid_digest) e)

Codes-date_time :
    (value : Bytes)
    → IsText value × (date_time value ≡ ok value)
    → Codes 4 (put_string value) (λ t. read_date_time t) value
unfolding read_date_time
Codes-date_time value (h, e) =
    Codes-lift _ (Codes-string value h) (ap (map_err invalid_date_time) e)

-- A constructor that accepts.
pub lifted :
    {E A : Type 0} {o : Result E A} {v : A} (f : E → DecodeError) (rest : Bytes)
    → o ≡ ok v
    → lift (map_err f o) rest ≡ ok (v, rest)
unfolding lift
lifted f rest e = rw e refl

pub Codes-optional_text :
    (value : Option Bytes)
    → IfPresent IsTrimmed value
    → Codes 4 (put_optional value) (λ t. read_optional_text t) value
unfolding read_optional_text optional_text return
Codes-optional_text none h = Codes-pass (λ t. optional_text) Codes-none (λ t rest. refl)
Codes-optional_text (some value) (h, e) =
    Codes-pass (λ t. optional_text) (Codes-some value h)
      (λ t rest.
        bind_ok (lift (map_err invalid_text (text value))) (λ x. return (some x)) rest
          (lifted invalid_text rest e))

Codes-score : (bits : ℕ) → IsScore bits → Codes 4 (put (le_bytes 4 bits)) (λ t. read_score) bits
unfolding read_score
Codes-score bits (h, e) = Codes-lift _ (Codes-f32 bits h) (ap (map_err invalid_score) e)

Codes-finite :
    (bits : ℕ)
    → (bits < u64_mod) × (finite_f64 bits ≡ ok bits)
    → Codes 8 (put_u64 bits) (λ t. read_finite t) bits
unfolding read_finite
Codes-finite bits (h, e) = Codes-lift _ (Codes-u64 bits h) (ap (map_err invalid_number) e)

Codes-bytes :
    (value : Bytes)
    → length value < u32_mod
    → Codes 4 (put_u32 (length value) >> put value) (λ t. read_bytes t) value
unfolding read_bytes
Codes-bytes value h =
    Codes-weaken
      (Codes-then (λ t n. take_bytes n) (Codes-u32 (length value) h)
        (Codes-take (length value) value refl))
      (omega arith)

-- Each scalar takes two bytes at least.
pub Codes-scalar :
    (scalar : PropertyScalar)
    → IsScalar scalar
    → Codes 2 (put_scalar scalar) (λ t. read_scalar t) scalar
unfolding put_scalar put_bool read_scalar scalar_of_tag
Codes-scalar (PropertyScalar.boolean true) h =
    Codes-then (λ t tag. scalar_of_tag t tag) (Codes-u8 1) (Codes-map _ (Codes-u8 1))
Codes-scalar (PropertyScalar.boolean false) h =
    Codes-then (λ t tag. scalar_of_tag t tag) (Codes-u8 1) (Codes-map _ (Codes-u8 0))
Codes-scalar (PropertyScalar.integer bits) h =
    Codes-weaken
      (Codes-then (λ t tag. scalar_of_tag t tag) (Codes-u8 2) (Codes-map _ (Codes-u64 bits h)))
      (omega arith)
Codes-scalar (PropertyScalar.float bits) h =
    Codes-weaken
      (Codes-then (λ t tag. scalar_of_tag t tag) (Codes-u8 3) (Codes-map _ (Codes-finite bits h)))
      (omega arith)
Codes-scalar (PropertyScalar.string value) h =
    Codes-weaken
      (Codes-then (λ t tag. scalar_of_tag t tag) (Codes-u8 4) (Codes-map _ (Codes-string value h)))
      (omega arith)
Codes-scalar (PropertyScalar.bytes value) h =
    Codes-weaken
      (Codes-then (λ t tag. scalar_of_tag t tag) (Codes-u8 5) (Codes-map _ (Codes-bytes value h)))
      (omega arith)
Codes-scalar (PropertyScalar.datetime value) h =
    Codes-weaken
      (Codes-then (λ t tag. scalar_of_tag t tag) (Codes-u8 6)
        (Codes-map _ (Codes-date_time value h)))
      (omega arith)

Codes-position :
    (position : SourcePosition)
    → IsPosition position
    → Codes 16 (put_position position) (λ t. read_position) position
unfolding put_position read_position
Codes-position position (hl, hc, ho) =
    Codes-then _ (Codes-u32 position.line hl)
      (Codes-then _ (Codes-u32 position.column hc) (Codes-map _ (Codes-u64 position.offset ho)))

Codes-range :
    (range : Option SourceRange)
    → IfPresent IsRange range
    → Codes 1 (put_range range) (λ t. read_range) range
unfolding put_range read_range range_of read_some_range read_range_between return
Codes-range none h = Codes-pass (λ t. range_of) (Codes-u8 0) (λ t rest. refl)
Codes-range (some range) (hs, he, e) =
    Codes-weaken
      (Codes-then (λ t flag. range_of flag) (Codes-u8 1)
        (Codes-then _ (Codes-position range.start hs) (
          Codes-pass _ (Codes-position range.end he) (λ t rest.
            bind_ok (lift (map_err invalid_range (source_range range.start range.end)))
              (λ x. return (some x)) rest (lifted invalid_range rest e)))))
      (omega arith)

Codes-method : (method : EvidenceMethod) → Codes 1 (put_method method) (λ t. read_method) method
unfolding put_method read_method method_of return
Codes-method deterministic = Codes-pass (λ t. method_of) (Codes-u8 1) (λ t rest. refl)
Codes-method ai_inferred = Codes-pass (λ t. method_of) (Codes-u8 2) (λ t rest. refl)
Codes-method user_declared = Codes-pass (λ t. method_of) (Codes-u8 3) (λ t rest. refl)

Codes-confidence :
    (confidence : Confidence)
    → IsConfidence confidence
    → Codes 1 (put_confidence confidence) (λ t. read_confidence) confidence
unfolding put_confidence read_confidence confidence_of return
Codes-confidence extracted h = Codes-pass (λ t. confidence_of) (Codes-u8 1) (λ t rest. refl)
Codes-confidence (inferred bits) h =
    Codes-weaken
      (Codes-then (λ t tag. confidence_of tag) (Codes-u8 2) (Codes-map _ (Codes-score bits h)))
      (omega arith)
Codes-confidence (ambiguous bits) h =
    Codes-weaken
      (Codes-then (λ t tag. confidence_of tag) (Codes-u8 3) (Codes-map _ (Codes-score bits h)))
      (omega arith)

pub Codes-evidence :
    (e : Evidence) → IsEvidence e → Codes 27 (put_evidence e) (λ t. read_evidence t) e
unfolding put_evidence read_evidence
Codes-evidence e h = Codes-then _ (Codes-locator e.source h.source) (
    Codes-then _ (Codes-optional_text e.resolved_revision h.resolved_revision) (
      Codes-then _ (Codes-optional_text e.path h.path) (
        Codes-then _ (Codes-digest e.content_digest h.content_digest) (
          Codes-then _ (Codes-range e.range h.range) (
            Codes-then _ (Codes-text e.producer h.producer) (
              Codes-then _ (Codes-text e.producer_version h.producer_version) (
                Codes-then _ (Codes-method e.method)
                  (Codes-map _ (Codes-confidence e.confidence h.confidence)))))))))

Codes-owner :
    (owner : Bytes) → IsTrimmed owner → Codes 5 (put_owner owner) (λ t. decode_owner t) owner
unfolding put_owner decode_owner owner_of_tag
Codes-owner owner h = Codes-then (λ t tag. owner_of_tag t tag) (Codes-u8 4) (Codes-text owner h)

pub Codes-id : (id : Bytes) → IsId id → Codes 16 (put id) (λ t. id16) id
unfolding id16
Codes-id id h = Codes-take 16 id h

pub Codes-contribution :
    (c : Contribution)
    → IsContribution c
    → Codes 25 (put_contribution c) (λ t. read_contribution t) c
unfolding put_contribution read_contribution
Codes-contribution c h =
    Codes-weaken
      (Codes-then _ (Codes-owner c.owner h.owner) (
        Codes-then _ (Codes-id c.source_unit h.source_unit) (
          Codes-count 23 (length c.evidence) _ h.count (omega arith) (
            Codes-map _ (
              Codes-each 27 put_evidence (λ t. read_evidence t) Codes-evidence c.evidence
                h.evidence)))))
      (omega arith)

pub Codes-contributions :
    (cs : List Contribution)
    → AreContributions cs
    → Codes 4 (put_contributions cs) (λ t. read_contributions t) cs
unfolding put_contributions read_contributions
Codes-contributions cs (h, hs) =
    Codes-weaken
      (Codes-count 20 (length cs) _ h (omega arith)
        (Codes-each 25 put_contribution (λ t. read_contribution t) Codes-contribution cs hs))
      (omega arith)

pub Codes-reference :
    (reference : NodeReference)
    → IsReference reference
    → Codes 17 (put_reference reference) (λ t. read_reference t) reference
unfolding put_reference read_reference reference_of_tag
Codes-reference (local id) h =
    Codes-then (λ t tag. reference_of_tag t tag) (Codes-u8 1) (Codes-map _ (Codes-id id h))
Codes-reference (external scoped) (hs, hl) =
    Codes-weaken
      (Codes-then (λ t tag. reference_of_tag t tag) (Codes-u8 2)
        (Codes-then _ (Codes-locator scoped.source hs) (Codes-map _ (Codes-id scoped.local hl))))
      (omega arith)
