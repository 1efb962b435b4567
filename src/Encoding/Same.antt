-- ===== src/Encoding/Same.antt =====
-- Two readers that accept the same bytes, and take the same from them.
use nostdb_core.Base.{
  ℕ, zero, suc, ◌*◌, ◌≡◌, refl, ap, ◌∙◌, Bool, true, false, if◌then◌else◌, Bytes,
}
use nostdb_core.Base.Results.{Result, ok, err}
use nostdb_core.Encoding.Errors.{DecodeError}
use nostdb_core.Encoding.Reader.{Reader, ◌>>=◌, read_u32, read_count, repeat}
use nostdb_core.Encoding.Takes.{Takes, accepted, counted-unchecked}

pub record Same {A : Type 0} (r r' : Reader A) : Type 0 where
  pub same : (bytes : Bytes) → accepted (r bytes) ≡ accepted (r' bytes)

pub Same-refl : {A : Type 0} {r : Reader A} → Same r r
Same-refl = record { same = λ bytes. refl }

module _ {A B : Type 0} where
  after_step :
      (o o' : Result DecodeError (A × Bytes)) (k k' : A → Reader B)
      → ((v : A) → Same (k v) (k' v))
      → accepted o ≡ accepted o'
      → accepted (elim o [ err e ↦ err e | ok (value, rest) ↦ k value rest ])
        ≡ accepted (elim o' [ err e ↦ err e | ok (value, rest) ↦ k' value rest ])
  unfolding accepted
  after_step (err e) (err e') k k' next same = refl
  after_step (err e) (ok v) k k' next same = absurd cc
  after_step (ok v) (err e) k k' next same = absurd cc
  after_step (ok (v, bytes)) (ok (u, bytes')) k k' next same =
      let value : v ≡ u = cc in
      let rest : bytes ≡ bytes' = cc in
      (next v).same bytes ∙ ap (λ x. accepted (k' x bytes)) value ∙ ap (λ b. accepted (k' u b)) rest

  pub Same-then :
      {r r' : Reader A} {k k' : A → Reader B}
      → Same r r'
      → ((v : A) → Same (k v) (k' v))
      → Same (r >>= k) (r' >>= k')
  unfolding ◌>>=◌
  Same-then {r} {r'} {k} {k'} first next = record {
    same = λ bytes. after_step (r bytes) (r' bytes) k k' next (first.same bytes);
  }

module _ {A : Type 0} where
  pub Same-if :
      (b : Bool) {r r' s s' : Reader A}
      → Same r r'
      → Same s s'
      → Same (if b then r else s) (if b then r' else s')
  Same-if true h k = h
  Same-if false h k = k

  pub Same-repeat : {r r' : Reader A} → Same r r' → (n : ℕ) → Same (repeat n r) (repeat n r')
  unfolding repeat
  Same-repeat one zero = Same-refl
  Same-repeat one (suc n) = Same-then one (λ x. Same-then (Same-repeat one n) (λ xs. Same-refl))

  -- The loops behind a count, with and without its check.
  pub Same-count :
      (least : ℕ) {loop loop' : ℕ → Reader A}
      → ((count : ℕ) → Takes (count * suc least) (loop count))
      → ((count : ℕ) → Same (loop count) (loop' count))
      → Same (read_count (suc least) >>= loop) (read_u32 >>= loop')
  Same-count least {loop} {loop'} records each = record {
    same = λ bytes.
        counted-unchecked least loop records bytes
        ∙ (Same-then (Same-refl {r = read_u32}) each).same bytes;
  }
