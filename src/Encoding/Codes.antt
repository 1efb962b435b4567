-- ===== src/Encoding/Codes.antt =====
-- A writer and a reader that fit: at least `m` bytes are written, which the reader reads as `v`
-- whatever follows them, over every table that extends the one behind the writer.
use nostdb_core.Base.{
  ℕ, ◌+◌, ◌≤◌, ◌<◌, ◌≡◌, refl, ap, sym, ◌∙◌, List, [], ◌∷◌, ◌++◌, append_assoc, append-nil, some,
  Bytes, length, length-append, arith,
}
use nostdb_core.Base.Results.{Result, ok}
use nostdb_core.Base.Words.{u32_mod}
use nostdb_core.Base.Utf8.{IsUtf8}
use nostdb_core.Encoding.Errors.{DecodeError}
use nostdb_core.Encoding.Strings.{no_string, Strings, lookup, Put, ◌>>◌, put}
use nostdb_core.Encoding.Reader.{Reader, Table, ◌>>=◌, return, lift, get_elem?}

-- A text that the table can hold.
abbrev pub IsText : Bytes → Type 0
IsText value = IsUtf8 value × (length value < u32_mod)

abbrev pub AllTexts : List Bytes → Type 0
AllTexts [] = Unit
AllTexts (value ∷ rest) = IsText value × AllTexts rest

abbrev pub StartsWith : List Bytes → List Bytes → Type 0
StartsWith front whole = (rest : List Bytes) × (front ++ rest ≡ whole)

-- What the index gives for a text is its place in the final table.
abbrev pub IsConsistent : Table → Strings → Type 0
IsConsistent t s =
    (value : Bytes) (place : ℕ)
    → lookup value s.index ≡ some place
    → (get_elem? t place ≡ some value) × (place < no_string)

pub record Codes {A : Type 0} (m : ℕ) (w : Put) (r : Table → Reader A) (v : A) : Type 0 where
  pub long : (s : Strings) → m ≤ length (w s).0
  pub texts : (s : Strings) → AllTexts s.entries → AllTexts (w s).1.entries
  pub grows : (s : Strings) → StartsWith s.entries (w s).1.entries
  pub reads :
      (t : Table) (s : Strings)
      → length t < no_string
      → StartsWith (w s).1.entries t
      → IsConsistent t s
      → IsConsistent t (w s).1 × ((rest : Bytes) → r t ((w s).0 ++ rest) ≡ ok (v, rest))

pub StartsWith-trans : (a b c : List Bytes) → StartsWith a b → StartsWith b c → StartsWith a c
StartsWith-trans a b c (x, e) (y, f) = (x ++ y, sym (append_assoc a x y) ∙ ap (λ z. z ++ y) e ∙ f)

-- What is behind a reader that succeeds.
pub bind_ok :
    {A B : Type 0} (r : Reader A) (k : A → Reader B) (bytes : Bytes) {v : A} {rest : Bytes}
    → r bytes ≡ ok (v, rest)
    → (r >>= k) bytes ≡ k v rest
unfolding ◌>>=◌
bind_ok r k bytes e = rw (e, ◌>>=◌) refl

module _ {A B : Type 0} {m n : ℕ} {w w' : Put} {r : Table → Reader A} {v : A} {u : B} where
  -- One after the other.
  pub Codes-then :
      (k : Table → A → Reader B)
      → Codes m w r v
      → Codes n w' (λ t. k t v) u
      → Codes (m + n) (w >> w') (λ t. r t >>= k t) u
  unfolding ◌>>◌
  Codes-then k a b = record {
    long = λ s. omega (arith, length-append (w s).0 (w' (w s).1).0, a.long s, b.long (w s).1);
    texts = λ s h. b.texts (w s).1 (a.texts s h);
    grows = λ s.
        StartsWith-trans s.entries (w s).1.entries (w' (w s).1).1.entries (a.grows s)
          (b.grows (w s).1);
    reads = λ t s small end c.
        let middle =
          StartsWith-trans (w s).1.entries (w' (w s).1).1.entries t (b.grows (w s).1) end in
        let (c1, read1) = a.reads t s small middle c in
        let (c2, read2) = b.reads t (w s).1 small end c1 in
        (
          c2,
          λ rest.
              rw (append_assoc (w s).0 (w' (w s).1).0 rest)
                (bind_ok (r t) (k t) _ (read1 ((w' (w s).1).0 ++ rest)) ∙ read2 rest),
        );
  }

module _ {A B : Type 0} {m : ℕ} {w : Put} {r : Table → Reader A} {v : A} where
  -- What is read is passed on without reading more.
  pub Codes-pass :
      (k : Table → A → Reader B) {u : B}
      → Codes m w r v
      → ((t : Table) (rest : Bytes) → k t v rest ≡ ok (u, rest))
      → Codes m w (λ t. r t >>= k t) u
  Codes-pass k a e = record {
    long = a.long;
    texts = a.texts;
    grows = a.grows;
    reads = λ t s small end c.
        let (c1, read1) = a.reads t s small end c in
        (c1, λ rest. bind_ok (r t) (k t) _ (read1 rest) ∙ e t rest);
  }

  pub Codes-map : (f : A → B) → Codes m w r v → Codes m w (λ t. r t >>= (λ x. return (f x))) (f v)
  unfolding return
  Codes-map f a = Codes-pass (λ t x. return (f x)) a (λ t rest. refl)

  pub Codes-lift :
      (f : A → Result DecodeError B) {u : B}
      → Codes m w r v
      → f v ≡ ok u
      → Codes m w (λ t. r t >>= (λ x. lift (f x))) u
  unfolding lift
  Codes-lift f a e = Codes-pass (λ t x. lift (f x)) a (λ t rest. rw e refl)

pub Codes-weaken :
    {A : Type 0} {m n : ℕ} {w : Put} {r : Table → Reader A} {v : A}
    → Codes m w r v
    → n ≤ m
    → Codes n w r v
Codes-weaken a h = record {
  long = λ s. omega (arith, a.long s, h);
  texts = a.texts;
  grows = a.grows;
  reads = a.reads;
}

-- Bytes that do not depend on the table.
pub Codes-put :
    {A : Type 0} {r : Table → Reader A} {v : A} (bytes : Bytes)
    → ((t : Table) (rest : Bytes) → r t (bytes ++ rest) ≡ ok (v, rest))
    → Codes (length bytes) (put bytes) r v
unfolding put
Codes-put bytes h = record {
  long = λ s. omega arith;
  texts = λ s h. h;
  grows = λ s. ([], append-nil s.entries);
  reads = λ t s small end c. (c, h t);
}
