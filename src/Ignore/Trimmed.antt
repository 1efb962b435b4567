-- ===== src/Ignore/Trimmed.antt =====
-- What the trimming of a line leaves of it, from its first character that is kept.
use nostdb_core.Base.{
  ℕ, ◌%◌, ◌≡◌, ◌≢◌, refl, ap, sym, ◌∙◌, false, [], ◌∷◌, ◌++◌, ◌==◌, append_assoc, Bool-cases, inl,
  inr, arith,
}
use nostdb_core.Ignore.Glob.{Chars}
use nostdb_core.Ignore.Rules.{reversed, backslashes, trim_end_from, trim_trailing_unescaped_spaces}

pub ne_test : (c k : ℕ) → c ≢ k → (c == k) ≡ false
ne_test c k h = ground arith

reversed-append : (done xs ys : Chars) → reversed done (xs ++ ys) ≡ reversed (reversed done xs) ys
reversed-append done [] ys = refl
reversed-append done (x ∷ xs) ys = reversed-append (x ∷ done) xs ys

pub reversed_onto : (done xs : Chars) → reversed done xs ≡ reversed [] xs ++ done
reversed_onto done [] = refl
reversed_onto done (x ∷ xs) =
    reversed_onto (x ∷ done) xs
    ∙ sym (append_assoc (reversed [] xs) (x ∷ []) done)
    ∙ ap (λ front. front ++ done) (sym (reversed_onto (x ∷ []) xs))

-- A line that is read from its end, in front of a character that is neither a space nor a backslash
-- and what stands behind that.
module _ (y : ℕ) (space : y ≢ b' ') (escape : y ≢ b'\\') where
  backslashes-kept : (xs zs : Chars) → backslashes (xs ++ y ∷ zs) ≡ backslashes (xs ++ y ∷ [])
  unfolding backslashes
  backslashes-kept [] zs = rw (ne_test y b'\\' escape) refl
  backslashes-kept (x ∷ xs) zs = rw (backslashes-kept xs zs) refl

  -- The same part is trimmed off, whatever stands behind.
  trim_end_from-kept :
      (xs : Chars) → (left : Chars) × ((zs : Chars) → trim_end_from (xs ++ y ∷ zs) ≡ left ++ y ∷ zs)
  unfolding trim_end_from
  trim_end_from-kept [] = ([], λ zs. rw (ne_test y b' ' space) refl)
  trim_end_from-kept (x ∷ xs) = elim (Bool-cases (x == b' ')) [
    | inl blank ↦ elim (Bool-cases (backslashes (xs ++ y ∷ []) % 2 == 1)) [
      | inl escaped ↦ (x ∷ xs, λ zs. rw (blank, backslashes-kept xs zs, escaped) refl)
      | inr plain ↦
          let (left, kept) = trim_end_from-kept xs in
          (left, λ zs. rw (blank, backslashes-kept xs zs, plain) (kept zs))
    ]
    | inr other ↦ (x ∷ xs, λ zs. rw other refl)
  ]

  -- The same part is trimmed off a line, whatever stands in front of that character.
  pub trim_trailing-kept :
      (body : Chars)
      → (rest : Chars) × ((line front : Chars)
          → reversed [] line ≡ reversed [] body ++ y ∷ front
          → trim_trailing_unescaped_spaces line ≡ reversed (y ∷ rest) front)
  unfolding trim_trailing_unescaped_spaces
  trim_trailing-kept body =
      let (left, kept) = trim_end_from-kept (reversed [] body) in
      (
        reversed [] left,
        λ line front split.
            rw split (ap (reversed []) (kept front) ∙ reversed-append [] left (y ∷ front)),
      )
