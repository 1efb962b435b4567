-- ===== src/Ignore/Verdicts.antt =====
-- The deepest file, and the last rule in it, that match a path decide about it.
use nostdb_core.Base.{
  ◌≡◌, refl, sym, ap, ◌∙◌, Bool, true, false, not, List, [], ◌∷◌, Option, none, some, inl, inr,
  Bool-cases, Option-cases, if◌then◌else◌, ◌++◌, ◌⊎◌,
}
use nostdb_core.Ignore.Glob.{Chars}
use nostdb_core.Ignore.Rules.{Rule, matches}
use nostdb_core.Ignore.Stack.{
  IgnoreFile, IgnoreStack, find_last, below, decide, deciding, excludes, push, no_rules,
}

-- The verdict after the rules of a file, and after files, one rule after another from the verdict
-- before them: a rule that matches replaces it.
unfoldable pub after_rules : List Rule → Chars → Bool → Bool → Bool
after_rules [] path is_dir verdict = verdict
after_rules (rule ∷ rules) path is_dir verdict =
    after_rules rules path is_dir (if matches rule path is_dir then not rule.negated else verdict)

unfoldable pub after_files : List IgnoreFile → Chars → Bool → Bool → Bool
after_files [] relative is_dir verdict = verdict
after_files (file ∷ files) relative is_dir verdict =
    after_files files relative is_dir (elim (below file.base relative) [
      | none ↦ verdict
      | some path ↦ after_rules file.rules path is_dir verdict
    ])

abbrev decided : Option Rule → Bool → Bool
decided none verdict = verdict
decided (some rule) verdict = not rule.negated

module _ (path : Chars) (is_dir : Bool) where
  after_rules-find_last :
      (rules : List Rule) (verdict : Bool)
      → after_rules rules path is_dir verdict
        ≡ decided (find_last (λ rule. matches rule path is_dir) rules) verdict
  unfolding after_rules find_last
  after_rules-find_last [] verdict = refl
  after_rules-find_last (rule ∷ rules) verdict =
      after_rules-find_last rules (if matches rule path is_dir then not rule.negated else verdict)
      ∙ earlier (find_last (λ rule. matches rule path is_dir) rules) (matches rule path is_dir)
    where
      earlier :
          (later : Option Rule) (m : Bool)
          → decided later (if m then not rule.negated else verdict)
            ≡ decided
                (elim later [ some r ↦ some r | none ↦ if m then some rule else none ])
                verdict
      earlier (some r) m = refl
      earlier none true = refl
      earlier none false = refl

after_file-decide :
    (file : IgnoreFile) (relative : Chars) (is_dir verdict : Bool)
    → (elim (below file.base relative) [
      | none ↦ verdict
      | some path ↦ after_rules file.rules path is_dir verdict
    ])
      ≡ decided (decide file relative is_dir) verdict
unfolding decide
after_file-decide file relative is_dir verdict = elim (Option-cases (below file.base relative)) [
  | inl outside ↦ rw (outside, decide) refl
  | inr (path, inside) ↦ rw (inside, decide) (after_rules-find_last path is_dir file.rules verdict)
]

decided_first :
    (later earlier : Option Rule) (verdict : Bool)
    → decided later (decided earlier verdict)
      ≡ decided (elim later [ some rule ↦ some rule | none ↦ earlier ]) verdict
decided_first none earlier verdict = refl
decided_first (some rule) earlier verdict = refl

after_files-deciding :
    (files : List IgnoreFile) (relative : Chars) (is_dir verdict : Bool)
    → after_files files relative is_dir verdict ≡ decided (deciding files relative is_dir) verdict
unfolding after_files deciding
after_files-deciding [] relative is_dir verdict = refl
after_files-deciding (file ∷ files) relative is_dir verdict =
    after_files-deciding files relative is_dir _
    ∙ ap (decided (deciding files relative is_dir)) (after_file-decide file relative is_dir verdict)
    ∙ decided_first (deciding files relative is_dir) (decide file relative is_dir) verdict

-- Whether a path is excluded is what remains when all the rules of all the files in effect, from the
-- scan root downwards and in file order, are applied to the path below their file's directory: it
-- starts as not excluded, and each rule that matches replaces it.
pub excludes-after_files :
    (stack : IgnoreStack) (relative : Chars) (is_dir : Bool)
    → excludes stack relative is_dir ≡ after_files stack.files relative is_dir false
unfolding excludes
excludes-after_files stack relative is_dir =
    settled (deciding stack.files relative is_dir)
    ∙ sym (after_files-deciding stack.files relative is_dir false)
  where
    settled :
        (o : Option Rule)
        → (elim o [ none ↦ false | some rule ↦ not rule.negated ]) ≡ decided o false
    settled none = refl
    settled (some rule) = refl

after_files-append :
    (files later : List IgnoreFile) (relative : Chars) (is_dir verdict : Bool)
    → after_files (files ++ later) relative is_dir verdict
      ≡ after_files later relative is_dir (after_files files relative is_dir verdict)
unfolding after_files
after_files-append [] later relative is_dir verdict = refl
after_files-append (file ∷ files) later relative is_dir verdict =
    after_files-append files later relative is_dir _

-- A file with no rules leaves every verdict as it is.
after_files-no_rules :
    (file : IgnoreFile) (relative : Chars) (is_dir verdict : Bool)
    → no_rules file.rules ≡ true
    → after_files (file ∷ []) relative is_dir verdict ≡ verdict
unfolding after_files after_rules
after_files-no_rules file relative is_dir verdict empty =
    elim (Option-cases (below file.base relative)) [
      | inl outside ↦ rw (outside, after_files) refl
      | inr (path, inside) ↦ rw (inside, after_files) (no_rule file.rules path empty)
    ]
  where
    no_rule :
        (rules : List Rule) (path : Chars)
        → no_rules rules ≡ true
        → after_rules rules path is_dir verdict ≡ verdict
    no_rule [] path h = refl
    no_rule (rule ∷ rules) path h = absurd cc

-- When a file is pushed, the verdict on a path that is not below the file's directory stays as it was,
-- and on one that is below it the file's rules, in file order, are applied to the verdict that the
-- files before gave: it stays where no rule of the file matches.
pub excludes-push :
    (stack : IgnoreStack) (file : IgnoreFile) (relative : Chars) (is_dir : Bool)
    → excludes (push stack file) relative is_dir ≡ (elim (below file.base relative) [
      | none ↦ excludes stack relative is_dir
      | some path ↦ after_rules file.rules path is_dir (excludes stack relative is_dir)
    ])
unfolding push after_files
excludes-push stack file relative is_dir =
    excludes-after_files (push stack file) relative is_dir
    ∙ pushed (Bool-cases (no_rules file.rules))
    ∙ sym
        (ap (after_files (file ∷ []) relative is_dir) (excludes-after_files stack relative is_dir))
  where
    pushed :
        (no_rules file.rules ≡ true) ⊎ (no_rules file.rules ≡ false)
        → after_files (push stack file).files relative is_dir false
          ≡ after_files (file ∷ []) relative is_dir (after_files stack.files relative is_dir false)
    pushed (inl empty) = rw (empty, push) (sym (after_files-no_rules file relative is_dir _ empty))
    pushed (inr some_rule) =
        rw (some_rule, push) (after_files-append stack.files (file ∷ []) relative is_dir false)
