-- ===== src/Storage/Paths.antt =====
-- A database's path and those of its staged file and its journal are three different paths.
use nostdb_core.Base.{
  ◌+◌, ◌≡◌, false, length, length-append, same_bytes, same_bytes_refl, same_bytes_lengths, arith,
}
use nostdb_core.Files.{FilePath}
use nostdb_core.Storage.Defs.{sibling, staged_suffix, journal_suffix}

abbrev pub staged_of : FilePath → FilePath
staged_of path = sibling path staged_suffix

abbrev pub journal_of : FilePath → FilePath
journal_of path = sibling path journal_suffix

module _ (path : FilePath) where
  length-staged : length (staged_of path) ≡ length path + 7
  unfolding sibling
  length-staged = length-append path staged_suffix

  length-journal : length (journal_of path) ≡ length path + 8
  unfolding sibling
  length-journal = length-append path journal_suffix

  pub staged-ne-journal : same_bytes (staged_of path) (journal_of path) ≡ false
  staged-ne-journal =
      same_bytes_lengths _ _ (λ e. absurd (omega (arith, e, length-staged, length-journal)))

  pub journal-ne-staged : same_bytes (journal_of path) (staged_of path) ≡ false
  journal-ne-staged =
      same_bytes_lengths _ _ (λ e. absurd (omega (arith, e, length-staged, length-journal)))

  pub path-ne-staged : same_bytes path (staged_of path) ≡ false
  path-ne-staged = same_bytes_lengths _ _ (λ e. absurd (omega (arith, e, length-staged)))

  pub path-ne-journal : same_bytes path (journal_of path) ≡ false
  path-ne-journal = same_bytes_lengths _ _ (λ e. absurd (omega (arith, e, length-journal)))

  pub staged-ne-path : same_bytes (staged_of path) path ≡ false
  staged-ne-path = same_bytes_lengths _ _ (λ e. absurd (omega (arith, e, length-staged)))

  pub journal-ne-path : same_bytes (journal_of path) path ≡ false
  journal-ne-path = same_bytes_lengths _ _ (λ e. absurd (omega (arith, e, length-journal)))

pub ruleset path_laws = (
  staged-ne-journal, journal-ne-staged, path-ne-staged, path-ne-journal, staged-ne-path,
  journal-ne-path, same_bytes_refl,
)
