-- ===== src/Tests/Ids.antt =====
-- The identifier of a node, from its text.
use nostdb_core.Base.{◌≡◌, refl, [], ◌∷◌, Bytes, arith}
use nostdb_core.Ids.{node_prefix, ok, decode, char_count, to_string, from_str, wrong_length, err}
use nostdb_core.Ids.RoundTrip.{from_str-to_string}

abbrev sample : Bytes
sample =
    0x01 ∷ 0x8F ∷ 0x2A ∷ 0x3B ∷ 0x4C ∷ 0x5D ∷ 0x6E ∷ 0x7F ∷ 0x80 ∷ 0x91 ∷ 0xA2 ∷ 0xB3 ∷ 0xC4 ∷ 0xD5
    ∷ 0xE6 ∷ 0xF7 ∷ []

from_str-to_string_example : from_str node_prefix (to_string node_prefix sample) ≡ ok sample
from_str-to_string_example =
    from_str-to_string node_prefix sample
      (
        omega arith,
        (
          omega arith,
          (
            omega arith,
            (
              omega arith,
              (
                omega arith,
                (
                  omega arith,
                  (
                    omega arith,
                    (
                      omega arith,
                      (
                        omega arith,
                        (
                          omega arith,
                          (
                            omega arith,
                            (
                              omega arith,
                              (omega arith, (omega arith, (omega arith, (omega arith, tt)))),
                            ),
                          ),
                        ),
                      ),
                    ),
                  ),
                ),
              ),
            ),
          ),
        ),
      )
      refl

-- A body that is too short.
short_body : decode (b'a' ∷ b'b' ∷ []) ≡ err (wrong_length 36 2)
unfolding decode char_count
short_body = refl
