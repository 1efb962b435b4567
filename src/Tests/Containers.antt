-- ===== src/Tests/Containers.antt =====
-- A container with two sections.
use nostdb_core.Base.{◌≡◌, refl, List, [], ◌∷◌, Bytes, arith}
use nostdb_core.Container.{
  Section, nodes, reserved, ok, raw, from_raw, contains, ContainerBuilder, build, parse,
  payload_bytes,
}
use nostdb_core.Container.RoundTrip.{IsBuildable, image, parse-image, parse-build}
use nostdb_core.Container.Sound.{Describes, parse-Describes}

abbrev pub two_sections : List Section
two_sections =
    record { kind = nodes; payload = 1 ∷ 2 ∷ 3 ∷ [] }
    ∷ record { kind = reserved 20; payload = [] }
    ∷ []

abbrev builder : ContainerBuilder
builder = record { generation = 5; sections = two_sections }

buildable : IsBuildable builder
unfolding raw from_raw contains payload_bytes
buildable = record {
  generation_fits = omega arith;
  few = omega arith;
  fresh = ((refl, omega arith), refl, ((refl, omega arith), refl, tt));
  fits = omega arith;
}

parse-build_example :
    (bytes : Bytes) × (build builder ≡ ok bytes)
    × (parse bytes ≡ ok (record { generation = 5; sections = two_sections }))
parse-build_example = parse-build builder buildable

parse-Describes_example :
    Describes (image builder) (record { generation = 5; sections = two_sections })
parse-Describes_example = parse-Describes (image builder) _ (parse-image builder buildable)
