-- ===== src/Base/Utf8.antt =====
-- Well-formed UTF-8, as `String::from_utf8` of Rust's standard library tests it. A Rust `String`
-- is modelled by its bytes, and `IsUtf8` is what the type guarantees of them.
use Prim.Native.Nat.{ℕ, zero, suc, ◌+◌, ◌-◌, ◌*◌, ◌%◌}
use mathlib.Core.Path.{◌≡◌, refl}
use mathlib.Core.Bool.{Bool, true, false, ◌&&◌}
use mathlib.Core.List.{List, [], ◌∷◌}
use mathlib.Core.Option.{Option, none, some}
use nostdb_core.Base.Tests.{leb, ltb, ◌==◌, if◌then◌else◌}
use nostdb_core.Base.Lists.{Bytes}

-- What is still to come of a character: `more` continuation bytes, the next from `lo` to `hi`.
pub record Pending : Type 0 where
  pub more : ℕ
  pub lo : ℕ
  pub hi : ℕ

abbrev between : ℕ → ℕ → ℕ → Bool
between lo hi b = leb lo b && leb b hi

abbrev pending : ℕ → ℕ → ℕ → Option Pending
pending more lo hi = some (record { more = more; lo = lo; hi = hi })

abbrev pub boundary : Pending
boundary = record { more = 0; lo = 0x80; hi = 0xBF }

first_byte : ℕ → Option Pending
first_byte b =
    if leb b 0x7F
    then some boundary
    else if between 0xC2 0xDF b
    then pending 1 0x80 0xBF
    else if b == 0xE0
    then pending 2 0xA0 0xBF
    else if b == 0xED
    then pending 2 0x80 0x9F
    else if between 0xE1 0xEF b
    then pending 2 0x80 0xBF
    else if b == 0xF0
    then pending 3 0x90 0xBF
    else if between 0xF1 0xF3 b
    then pending 3 0x80 0xBF
    else if b == 0xF4
    then pending 3 0x80 0x8F
    else none

next_byte : Pending → ℕ → Option Pending
next_byte p b =
    if p.more == 0
    then first_byte b
    else if between p.lo p.hi b
    then pending (p.more - 1) 0x80 0xBF
    else none

utf8_from : Pending → Bytes → Bool
utf8_from p [] = p.more == 0
utf8_from p (b ∷ bs) = elim (next_byte p b) [ none ↦ false | some q ↦ utf8_from q bs ]

unfoldable pub is_utf8 : Bytes → Bool
unfolding utf8_from next_byte first_byte
is_utf8 bytes = utf8_from boundary bytes

abbrev pub IsUtf8 : Bytes → Type 0
IsUtf8 s = is_utf8 s ≡ true

-- U+00E9 and U+1F600 are accepted; an overlong form, a surrogate and a cut character are not.
accepts : is_utf8 (0xC3 ∷ 0xA9 ∷ 0xF0 ∷ 0x9F ∷ 0x98 ∷ 0x80 ∷ []) ≡ true
unfolding is_utf8
accepts = refl

refuses :
    (is_utf8 (0xC0 ∷ 0x80 ∷ []) ≡ false)
    × (is_utf8 (0xED ∷ 0xA0 ∷ 0x80 ∷ []) ≡ false)
    × (is_utf8 (0xE2 ∷ 0x82 ∷ []) ≡ false)
unfolding is_utf8
refuses = (refl, refl, refl)

-- `str::chars`: the bytes of well-formed UTF-8 as code points. `more` bytes of the character that has
-- begun are still to come, and `code` is what the others make.
abbrev pub chars_from : ℕ → ℕ → Bytes → List ℕ
chars_from more code [] = []
chars_from zero code (b ∷ bytes) =
    let one = b ∷ chars_from 0 0 bytes in
    let two = chars_from 1 (b % 32) bytes in
    let three = chars_from 2 (b % 16) bytes in
    let four = chars_from 3 (b % 8) bytes in
    if ltb b 0x80 then one else if ltb b 0xE0 then two else if ltb b 0xF0 then three else four
chars_from (suc zero) code (b ∷ bytes) = (code * 64 + b % 64) ∷ chars_from 0 0 bytes
chars_from (suc (suc more)) code (b ∷ bytes) = chars_from (suc more) (code * 64 + b % 64) bytes

abbrev pub chars : Bytes → List ℕ
chars = chars_from 0 0

-- `A`, U+00E9, U+20AC and U+1F600.
decodes :
    chars (0x41 ∷ 0xC3 ∷ 0xA9 ∷ 0xE2 ∷ 0x82 ∷ 0xAC ∷ 0xF0 ∷ 0x9F ∷ 0x98 ∷ 0x80 ∷ [])
    ≡ 0x41 ∷ 0xE9 ∷ 0x20AC ∷ 0x1F600 ∷ []
decodes = refl
