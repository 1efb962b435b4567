-- ===== src/Model/DateTime.antt =====
-- `validate_rfc3339` of `src/property.rs`. A reader of a part returns it with the text behind it; the
-- code reads at fixed places, which are where those parts stand.
use nostdb_core.Base.{
  ℕ, suc, ◌+◌, ◌-◌, ◌*◌, ◌%◌, Bool, true, false, not, ◌&&◌, ◌||◌, [], ◌∷◌, Option, none, some, ◌==◌,
  ltb, leb, if◌then◌else◌, Bytes,
}
use nostdb_core.Base.Results.{Result, ok, err, ◌>>=◌, ◌>>◌, refuse, ok_or}

pub data DateTimeComponent : Type 0 where
  month day hour minute second offset_hour offset_minute : DateTimeComponent

pub data DateTimeError : Type 0 where
  not_ascii malformed : DateTimeError
  out_of_range : DateTimeComponent → ℕ → DateTimeError

unfoldable pub is_ascii : Bytes → Bool
is_ascii [] = true
is_ascii (b ∷ bytes) = ltb b 128 && is_ascii bytes

abbrev pub is_digit : ℕ → Bool
is_digit b = leb b'0' b && leb b b'9'

unfoldable pub two_digits : Bytes → Option (ℕ × Bytes)
two_digits (high ∷ low ∷ rest) =
    if is_digit high && is_digit low then some ((high - b'0') * 10 + (low - b'0'), rest) else none
two_digits (_ ∷ []) = none
two_digits [] = none

unfoldable pub four_digits : Bytes → Option (ℕ × Bytes)
four_digits bytes = elim (two_digits bytes) [
  | none ↦ none
  | some (high, rest) ↦ elim (two_digits rest) [
    | none ↦ none
    | some (low, rest') ↦ some (high * 100 + low, rest')
  ]
]

unfoldable pub contains : Bytes → ℕ → Bool
contains [] found = false
contains (option ∷ options) found = option == found || contains options found

unfoldable pub expect_byte : Bytes → Bytes → Option Bytes
expect_byte options [] = none
expect_byte options (found ∷ rest) = if contains options found then some rest else none

unfoldable pub is_leap_year : ℕ → Bool
is_leap_year year = (year % 4 == 0 && not (year % 100 == 0)) || year % 400 == 0

unfoldable pub days_in_month : ℕ → ℕ → ℕ
days_in_month year number =
    if contains (1 ∷ 3 ∷ 5 ∷ 7 ∷ 8 ∷ 10 ∷ 12 ∷ []) number
    then 31
    else if contains (4 ∷ 6 ∷ 9 ∷ 11 ∷ []) number
    then 30
    else if number == 2
    then (if is_leap_year year then 29 else 28)
    else 0

-- The loop over the digits of a fraction: how many there are, and what follows.
unfoldable pub skip_digits : Bytes → ℕ × Bytes
skip_digits [] = (0, [])
skip_digits (b ∷ rest) =
    let more = skip_digits rest in if is_digit b then (suc more.0, more.1) else (0, b ∷ rest)

unfoldable pub fraction : Bytes → Result DateTimeError Bytes
fraction bytes = elim (expect_byte (b'.' ∷ []) bytes) [
  | none ↦ ok bytes
  | some rest ↦ if (skip_digits rest).0 == 0 then err malformed else ok (skip_digits rest).1
]

-- The offset's hour and minute, and what follows.
unfoldable pub offset : Bytes → Result DateTimeError (ℕ × ℕ × Bytes)
offset [] = err malformed
offset (b ∷ rest) =
    if b == b'Z' || b == b'z'
    then ok (0, 0, rest)
    else if b == b'+' || b == b'-'
    then (do
      (hours, rest') ← ok_or malformed (two_digits rest)
      rest'' ← ok_or malformed (expect_byte (b':' ∷ []) rest')
      (minutes, rest''') ← ok_or malformed (two_digits rest'')
      ok (hours, minutes, rest'''))
    else err malformed

abbrev pub is_end : Bytes → Bool
is_end [] = true
is_end (_ ∷ _) = false

pub record Parts : Type 0 where
  pub year : ℕ
  pub month : ℕ
  pub day : ℕ
  pub hour : ℕ
  pub minute : ℕ
  pub second : ℕ
  pub offset_hour : ℕ
  pub offset_minute : ℕ

-- The part of the function before the ranges.
unfoldable pub read_parts : Bytes → Result DateTimeError Parts
read_parts b0 = do
  (year, b1) ← ok_or malformed (four_digits b0)
  b2 ← ok_or malformed (expect_byte (b'-' ∷ []) b1)
  (months, b3) ← ok_or malformed (two_digits b2)
  b4 ← ok_or malformed (expect_byte (b'-' ∷ []) b3)
  (days, b5) ← ok_or malformed (two_digits b4)
  b6 ← ok_or malformed (expect_byte (b'T' ∷ b't' ∷ []) b5)
  (hours, b7) ← ok_or malformed (two_digits b6)
  b8 ← ok_or malformed (expect_byte (b':' ∷ []) b7)
  (minutes, b9) ← ok_or malformed (two_digits b8)
  b10 ← ok_or malformed (expect_byte (b':' ∷ []) b9)
  (seconds, b11) ← ok_or malformed (two_digits b10)
  b12 ← fraction b11
  (offset_hours, offset_minutes, b13) ← offset b12
  refuse (not (is_end b13)) malformed
  ok (record {
    year = year;
    month = months;
    day = days;
    hour = hours;
    minute = minutes;
    second = seconds;
    offset_hour = offset_hours;
    offset_minute = offset_minutes;
  })

unfoldable pub check_ranges : Parts → Result DateTimeError Unit
check_ranges p = do
  refuse (not (leb 1 p.month && leb p.month 12)) (out_of_range month p.month)
  refuse (ltb p.day 1 || ltb (days_in_month p.year p.month) p.day) (out_of_range day p.day)
  refuse (ltb 23 p.hour) (out_of_range hour p.hour)
  refuse (ltb 59 p.minute) (out_of_range minute p.minute)
  refuse (ltb 60 p.second) (out_of_range second p.second)
  refuse (ltb 23 p.offset_hour) (out_of_range offset_hour p.offset_hour)
  refuse (ltb 59 p.offset_minute) (out_of_range offset_minute p.offset_minute)

-- `validate_rfc3339`, and the timestamp that `DateTime::new` wraps.
unfoldable pub date_time : Bytes → Result DateTimeError Bytes
date_time value = do
  refuse (not (is_ascii value)) not_ascii
  parts ← read_parts value
  _ ← check_ranges parts
  ok value
