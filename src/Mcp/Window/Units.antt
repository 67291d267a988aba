-- ===== src/Mcp/Window/Units.antt =====
-- `parse_window_ms` on a decimal number and a unit.
use hw_agent.Prelude.{
  ◌≡◌, refl, ℕ, ◌+◌, ◌-◌, ◌*◌, ◌^◌, ◌≤◌, false, Text, codes, [], ◌∷◌, ◌++◌, All, ltb, length,
  if◌then◌else◌, arith,
}
use hw_agent.Core.Text.{is_digit, is_space, trim_left}
use hw_agent.Core.Numbers.{number, out_of_range, digits, sign, parse_signed, stoll}
use hw_agent.Sensors.Disk.{is_alpha}
use hw_agent.Sensors.Softirqs.Scanner.{IsDigit, value_of}
use hw_agent.Mcp.Json.{Signed}
use hw_agent.Mcp.Attempt.{Attempt, raises, undefined, gives, other_exception}
use hw_agent.Mcp.Window.{
  split_suffix, parsed_number, in_range, scaled, apply_suffix, window_of, parse_window_ms,
}

-- The units, and how many milliseconds they are.
pub data TimeUnit : Type 0 where
  milliseconds : TimeUnit
  no_unit : TimeUnit
  seconds : TimeUnit
  minutes : TimeUnit
  hours : TimeUnit

abbrev pub text_of : TimeUnit → Text
text_of milliseconds = codes "ms"
text_of no_unit = []
text_of seconds = codes "s"
text_of minutes = codes "m"
text_of hours = codes "h"

abbrev pub milliseconds_of : TimeUnit → ℕ
milliseconds_of milliseconds = 1
milliseconds_of no_unit = 1
milliseconds_of seconds = 1_000
milliseconds_of minutes = 60_000
milliseconds_of hours = 3_600_000

digit_not_alpha : (d : ℕ) → IsDigit d → is_alpha d ≡ false
unfolding is_alpha is_digit
digit_not_alpha d h = ground arith

-- A digit is no space and no sign.
digit-trim_left : (d : ℕ) (ds : Text) → IsDigit d → trim_left (d ∷ ds) ≡ d ∷ ds
unfolding trim_left is_space is_digit
digit-trim_left d ds h = ground arith

digit-sign : (d : ℕ) (ds : Text) → IsDigit d → sign (d ∷ ds) ≡ (false, d ∷ ds)
unfolding sign is_digit
digit-sign d ds h = ground arith

split_digits :
    (d : ℕ) (ds suffix : Text)
    → All IsDigit (d ∷ ds)
    → split_suffix suffix ≡ ([], suffix)
    → split_suffix (d ∷ ds ++ suffix) ≡ (d ∷ ds, suffix)
unfolding split_suffix is_alpha is_digit
split_digits d [] suffix (h, hs) e = rw (e, digit_not_alpha d h) refl
split_digits d (d' ∷ ds) suffix (h, hs) e = rw (split_digits d' ds suffix hs e) refl

split_unit : (u : TimeUnit) → split_suffix (text_of u) ≡ ([], text_of u)
unfolding split_suffix is_alpha
split_unit milliseconds = refl
split_unit no_unit = refl
split_unit seconds = refl
split_unit minutes = refl
split_unit hours = refl

digits_all :
    (v n : ℕ) (ds : Text) → All IsDigit ds → digits v n ds ≡ (value_of v ds, n + length ds, [])
unfolding digits value_of is_digit
digits_all v n [] h = ground arith
digits_all v n (d ∷ ds) (h, hs) = ground (arith, digits_all (v * 10 + (d - 48)) (n + 1) ds hs)

stoll_digits :
    (d : ℕ) (ds : Text)
    → All IsDigit (d ∷ ds)
    → stoll (d ∷ ds) ≡ (
        let value = value_of 0 (d ∷ ds) in
        if ltb (2 ^ 63 - 1) value then out_of_range else number false value)
unfolding stoll parse_signed
stoll_digits d ds h =
    ground (arith, digit-trim_left d ds h.0, digit-sign d ds h.0, digits_all 0 0 (d ∷ ds) h)

-- What the code makes of a decimal number that long and of a unit.
abbrev pub converted : ℕ → TimeUnit → Attempt Signed
converted value u =
    if ltb (2 ^ 63 - 1) value
    then raises (other_exception (codes "stoll"))
    else if ltb (2 ^ 63 - 1) (value * milliseconds_of u)
    then undefined
    else gives (record { negative = false; size = value * milliseconds_of u })

apply_unit :
    (value : ℕ) (u : TimeUnit)
    → value ≤ 2 ^ 63 - 1
    → apply_suffix (record { negative = false; size = value }) (text_of u) ≡ converted value u
unfolding apply_suffix scaled in_range
apply_unit value milliseconds h = ground arith
apply_unit value no_unit h = ground arith
apply_unit value seconds h = ground arith
apply_unit value minutes h = ground arith
apply_unit value hours h = ground arith

-- A window of decimal digits and a unit is its number of milliseconds; a number above 2^63 - 1 raises
-- std::out_of_range, and a product above it overflows.
pub parse_window_ms-digits :
    (d : ℕ) (ds : Text) (u : TimeUnit)
    → All IsDigit (d ∷ ds)
    → parse_window_ms (d ∷ ds ++ text_of u) ≡ converted (value_of 0 (d ∷ ds)) u
unfolding parse_window_ms window_of parsed_number
parse_window_ms-digits d ds u h =
    let value = value_of 0 (d ∷ ds) in
    rw (split_digits d ds (text_of u) h (split_unit u), stoll_digits d ds h)
      (ground (arith, apply_unit value u))
