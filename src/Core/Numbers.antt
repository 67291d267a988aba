-- ===== src/Core/Numbers.antt =====
-- std::stoi and std::stoll, std::strtoull: decimal numbers as the C library reads them.
use hw_agent.Prelude.{
  ℕ, ◌+◌, ◌-◌, ◌*◌, ◌^◌, Bool, true, false, Text, Option, none, some, [], ◌∷◌, ◌==◌, ltb,
  if◌then◌else◌,
}
use hw_agent.Core.Text.{is_digit, trim_left}

-- A number read, with its sign.
pub data Parsed : Type 0 where
  -- std::invalid_argument
  invalid : Parsed
  -- std::out_of_range
  out_of_range : Parsed
  number : Bool → ℕ → Parsed

-- The value of the digits in front, how many there are, and the rest.
unfoldable pub digits : ℕ → ℕ → Text → ℕ × ℕ × Text
unfolding is_digit
digits value count [] = (value, count, [])
digits value count (c ∷ cs) =
    let more = digits (value * 10 + (c - 48)) (count + 1) cs in
    if is_digit c then more else (value, count, c ∷ cs)

-- an optional sign
unfoldable pub sign : Text → Bool × Text
sign [] = (false, [])
sign (c ∷ cs) = if c == b'-' then (true, cs) else if c == b'+' then (false, cs) else (false, c ∷ cs)

-- Leading spaces, a sign, digits; what follows is ignored. `limit` is the largest value.
unfoldable pub parse_signed : ℕ → Text → Parsed
unfolding digits sign trim_left
parse_signed limit text =
    let (negative, body) = sign (trim_left text) in
    let (value, count, rest) = digits 0 0 body in
    if count == 0
    then invalid
    else if ltb (if negative then limit + 1 else limit) value
    then out_of_range
    else number negative value

unfoldable pub stoi : Text → Parsed
unfolding parse_signed
stoi = parse_signed (2 ^ 31 - 1)

unfoldable pub stoll : Text → Parsed
unfolding parse_signed
stoll = parse_signed (2 ^ 63 - 1)

-- std::strtoull with base 10: the value and `end`; none where the callers fail, on no digits
-- (`end == cursor`) or a value out of range (`errno`). A minus sign negates modulo 2^64.
unfoldable pub strtoull : Text → Option (ℕ × Text)
unfolding digits sign trim_left
strtoull text =
    let (negative, body) = sign (trim_left text) in
    let (value, count, rest) = digits 0 0 body in
    if count == 0
    then none
    else if ltb (2 ^ 64 - 1) value
    then none
    else some (if negative then (if value == 0 then 0 else 2 ^ 64 - value) else value, rest)
