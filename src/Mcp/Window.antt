-- ===== src/Mcp/Window.antt =====
-- `parse_window_ms` of tools/hw-agent-mcp/src/tools/metrics_summary.cpp.
pub mod Units
use hw_agent.Prelude.{
  String, ℕ, ◌+◌, ◌-◌, ◌*◌, ◌^◌, Bool, true, false, Text, codes, text_eq, [], ◌∷◌, ltb,
  if◌then◌else◌,
}
use hw_agent.Core.Numbers.{Parsed, invalid, out_of_range, number, stoll}
use hw_agent.Sensors.Disk.{is_alpha}
use hw_agent.Mcp.Json.{Signed}
use hw_agent.Mcp.Attempt.{
  Attempt, raises, undefined, gives, other_exception, invalid_argument, ◌>>=◌,
}

abbrev add_front : ℕ → Text × Text → Text × Text
add_front c ([], suffix) = if is_alpha c then ([], c ∷ suffix) else (c ∷ [], suffix)
add_front c (d ∷ front, suffix) = (c ∷ d ∷ front, suffix)

-- The texts before and from `suffix_pos`, where the letters at the end start.
unfoldable pub split_suffix : Text → Text × Text
unfolding is_alpha
split_suffix [] = ([], [])
split_suffix (c ∷ cs) = add_front c (split_suffix cs)

-- What std::stoi and std::stoll throw.
unfoldable pub parsed_number : String → Parsed → Attempt Signed
parsed_number what invalid = raises (invalid_argument (codes what))
parsed_number what out_of_range = raises (other_exception (codes what))
parsed_number what (number negative size) = gives (record { negative = negative; size = size })

-- Within 64 bits; otherwise the overflow is undefined.
unfoldable pub in_range : Signed → Attempt Signed
in_range n = if ltb (if n.negative then 2 ^ 63 else 2 ^ 63 - 1) n.size then undefined else gives n

-- value * factor
unfoldable pub scaled : Signed → ℕ → Attempt Signed
unfolding in_range
scaled value factor = in_range (record value { size = value.size * factor })

unfoldable pub apply_suffix : Signed → Text → Attempt Signed
unfolding scaled
apply_suffix value suffix =
    if text_eq suffix (codes "ms")
    then gives value
    else if text_eq suffix []
    then gives value
    else if text_eq suffix (codes "s")
    then scaled value 1000
    else if text_eq suffix (codes "m")
    then scaled value (60 * 1000)
    else if text_eq suffix (codes "h")
    then scaled value (60 * 60 * 1000)
    else raises (invalid_argument (codes "unsupported window suffix; use ms, s, m, or h"))

-- After the search for `suffix_pos`.
unfoldable pub window_of : Text × Text → Attempt Signed
unfolding stoll parsed_number apply_suffix
window_of ([], suffix) = raises (invalid_argument (codes "window must start with a numeric value"))
window_of (c ∷ front, suffix) =
    parsed_number "stoll" (stoll (c ∷ front)) >>= λ value. apply_suffix value suffix

unfoldable pub parse_window_ms : Text → Attempt Signed
unfolding split_suffix window_of
parse_window_ms [] = raises (invalid_argument (codes "window must not be empty"))
parse_window_ms (c ∷ window) = window_of (split_suffix (c ∷ window))
