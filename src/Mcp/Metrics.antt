-- ===== src/Mcp/Metrics.antt =====
-- The tools of tools/hw-agent-mcp/src/tools/metrics_summary.cpp: their arguments, and in the children
-- the queries and the handlers.
pub mod Series
pub mod Unstamped
pub mod PerKey
pub mod Tools
pub mod Summary
pub mod Answers
use hw_agent.Prelude.{
  ℕ, ◌+◌, ◌-◌, ◌/◌, Bool, true, false, not, String, Text, codes, Option, none, some, List, [], ◌∷◌,
  ◌++◌, ◌==◌, leb, map, length, if◌then◌else◌, add64,
}
use hw_agent.Platform.{Clock, Double}
use hw_agent.Core.Numbers.{stoll}
use hw_agent.Mcp.Json.{Json, Signed, is_some}
use hw_agent.Mcp.Attempt.{
  Attempt, raises, undefined, gives, other_exception, invalid, require, require_some,
}
use hw_agent.Mcp.Action.{Action, ◌>>=◌, ◌>>◌, attempt}
use hw_agent.Mcp.JsonRpc.{text_at}
use hw_agent.Mcp.Server.{Tool}
use hw_agent.Mcp.Window.{parsed_number, in_range, parse_window_ms}
use hw_agent.Mcp.Redis.{
  Redis, Reply, Element, ReplyType, error_reply, array_reply, string_reply, other_reply, shown,
  command, connect, load_redis_config,
}
use hw_agent.Mcp.Keys.{list_metric_keys, select_keys}
use hw_agent.Mcp.Attempt

abbrev of_size : ℕ → Signed
of_size n = record { negative = false; size = n }

-- to_ms - window_ms
unfoldable pub start_of : ℕ → Signed → Attempt Signed
unfolding in_range
start_of to_ms window_ms =
    if window_ms.negative
    then in_range (record { negative = false; size = to_ms + window_ms.size })
    else if leb window_ms.size to_ms
    then gives (record { negative = false; size = to_ms - window_ms.size })
    else gives (record { negative = true; size = window_ms.size - to_ms })

abbrev pub is_empty {ℓ} : {A : Type ℓ} → List A → Bool
is_empty [] = true
is_empty (x ∷ xs) = false

module _ {J : Type 0} ⦃j : Json J⦄ where
  -- The strings of an array; none where an element is no string.
  unfoldable pub texts : List J → Option (List Text)
  texts [] = some []
  texts (value ∷ values) =
      let rest = texts values in
      elim (j.as_text value) [
        | none ↦ none
        | some text ↦ elim rest [ none ↦ none | some others ↦ some (text ∷ others) ]
      ]

  -- The array at an iterator of `find`.
  unfoldable pub list_at : Option J → Option (List J)
  list_at none = none
  list_at (some value) = j.as_list value

  unfoldable pub parse_filters : J → Attempt (List Text)
  unfolding texts list_at
  parse_filters params =
      Attempt.◌>>=◌
        (require_some (list_at (j.find (codes "filters") params))
          "filters must be an array of strings")
        (λ values.
          Attempt.◌>>=◌ (require_some (texts values) "filters must be an array of strings")
            (λ filters.
              Attempt.◌>>=◌
                (require (not (is_empty filters)) "filters must contain at least one value")
                (λ _. gives filters)))

  -- The loop over the series.
  unfoldable pub total_samples : List J → ℕ → Attempt ℕ
  unfolding add64
  total_samples [] total = gives total
  total_samples (item ∷ series) total = elim (j.find (codes "sample_count") item) [
    | none ↦ raises (other_exception (codes "key 'sample_count' not found"))
    | some count ↦ elim (j.as_size count) [
      | none ↦ raises (other_exception (codes "type must be number"))
      | some n ↦ total_samples series (add64 total n)
    ]
  ]
