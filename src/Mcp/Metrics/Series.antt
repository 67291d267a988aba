-- ===== src/Mcp/Metrics/Series.antt =====
-- `query_timeseries` of tools/hw-agent-mcp/src/tools/metrics_summary.cpp.
use hw_agent.Prelude.{
  ℕ, ◌+◌, false, Text, codes, Option, none, some, List, [], ◌∷◌, ◌++◌, ◌==◌, if◌then◌else◌,
}
use hw_agent.Platform.{Double}
use hw_agent.Core.Numbers.{stoll}
use hw_agent.Mcp.Json.{Json, Signed}
use hw_agent.Mcp.Attempt.{Attempt, raises, undefined, gives, other_exception}
use hw_agent.Mcp.Action.{Action, ◌>>=◌, attempt}
use hw_agent.Mcp.Window.{parsed_number}
use hw_agent.Mcp.Redis.{
  Redis, Reply, Element, error_reply, array_reply, string_reply, other_reply, shown, command,
}

-- The two strings of a point, none where the loop skips it.
unfoldable pub point_strings : Option Element → Option (Text × Text)
point_strings none = none
point_strings (some point) = elim point.type [
  | error_reply ↦ none
  | string_reply ↦ none
  | other_reply ↦ none
  | array_reply ↦ elim point.elements [
    | some (some ts) ∷ some (some value) ∷ [] ↦ some (ts, value)
    | _ ↦ none
  ]
]

-- `sum`, `sample_count` and `points`
pub record Samples (D J : Type 0) : Type 0 where
  pub total : D
  pub sample_count : ℕ
  pub points : List J

abbrev pub of_size : ℕ → Signed
of_size n = record { negative = false; size = n }

-- std::stod, and a number of JSON from a double.
module _ {F D J : Type 0} ⦃j : Json J⦄ (d : Double F D) (stod : Text → Attempt D)
    (of_double : D → J) where
  -- A point with these two strings.
  unfoldable pub add_sample : Text × Text → Samples D J → Attempt (Samples D J)
  unfolding parsed_number stoll
  add_sample (ts, value) samples = elim (parsed_number "stoll" (stoll ts)) [
    | raises exception ↦ raises exception
    | undefined ↦ undefined
    | gives timestamp ↦ elim (stod value) [
      | raises exception ↦ raises exception
      | undefined ↦ undefined
      | gives numeric_value ↦ gives (record {
        total = d.add samples.total numeric_value;
        sample_count = samples.sample_count + 1;
        points =
            samples.points
            ++ (j.object (
                (codes "timestamp", j.of_integer timestamp)
                ∷ (codes "value", of_double numeric_value)
                ∷ []))
              ∷ [];
      })
    ]
  ]

  -- The loop over the elements of a reply.
  unfoldable pub add_points : List (Option Element) → Samples D J → Attempt (Samples D J)
  unfolding point_strings add_sample
  add_points [] samples = gives samples
  add_points (point ∷ rest) samples =
      let skipped = add_points rest samples in
      elim (point_strings point) [
        | none ↦ skipped
        | some strings ↦ elim (add_sample strings samples) [
          | raises exception ↦ raises exception
          | undefined ↦ undefined
          | gives more ↦ add_points rest more
        ]
      ]

  abbrev pub no_samples : Samples D J
  no_samples = record { total = d.of_nat 0; sample_count = 0; points = [] }

  unfoldable pub describe_series : Text → Samples D J → J
  describe_series key samples =
      let avg =
        if samples.sample_count == 0
        then d.of_nat 0
        else d.div samples.total (d.of_nat samples.sample_count) in
      j.object (
        (codes "key", j.of_text key)
        ∷ (codes "sample_count", j.of_integer (of_size samples.sample_count))
        ∷ (codes "avg", of_double avg)
        ∷ (codes "points", j.of_list samples.points)
        ∷ [])

  unfoldable pub series_of : Text → Reply → Attempt J
  unfolding add_points describe_series
  series_of key reply = elim reply.type [
    | error_reply ↦ raises (other_exception (codes "TS.RANGE failed for key " ++ key))
    | string_reply ↦ raises (other_exception (codes "unexpected TS.RANGE response for key " ++ key))
    | other_reply ↦ raises (other_exception (codes "unexpected TS.RANGE response for key " ++ key))
    | array_reply ↦ elim (add_points reply.elements no_samples) [
      | raises exception ↦ raises exception
      | undefined ↦ undefined
      | gives samples ↦ gives (describe_series key samples)
    ]
  ]

  unfoldable pub query_timeseries :
      {W : Type 0} → Redis W → List Text → Signed → Signed → Action W (List J)
  unfolding command shown series_of
  query_timeseries redis [] from_ms to_ms = attempt (gives [])
  query_timeseries redis (key ∷ keys) from_ms to_ms =
      command redis (codes "TS.RANGE" ∷ key ∷ shown from_ms ∷ shown to_ms ∷ []) >>= λ reply.
      (attempt (series_of key reply) >>= λ item.
      (query_timeseries redis keys from_ms to_ms >>= λ series. attempt (gives (item ∷ series))))
