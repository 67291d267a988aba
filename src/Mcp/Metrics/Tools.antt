-- ===== src/Mcp/Metrics/Tools.antt =====
-- The handlers of tools/hw-agent-mcp/src/tools/metrics_summary.cpp and their registry.
use hw_agent.Prelude.{
  ℕ, ◌/◌, false, String, Text, codes, Option, none, some, List, [], ◌∷◌, map, length,
}
use hw_agent.Platform.{Clock, Double}
use hw_agent.Mcp.Json.{Json, Signed}
use hw_agent.Mcp.Attempt.{Attempt, gives, require, require_some}
use hw_agent.Mcp.Action.{Action, ◌>>=◌, ◌>>◌, attempt}
use hw_agent.Mcp.JsonRpc.{text_at}
use hw_agent.Mcp.Server.{Tool}
use hw_agent.Mcp.Window.{parse_window_ms}
use hw_agent.Mcp.Redis.{Redis, RedisConfig, connect, load_redis_config}
use hw_agent.Mcp.Keys.{list_metric_keys, select_keys}
use hw_agent.Mcp.Metrics.{start_of, texts, list_at, parse_filters, total_samples}
use hw_agent.Mcp.Metrics.Series.{of_size, query_timeseries}

module _ {W : Type 0} where
  -- `now_ms`
  unfoldable pub now_ms : Clock W → Action W ℕ
  now_ms clock w = let (now, w') = clock.unix_now_ns w in (gives (now / 1_000_000), w')

module _ {J : Type 0} ⦃j : Json J⦄ where
  unfoldable pub window_member : J → Attempt (J × Text)
  unfolding text_at
  window_member params = elim (j.find (codes "window") params) [
    | none ↦ require_some none "window must be a string"
    | some window ↦
        require_some (elim (j.as_text window) [ none ↦ none | some text ↦ some (window, text) ])
          "window must be a string"
  ]

  unfoldable pub keys_member : J → Attempt (List J)
  unfolding list_at
  keys_member params =
      require_some
        (elim (list_at (j.find (codes "keys") params)) [
          | none ↦ none
          | some [] ↦ none
          | some (key ∷ keys) ↦ some (key ∷ keys)
        ])
        "keys must be a non-empty array of strings"

  -- A schema that requires an array of strings of that name and a window.
  unfoldable pub input_schema : Text → J
  input_schema name =
      let texts_schema = j.object (
        (codes "type", j.of_text (codes "array"))
        ∷ (codes "items", j.object ((codes "type", j.of_text (codes "string")) ∷ []))
        ∷ []) in
      let window_schema = j.object ((codes "type", j.of_text (codes "string")) ∷ []) in
      j.object (
        (codes "type", j.of_text (codes "object"))
        ∷ (
          codes "properties",
          j.object ((name, texts_schema) ∷ (codes "window", window_schema) ∷ []),
        )
        ∷ (codes "required", j.of_list (j.of_text name ∷ j.of_text (codes "window") ∷ []))
        ∷ (codes "additionalProperties", j.of_bool false)
        ∷ [])

  -- The answer of `handle_metrics_summary`.
  unfoldable pub summary_of : J → Signed → ℕ → List Text → List Text → List J → ℕ → J
  summary_of window from_ms to_ms filters keys series total = j.object (
      (codes "tool", j.of_text (codes "metrics.summary"))
      ∷ (codes "window", window)
      ∷ (codes "from", j.of_integer from_ms)
      ∷ (codes "to", j.of_integer (of_size to_ms))
      ∷ (codes "filters", j.of_list (map j.of_text filters))
      ∷ (codes "matched_keys", j.of_list (map j.of_text keys))
      ∷ (
        codes "summary",
        j.object (
            (codes "series_count", j.of_integer (of_size (length series)))
            ∷ (codes "sample_count", j.of_integer (of_size total))
            ∷ []),
      )
      ∷ (codes "series", j.of_list series)
      ∷ [])

module _ {F D J W : Type 0} ⦃j : Json J⦄ (d : Double F D) (stod : Text → Attempt D)
    (of_double : D → J) (getenv : String → Option Text) (clock : Clock W) (redis : Redis W) where
  -- `handle_metrics_summary` on its connection.
  unfoldable pub summarize : J → Signed → ℕ → List Text → RedisConfig → Action W J
  unfolding list_metric_keys select_keys query_timeseries total_samples summary_of
  summarize window from_ms to_ms filters config = do
    all_keys ← list_metric_keys redis config
    let keys = select_keys all_keys filters
    series ← query_timeseries d stod of_double redis keys from_ms (of_size to_ms)
    total ← attempt (total_samples series 0)
    attempt (gives (summary_of window from_ms to_ms filters keys series total))

  unfoldable pub handle_metrics_summary : J → Action W J
  unfolding parse_filters window_member parse_window_ms now_ms start_of load_redis_config connect
      summarize
  handle_metrics_summary params = do
    attempt (require (j.is_object params) "params must be an object")
    filters ← attempt (parse_filters params)
    (window, text) ← attempt (window_member params)
    window_ms ← attempt (parse_window_ms text)
    to_ms ← now_ms clock
    from_ms ← attempt (start_of to_ms window_ms)
    config ← attempt (load_redis_config getenv)
    connect redis config
    summarize window from_ms to_ms filters config

  unfoldable pub handle_metrics_timeseries_query : J → Action W J
  unfolding keys_member texts window_member parse_window_ms now_ms start_of load_redis_config
      connect query_timeseries
  handle_metrics_timeseries_query params = do
    attempt (require (j.is_object params) "params must be an object")
    values ← attempt (keys_member params)
    keys ← attempt (require_some (texts values) "keys must be a non-empty array of strings")
    (window, text) ← attempt (window_member params)
    window_ms ← attempt (parse_window_ms text)
    to_ms ← now_ms clock
    from_ms ← attempt (start_of to_ms window_ms)
    config ← attempt (load_redis_config getenv)
    connect redis config
    series ← query_timeseries d stod of_double redis keys from_ms (of_size to_ms)
    attempt (
        gives (
          j.object (
            (codes "tool", j.of_text (codes "metrics.timeseries.query"))
            ∷ (codes "window", window)
            ∷ (codes "from", j.of_integer from_ms)
            ∷ (codes "to", j.of_integer (of_size to_ms))
            ∷ (codes "series", j.of_list series)
            ∷ [])))

  -- The tools by their names.
  unfoldable pub build_tool_registry : List (Text × Tool J W)
  unfolding input_schema handle_metrics_summary handle_metrics_timeseries_query
  build_tool_registry =
      (
        codes "metrics.summary",
        record {
          name = codes "metrics.summary";
          description =
              codes "Summarize RedisTimeSeries metrics over a window using filter matching.";
          input_schema = input_schema (codes "filters");
          handler = handle_metrics_summary;
        },
      )
      ∷ (
        codes "metrics.timeseries.query",
        record {
          name = codes "metrics.timeseries.query";
          description = codes "Query one or more RedisTimeSeries keys for recent points.";
          input_schema = input_schema (codes "keys");
          handler = handle_metrics_timeseries_query;
        },
      )
      ∷ []
