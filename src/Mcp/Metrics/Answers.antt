-- ===== src/Mcp/Metrics/Answers.antt =====
-- The results of `handle_metrics_summary` in tools/hw-agent-mcp/src/tools/metrics_summary.cpp.
use hw_agent.Prelude.{ℕ, ◌≡◌, refl, subst, String, Text, Option, List}
use hw_agent.Platform.{Clock, Double}
use hw_agent.Mcp.Json.{Json, IsJson, Signed}
use hw_agent.Mcp.Attempt.{Attempt, raises, undefined, gives}
use hw_agent.Mcp.Action.{Action, proceed, attempt, ◌>>=◌, ◌>>◌}
use hw_agent.Mcp.Redis.{Redis, RedisConfig, load_redis_config}
use hw_agent.Mcp.Metrics.{total_samples, parse_filters}
use hw_agent.Mcp.Window.{parse_window_ms}
use hw_agent.Mcp.Attempt.{require}
use hw_agent.Mcp.Redis.{connect}
use hw_agent.Mcp.Metrics.{start_of}
use hw_agent.Mcp.Metrics.Tools.{
  now_ms, window_member, handle_metrics_summary, summarize, summary_of,
}
use hw_agent.Mcp.Keys.{select_keys, list_metric_keys}
use hw_agent.Mcp.Metrics.PerKey.{IsPerKey, query_timeseries-IsPerKey}
use hw_agent.Mcp.Metrics.Series.{of_size, query_timeseries}
use hw_agent.Mcp.Metrics.Summary.{
  IsGood, bind-IsGood, IsTotal, total_samples-IsTotal, IsSummary, summary_of-IsSummary,
}

module _ {F D J W : Type 0} ⦃j : Json J⦄ (laws : IsJson J) (d : Double F D)
    (stod : Text → Attempt D) (of_double : D → J) (getenv : String → Option Text) (clock : Clock W)
    (redis : Redis W) where
  -- The answer is a summary, for the filters of the call and the keys that Redis lists at some moment.
  pub record IsAnswer (params answer : J) : Type 0 where
    pub filters : List Text
    pub all_keys : List Text
    pub config : RedisConfig
    pub world : W
    pub parsed : parse_filters params ≡ gives filters
    pub loaded : load_redis_config getenv ≡ gives config
    pub keys : (list_metric_keys redis config world).0 ≡ gives all_keys
    pub summary : IsSummary filters all_keys answer

  module _ (params : J) (filters : List Text) (config : RedisConfig) (window : J) (from_ms : Signed)
      (to_ms : ℕ) (parsed : parse_filters params ≡ gives filters)
      (loaded : load_redis_config getenv ≡ gives config) where
    abbrev Answers : Attempt J → Type 0
    Answers = IsGood (IsAnswer params)

    -- From the sum of the samples.
    summed-Answers :
        (world : W) (all_keys : List Text) (series : List J) (total : Attempt ℕ) (w : W)
        → (list_metric_keys redis config world).0 ≡ gives all_keys
        → IsPerKey (select_keys all_keys filters) (gives series)
        → IsGood (IsTotal series 0) total
        → Answers
            (proceed
              (total, w)
              (λ sum w'. (
                gives (
                    summary_of window from_ms to_ms filters
                      (select_keys all_keys filters)
                      series
                      sum),
                w',
              ))).0
    summed-Answers world all_keys series (raises exception) w listed h t = tt
    summed-Answers world all_keys series undefined w listed h t = tt
    summed-Answers world all_keys series (gives total) w listed h t = record {
      filters = filters;
      all_keys = all_keys;
      config = config;
      world = world;
      parsed = parsed;
      loaded = loaded;
      keys = listed;
      summary = summary_of-IsSummary laws window from_ms to_ms filters all_keys series total h t;
    }

    -- From the series.
    queried-Answers :
        (world : W) (all_keys : List Text) (series : Attempt (List J) × W)
        → (list_metric_keys redis config world).0 ≡ gives all_keys
        → IsPerKey (select_keys all_keys filters) series.0
        → Answers
            (proceed series (λ found w'.
              proceed
                (total_samples found 0, w')
                (λ sum w''. (
                  gives (
                      summary_of window from_ms to_ms filters
                        (select_keys all_keys filters)
                        found
                        sum),
                  w'',
                )))).0
    queried-Answers world all_keys (raises exception, w) listed h = tt
    queried-Answers world all_keys (undefined, w) listed h = tt
    queried-Answers world all_keys (gives series, w) listed h =
        summed-Answers world all_keys series (total_samples series 0) w listed h
          (total_samples-IsTotal series 0)

    -- From the keys.
    listed-Answers :
        (world : W) (listed : Attempt (List Text) × W)
        → (list_metric_keys redis config world).0 ≡ listed.0
        → Answers
            (proceed listed (λ all_keys w.
              proceed
                (query_timeseries d stod of_double redis
                  (select_keys all_keys filters)
                  from_ms
                  (of_size to_ms)
                  w)
                (λ found w'.
                  proceed
                    (total_samples found 0, w')
                    (λ sum w''. (
                      gives (
                          summary_of window from_ms to_ms filters
                            (select_keys all_keys filters)
                            found
                            sum),
                      w'',
                    ))))).0
    listed-Answers world (raises exception, w) e = tt
    listed-Answers world (undefined, w) e = tt
    listed-Answers world (gives all_keys, w) e = queried-Answers world all_keys _ e (
        query_timeseries-IsPerKey laws d stod of_double redis (select_keys all_keys filters) from_ms
          (of_size to_ms) w)

    summarize-Answers :
        (w : W)
        → Answers
            (summarize d stod of_double getenv clock redis window from_ms to_ms filters config w).0
    unfolding summarize
    summarize-Answers w = listed-Answers w (list_metric_keys redis config w) refl

  handle-IsGood :
      (params : J) (w : W)
      → IsGood
          (IsAnswer params)
          (handle_metrics_summary d stod of_double getenv clock redis params w).0
  unfolding handle_metrics_summary
  handle-IsGood params w =
      let holds = IsAnswer params in
      let connected : List Text → J × Text → ℕ → Signed → RedisConfig → Action W J =
        λ filters window to_ms from_ms config.
          connect redis config
          >> summarize d stod of_double getenv clock redis window.0 from_ms to_ms filters config in
      let configured : List Text → J × Text → ℕ → Signed → Action W J =
        λ filters window to_ms from_ms.
          attempt (load_redis_config getenv) >>= connected filters window to_ms from_ms in
      let started : List Text → J × Text → Signed → ℕ → Action W J =
        λ filters window window_ms to_ms.
          attempt (start_of to_ms window_ms) >>= configured filters window to_ms in
      let timed : List Text → J × Text → Signed → Action W J =
        λ filters window window_ms. now_ms clock >>= started filters window window_ms in
      let sized : List Text → J × Text → Action W J =
        λ filters window. attempt (parse_window_ms window.1) >>= timed filters window in
      let windowed : List Text → Action W J =
        λ filters. attempt (window_member params) >>= sized filters in
      bind-IsGood holds (attempt (require (j.is_object params) "params must be an object"))
        (λ u. attempt (parse_filters params) >>= windowed) w
        λ u w₁ e₁.
          (bind-IsGood holds (attempt (parse_filters params)) windowed w₁ λ filters w₂ parsed.
            (bind-IsGood holds (attempt (window_member params)) (sized filters) w₂ λ window w₃ e₃.
              (bind-IsGood holds (attempt (parse_window_ms window.1)) (timed filters window) w₃
                λ window_ms w₄ e₄.
                  (bind-IsGood holds (now_ms clock) (started filters window window_ms) w₄
                    λ to_ms w₅ e₅.
                      (bind-IsGood holds (attempt (start_of to_ms window_ms))
                        (configured filters window to_ms) w₅
                        λ from_ms w₆ e₆.
                          (bind-IsGood holds (attempt (load_redis_config getenv))
                            (connected filters window to_ms from_ms) w₆
                            λ config w₇ loaded.
                              (bind-IsGood holds (connect redis config)
                                (λ v.
                                  summarize d stod of_double getenv clock redis window.0 from_ms
                                    to_ms filters config)
                                w₇
                                λ v w₈ e₈.
                                  summarize-Answers params filters config window.0 from_ms to_ms
                                    parsed loaded w₈)))))))

  -- An answer of the tool has the shape of a summary: if a call returns a result, it names the filters
  -- of the call and those of the keys of Redis that they select, has one series for each of these
  -- keys, in their order, each with its key and its number of samples, and counts the series and, in
  -- 64 bits, the samples of all of them.
  pub handle_metrics_summary-IsAnswer :
      (params : J) (w : W) (answer : J)
      → (handle_metrics_summary d stod of_double getenv clock redis params w).0 ≡ gives answer
      → IsAnswer params answer
  handle_metrics_summary-IsAnswer params w answer h =
      subst (IsGood (IsAnswer params)) h (handle-IsGood params w)
