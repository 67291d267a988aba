-- ===== src/Tests/Answers.antt =====
-- A call of a tool of tools/hw-agent-mcp.
use hw_agent.Prelude.{
  true, length, arith, ◌≡◌, refl, String, Text, codes, text_eq, Option, none, some, List, [], ◌∷◌,
  ℕ, ◌+◌, if◌then◌else◌,
}
use hw_agent.Core.Text.{is_digit, is_space, trim_left, strip_prefix}
use hw_agent.Core.Numbers.{stoll, parse_signed, digits, sign}
use hw_agent.Mcp.Attempt.{gives}
use hw_agent.Mcp.JsonRpc.{text_at}
use hw_agent.Mcp.Keys.{list_metric_keys, strings, select_keys, is_selected, contains}
use hw_agent.Mcp.Redis.{
  Redis, Reply, Element, array_reply, string_reply, command, connect, open_context, authenticate,
  select_db, load_redis_config, getenv_or, getenv_or_int, to_unsigned,
}
use hw_agent.Mcp.Window.{parsed_number, parse_window_ms, in_range}
use hw_agent.Mcp.Metrics.{start_of, texts, list_at, parse_filters, total_samples}
use hw_agent.Mcp.Metrics.Answers.{IsAnswer, handle_metrics_summary-IsAnswer}
use hw_agent.Mcp.Metrics.Series.{
  query_timeseries, describe_series, series_of, add_points, add_sample, point_strings,
}
use hw_agent.Mcp.Metrics.Tools.{
  handle_metrics_summary, summarize, summary_of, now_ms, window_member,
}
use hw_agent.Tests.Fixtures.{double, clock}
use hw_agent.Tests.Mcp.{number, stod, of_double, stamped, half}
use hw_agent.Mcp.Answer.{internal_error, replies}
use hw_agent.Mcp.Defined.{IsDefinedRequest}
use hw_agent.Mcp.JsonRpc.{
  parse_request, checked_params, checked_id, is_id, is_text, make_error_response,
}
use hw_agent.Mcp.Loop.{run-length}
use hw_agent.Mcp.Server.{
  Tool, run, find_tool, process_line, process_parsed, handle_request, handle_parsed, call_method,
}
use hw_agent.Mcp.Metrics.Tools.{build_tool_registry}
use hw_agent.Tests.Values.{
  list_line, call_line, call_request, Value, text_value, value_json, Value-IsJson,
}

abbrev key_element : Text → Option Element
key_element key = some (record { type = string_reply; str = some key; elements = [] })

-- Two keys, and one sample for each query.
abbrev answers : List Text → ℕ → Option Reply × ℕ
answers [] w = (none, w)
answers (name ∷ args) w =
    if text_eq name (codes "KEYS")
    then (
      some (record {
        type = array_reply;
        elements = key_element (codes "n:raw:psi") ∷ key_element (codes "raw:cpu") ∷ [];
      }),
      w + 1,
    )
    else stamped.command args w

abbrev server : Redis ℕ
server = record stamped { command = answers }

abbrev getenv : String → Option Text
getenv name = none

abbrev window : Value
window = text_value (codes "1m")

abbrev filters : List Text
filters = codes "cpu" ∷ []

abbrev params : Value
params = value_json.object (
    (codes "filters", value_json.of_list (text_value (codes "cpu") ∷ []))
    ∷ (codes "window", window)
    ∷ [])

-- 1000 seconds after the epoch.
abbrev answer : Value
answer = summary_of window (number 940_000) 1_000_000 filters (codes "raw:cpu" ∷ []) (half ∷ []) 1

handled :
    (handle_metrics_summary double stod of_double getenv clock server params 1_000_000_000_000).0
    ≡ gives answer
unfolding handle_metrics_summary summarize summary_of now_ms window_member start_of texts list_at
    parse_filters total_samples list_metric_keys strings select_keys is_selected contains
    strip_prefix command connect open_context authenticate select_db load_redis_config getenv_or
    getenv_or_int to_unsigned parse_window_ms in_range text_at query_timeseries describe_series
    series_of add_points add_sample point_strings parsed_number stoll parse_signed digits sign
    trim_left is_digit is_space
handled = refl

handle_metrics_summary-IsAnswer_example :
    IsAnswer Value-IsJson double stod of_double getenv clock server params answer
handle_metrics_summary-IsAnswer_example =
    handle_metrics_summary-IsAnswer Value-IsJson double stod of_double getenv clock server params
      1_000_000_000_000 answer handled

internal_error_dumped : internal_error Value ≡ replies (codes "{}")
unfolding make_error_response
internal_error_dumped = refl

abbrev registry : List (Text × Tool Value ℕ)
registry = build_tool_registry double stod of_double getenv clock server

-- The state in which the call starts, 1000 seconds after the epoch.
abbrev started : ℕ
started = 1_000_000_000_000

abbrev lines : List Text
lines = list_line ∷ [] ∷ codes "?" ∷ call_line ∷ []

called : IsDefinedRequest registry (parse_request call_request) started
unfolding build_tool_registry parse_request checked_params checked_id is_id is_text find_tool
    text_at handle_metrics_summary summarize summary_of now_ms window_member start_of texts list_at
    parse_filters total_samples list_metric_keys strings select_keys is_selected contains
    strip_prefix command connect open_context authenticate select_db load_redis_config getenv_or
    getenv_or_int to_unsigned parse_window_ms in_range query_timeseries describe_series series_of
    add_points add_sample point_strings parsed_number stoll parse_signed digits sign trim_left
    is_digit is_space
called same = tt

run-length_example :
    ((run registry lines started).0.0 ≡ true) × (length (run registry lines started).0.1 ≡ 3)
unfolding parse_request process_line process_parsed handle_request handle_parsed call_method
run-length_example =
    run-length (codes "{}") internal_error_dumped registry lines started
      (λ same. absurd (ground (arith, same)), (tt, (tt, (called, tt))))
