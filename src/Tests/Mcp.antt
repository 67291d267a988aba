-- ===== src/Tests/Mcp.antt =====
-- The server of tools/hw-agent-mcp against a client and a Redis.
use hw_agent.Prelude.{◌+◌, ◌≡◌, ◌⊎◌, refl, true, false, none, some, Text, codes, List, [], ◌∷◌, ℕ}
use hw_agent.Float.Fixed.{Fixed, fixed_float}
use hw_agent.Core.Text.{is_digit}
use hw_agent.Sensors.Softirqs.Scanner.{value_of}
use hw_agent.Mcp.Json.{Signed}
use hw_agent.Mcp.Attempt.{Attempt, gives}
use hw_agent.Mcp.JsonRpc.{JsonRpcRequest, parse_request, is_id}
use hw_agent.Mcp.RoundTrip.{to_json, parse_request-to_json}
use hw_agent.Mcp.Server.{Tool, handle_request}
use hw_agent.Mcp.Replies.{IsAnswered, IsNotification, id_of, handle_request-IsAnswered}
use hw_agent.Mcp.Window.{parse_window_ms}
use hw_agent.Mcp.Window.Units.{minutes, parse_window_ms-digits}
use hw_agent.Mcp.Keys.{select_keys}
use hw_agent.Mcp.Selection.{Selection, select_keys-Selection}
use hw_agent.Mcp.Redis.{Redis, Element, array_reply}
use hw_agent.Mcp.Metrics.Series.{query_timeseries, describe_series, no_samples}
use hw_agent.Mcp.Metrics.Unstamped.{query_timeseries-unstamped}
use hw_agent.Tests.Fixtures.{double}
use hw_agent.Tests.Values.{
  integer_value, Value, text_value, null_value, object_value, no_members, value_json, Value-IsJson,
  list_request,
}

abbrev pub number : ℕ → Signed
number n = record { negative = false; size = n }

-- A tool that answers with its arguments and counts its calls.
abbrev echo : Tool Value ℕ
echo = record {
  name = codes "echo";
  description = codes "Answers with its arguments.";
  input_schema = object_value no_members;
  handler = λ args w. (gives args, w + 1);
}

abbrev tools : List (Text × Tool Value ℕ)
tools = (codes "echo", echo) ∷ []

abbrev sent : JsonRpcRequest Value
sent = record {
  method = codes "tools/list";
  params = object_value no_members;
  id = some (text_value (codes "a"));
}

parse_request-to_json_example : parse_request (to_json sent) ≡ gives sent
unfolding is_id
parse_request-to_json_example = parse_request-to_json Value-IsJson sent (refl, refl)

handle_request-IsAnswered_example :
    let ((should_respond, response), _) = handle_request tools list_request 0 in
    ((should_respond ≡ false) × IsNotification (parse_request list_request))
    ⊎ ((should_respond ≡ true) × IsAnswered (id_of (parse_request list_request)) response)
handle_request-IsAnswered_example = handle_request-IsAnswered Value-IsJson tools list_request 0

parse_window_ms-digits_example : parse_window_ms (codes "15m") ≡ gives (number 900_000)
unfolding value_of is_digit
parse_window_ms-digits_example = parse_window_ms-digits b'1' (codes "5") minutes (refl, (refl, tt))

select_keys-Selection_example :
    Selection
      (codes "cpu" ∷ [])
      (codes "raw:cpu" ∷ codes "raw:psi" ∷ [])
      (select_keys (codes "raw:cpu" ∷ codes "raw:psi" ∷ []) (codes "cpu" ∷ []))
select_keys-Selection_example =
    select_keys-Selection (codes "raw:cpu" ∷ codes "raw:psi" ∷ []) (codes "cpu" ∷ [])

-- A point of RedisTimeSeries: an integer and a string.
abbrev point : Element
point = record {
  type = array_reply;
  str = none;
  elements = some none ∷ some (some (codes "0.5")) ∷ [];
}

abbrev series : Redis ℕ
series = record {
  connect = λ host port timeout w. (some none, w);
  connect_unix = λ path timeout w. (some none, w);
  command = λ args w. (some (record { type = array_reply; elements = some point ∷ [] }), w + 1);
}

-- every number is 0.5
abbrev pub stod : Text → Attempt Fixed
stod text = gives (some 500_000)

abbrev pub of_double : Fixed → Value
of_double x = null_value

query_timeseries-unstamped_example :
    (query_timeseries double stod of_double series (codes "raw:cpu" ∷ []) (number 0) (number 9) 0).0
    ≡ gives (
        describe_series double stod of_double (codes "raw:cpu") (no_samples double stod of_double)
        ∷ [])
query_timeseries-unstamped_example =
    query_timeseries-unstamped double stod of_double series (codes "raw:cpu" ∷ []) (number 0)
      (number 9) 0
      (λ args w. (record { type = array_reply; elements = some point ∷ [] }, refl, refl, (tt, tt)))

-- A point with two strings.
abbrev pub stamped : Redis ℕ
stamped = record series {
  command = λ args w. (
    some (record {
      type = array_reply;
      elements =
          some (record {
            type = array_reply;
            str = none;
            elements = some (some (codes "17")) ∷ some (some (codes "0.5")) ∷ [];
          })
          ∷ [];
    }),
    w + 1,
  );
}

abbrev point_17 : Value
point_17 = value_json.object (
    (codes "timestamp", integer_value (number 17)) ∷ (codes "value", of_double (some 500_000)) ∷ [])

abbrev pub half : Value
half =
    describe_series double stod of_double (codes "raw:cpu")
      (record { total = some 500_000; sample_count = 1; points = point_17 ∷ [] })
