-- ===== src/Tests/Files.antt =====
-- A configuration file.
use hw_agent.Sinks.Redis.Metrics.{metrics}
use hw_agent.Sinks.Redis.Metrics.Contents.{suffix_of}
use hw_agent.Sinks.Redis.Metrics.Selection.{IsIn}
use hw_agent.Prelude.{map, ◌≡◌, refl, false, true, some, codes, Text, List, [], ◌∷◌, All}
use hw_agent.Float.Fixed.{Fixed, fixed_float, Fixed-IsFloat}
use hw_agent.Core.Config.{
  AgentConfig, Outcome, returns, apply_key_value, key_is, apply_tick_rate, apply_sensor,
  apply_device, apply_window, defaults, parse_bool, put, redis_address, tcp_address,
}
use hw_agent.Core.Numbers.{stoi, stoll, parse_signed, digits, sign}
use hw_agent.Core.Text.{
  trim, trim_left, trim_right, before, split_at, indent, strip_prefix, is_digit, is_space, to_lower,
}
use hw_agent.Core.Config.Load.{
  load_agent_config, read_lines, read_line, enter, full_key, open_section,
}
use hw_agent.Core.Config.Valid.{IsValid, load_agent_config-IsValid}
use hw_agent.Agent.Metrics.{enabled_redis_metrics, enabled_redis_metrics-IsKnown}
use hw_agent.Tests.Fixtures.{config, double, zeroed}

-- every number is 42
abbrev stof : Text → Outcome Fixed
stof value = returns (some 42_000_000)

abbrev file : List Text
file =
    codes "tick_rate_hz: 50  # Hz"
    ∷ codes "redis:"
    ∷ codes "  address: 10.0.0.5:6380"
    ∷ codes "sensors:"
    ∷ codes "  disk: off"
    ∷ codes "thermal_throttle_temp_c: 42"
    ∷ []

abbrev loaded : AgentConfig Fixed
loaded = record {
  tick_interval = 20;
  thermal_throttle_temp_c = some 42_000_000;
  thermal_pressure_warning_window_c = some 30_000_000;
  gpu_device_index = 0;
  publish_health = true;
  stdout_debug = true;
  redis = record { host = codes "10.0.0.5"; port = 6380; unix_socket = []; enabled = true };
  sensor_enabled = (codes "disk", false) ∷ [];
}

file_loads : load_agent_config stof (some file) ≡ returns loaded
unfolding load_agent_config read_lines read_line enter full_key open_section apply_key_value key_is
    apply_tick_rate apply_sensor apply_device apply_window defaults parse_bool put redis_address
    tcp_address stoi stoll parse_signed digits sign trim trim_left trim_right before split_at indent
    strip_prefix is_digit is_space to_lower
file_loads = refl

load_agent_config-IsValid_example : IsValid loaded
load_agent_config-IsValid_example =
    load_agent_config-IsValid stof Fixed-IsFloat (some file) loaded file_loads

enabled_redis_metrics-IsKnown_example :
    All (λ m. IsIn m (map suffix_of (metrics double true zeroed))) (enabled_redis_metrics config)
enabled_redis_metrics-IsKnown_example = enabled_redis_metrics-IsKnown double config zeroed
