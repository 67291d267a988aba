-- ===== src/Sinks/Redis.antt =====
-- src/sinks/redis_ts.cpp: the RedisTimeSeries sink, over an abstract hiredis.
pub mod Metrics
pub mod Connection
pub mod Publish
pub mod Schema
use hw_agent.Prelude.{
  ℕ, ◌*◌, ◌/◌, ◌%◌, Bool, true, false, not, ◌&&◌, ◌||◌, String, Text, Option, none, some, List, [],
  ◌∷◌, ◌++◌, foldl, str_eq, str_append, find?, ◌==◌, if◌then◌else◌, to_decimal,
}
use hw_agent.Float.{Float}
use hw_agent.Frame.{SignalFrame, code}
use hw_agent.Platform.{Clock, Reply, Timeout, Hiredis, Double}

pub record RedisTsOptions : Type 0 where
  pub host : Text
  pub port : ℕ
  pub unix_socket : Text
  pub password : String
  pub db : ℕ
  pub key_prefix : String
  pub connect_timeout_ms : ℕ
  pub publish_health : Bool
  pub enabled_metrics : List String

-- The members of `RedisTsSink`; `context` is the `err != REDIS_OK` of the context held, if any.
pub record RedisTsSink : Type 0 where
  pub options : RedisTsOptions
  pub context : Option Bool
  pub enabled_metrics : List String
  pub timeseries_available : Bool
  pub schema_ready : Bool

-- `default_metric_suffixes()`
abbrev pub raw_suffixes : List String
raw_suffixes =
    "raw:psi" ∷ "raw:psi_memory" ∷ "raw:psi_io" ∷ "raw:cpu" ∷ "raw:irq" ∷ "raw:softirqs"
    ∷ "raw:memory" ∷ "raw:thermal" ∷ "raw:cpufreq" ∷ "raw:cpu_throttle_ratio" ∷ "raw:disk"
    ∷ "raw:network" ∷ "raw:nvml_gpu_util" ∷ "raw:gpu_mem_util" ∷ "raw:tegra_emc_util"
    ∷ "raw:nvml_gpu_temp" ∷ "raw:nvml_gpu_power_ratio" ∷ "raw:tegra_gpu_util" ∷ "raw:tegra_gpu_temp"
    ∷ "raw:tegra_gpu_power_mw" ∷ []

abbrev pub derived_suffixes : List String
derived_suffixes =
    "derived:scheduler_pressure" ∷ "derived:memory_pressure" ∷ "derived:io_pressure"
    ∷ "derived:thermal_pressure" ∷ "derived:power_pressure" ∷ "derived:latency_jitter"
    ∷ "risk:realtime_risk" ∷ "risk:saturation_risk" ∷ "risk:state" ∷ []

abbrev pub health_suffixes : List String
health_suffixes =
    "agent:heartbeat" ∷ "agent:loop_jitter" ∷ "agent:compute_time" ∷ "agent:redis_latency"
    ∷ "agent:redis_errors" ∷ "agent:sensor_failures" ∷ "agent:missed_cycles" ∷ []

abbrev pub default_metric_suffixes : List String
default_metric_suffixes = raw_suffixes ++ (derived_suffixes ++ health_suffixes)

-- The constructor: an empty list of metrics stands for all of them.
unfoldable pub make_sink : RedisTsOptions → RedisTsSink
make_sink options = record {
  options = options;
  context = none;
  enabled_metrics = elim options.enabled_metrics [ [] ↦ default_metric_suffixes | m ∷ ms ↦ m ∷ ms ];
  timeseries_available = true;
  schema_ready = false;
}

-- `enabled_metric_set_.find(suffix) != end()`
unfoldable pub is_enabled : List String → String → Bool
is_enabled [] suffix = false
is_enabled (m ∷ ms) suffix = str_eq m suffix || is_enabled ms suffix

-- The arguments that `add_metric_args` appends.
unfoldable pub metric_args : {D : Type 0} → (D → String) → String → ℕ → String → D → List String
unfolding to_decimal
metric_args show key_prefix timestamp_ms suffix value =
    str_append (str_append key_prefix ":") suffix ∷ to_decimal timestamp_ms ∷ show value ∷ []
