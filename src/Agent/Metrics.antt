-- ===== src/Agent/Metrics.antt =====
-- `enabled_redis_metrics` of src/core/agent.cpp.
use hw_agent.Prelude.{
  Bool, true, false, String, List, [], ◌∷◌, ◌++◌, ◌≡◌, All, map, subst, sym, All-append, arith,
}
use hw_agent.Float.{Float}
use hw_agent.Core.Config.{AgentConfig}
use hw_agent.Frame.{SignalFrame}
use hw_agent.Platform.{Double}
use hw_agent.Sinks.Redis.{is_enabled}
use hw_agent.Sinks.Redis.Metrics.{metrics}
use hw_agent.Sinks.Redis.Metrics.Contents.{suffixes, suffix_of, metrics-suffixes}
use hw_agent.Sinks.Redis.Metrics.Selection.{IsIn, is_enabled-IsIn}
use hw_agent.Agent.{sensor_enabled}

-- `if (enabled) metrics.push_back(…)`
abbrev when : Bool → List String → List String
when true metrics = metrics
when false metrics = []

-- The metrics published for a sensor.
abbrev pub sensor_metrics : List (String × List String)
sensor_metrics =
    ("psi", "raw:psi" ∷ "raw:psi_memory" ∷ "raw:psi_io" ∷ [])
    ∷ ("cpu", "raw:cpu" ∷ [])
    ∷ ("interrupts", "raw:irq" ∷ [])
    ∷ ("softirqs", "raw:softirqs" ∷ [])
    ∷ ("memory", "raw:memory" ∷ [])
    ∷ ("thermal", "raw:thermal" ∷ [])
    ∷ ("cpufreq", "raw:cpufreq" ∷ [])
    ∷ ("cpu_throttle", "raw:cpu_throttle_ratio" ∷ [])
    ∷ ("disk", "raw:disk" ∷ [])
    ∷ ("network", "raw:network" ∷ [])
    ∷ (
      "gpu",
      "raw:nvml_gpu_util" ∷ "raw:gpu_mem_util" ∷ "raw:nvml_gpu_temp" ∷ "raw:nvml_gpu_power_ratio"
          ∷ [],
    )
    ∷ ("tegrastats", "raw:tegra_gpu_util" ∷ "raw:tegra_gpu_temp" ∷ "raw:tegra_gpu_power_mw" ∷ [])
    ∷ ("tegrastats", "raw:tegra_emc_util" ∷ [])
    ∷ []

-- The metrics that are always published, and those for health.
abbrev pub base_names : List String
base_names =
    "derived:scheduler_pressure" ∷ "derived:memory_pressure" ∷ "derived:io_pressure"
    ∷ "derived:thermal_pressure" ∷ "derived:power_pressure" ∷ "derived:latency_jitter"
    ∷ "risk:realtime_risk" ∷ "risk:saturation_risk" ∷ "risk:state" ∷ []

abbrev pub health_names : List String
health_names =
    "agent:heartbeat" ∷ "agent:loop_jitter" ∷ "agent:compute_time" ∷ "agent:redis_latency"
    ∷ "agent:redis_errors" ∷ "agent:sensor_failures" ∷ "agent:missed_cycles" ∷ []

abbrev IsSuffix : Bool → String → Type 0
IsSuffix publish_health m = IsIn m (suffixes publish_health)

All-IsSuffix :
    (b : Bool) (l : List String)
    → All (λ m. is_enabled (suffixes b) m ≡ true) l
    → All (IsSuffix b) l
All-IsSuffix b [] h = tt
All-IsSuffix b (m ∷ ms) (h, hs) = (is_enabled-IsIn (suffixes b) m h, All-IsSuffix b ms hs)

All-table :
    (b : Bool) (table : List (String × List String))
    → All (λ p. All (λ m. is_enabled (suffixes b) m ≡ true) p.1) table
    → All (λ p. All (IsSuffix b) p.1) table
All-table b [] h = tt
All-table b ((sensor, metrics) ∷ rest) (h, hs) = (All-IsSuffix b metrics h, All-table b rest hs)

base-IsSuffix : (b : Bool) → All (IsSuffix b) base_names
unfolding is_enabled
base-IsSuffix true = All-IsSuffix true base_names (ground arith)
base-IsSuffix false = All-IsSuffix false base_names (ground arith)

table-IsSuffix : (b : Bool) → All (λ p. All (IsSuffix b) p.1) sensor_metrics
unfolding is_enabled
table-IsSuffix true = All-table true sensor_metrics (ground arith)
table-IsSuffix false = All-table false sensor_metrics (ground arith)

health-IsSuffix : (b : Bool) → All (IsSuffix b) (when b health_names)
unfolding is_enabled
health-IsSuffix true = All-IsSuffix true health_names (ground arith)
health-IsSuffix false = tt

when-IsSuffix : (b on : Bool) (l : List String) → All (IsSuffix b) l → All (IsSuffix b) (when on l)
when-IsSuffix b true l h = h
when-IsSuffix b false l h = tt

module _ {F : Type 0} ⦃f : Float F⦄ where
  abbrev collect : AgentConfig F → List (String × List String) → List String
  collect config [] = []
  collect config ((sensor, metrics) ∷ rest) =
      when (sensor_enabled config sensor) metrics ++ collect config rest

  unfoldable pub enabled_redis_metrics : AgentConfig F → List String
  enabled_redis_metrics config =
      base_names ++ (collect config sensor_metrics ++ when config.publish_health health_names)

  collect-IsSuffix :
      (config : AgentConfig F) (b : Bool) (table : List (String × List String))
      → All (λ p. All (IsSuffix b) p.1) table
      → All (IsSuffix b) (collect config table)
  collect-IsSuffix config b [] h = tt
  collect-IsSuffix config b ((sensor, metrics) ∷ rest) (p, ps) =
      All-append (IsSuffix b) (when (sensor_enabled config sensor) metrics) (collect config rest)
        (when-IsSuffix b (sensor_enabled config sensor) metrics p)
        (collect-IsSuffix config b rest ps)

  enabled-IsSuffix :
      (config : AgentConfig F) → All (IsSuffix config.publish_health) (enabled_redis_metrics config)
  unfolding enabled_redis_metrics
  enabled-IsSuffix config =
      let b = config.publish_health in
      All-append (IsSuffix b) base_names _ (base-IsSuffix b) (
        All-append (IsSuffix b) (collect config sensor_metrics) _
          (collect-IsSuffix config b sensor_metrics (table-IsSuffix b)) (health-IsSuffix b))

  -- Whatever the configuration, every metric that the agent enables is the suffix of one that the sink
  -- appends to its commands with the same choice about health metrics.
  pub enabled_redis_metrics-IsKnown :
      {D : Type 0} (d : Double F D) (config : AgentConfig F) (frame : SignalFrame F)
      → All
          (λ m. IsIn m (map suffix_of (metrics d config.publish_health frame)))
          (enabled_redis_metrics config)
  enabled_redis_metrics-IsKnown d config frame =
      subst (λ l. All (λ m. IsIn m l) (enabled_redis_metrics config))
        (sym (metrics-suffixes d config.publish_health frame)) (enabled-IsSuffix config)
