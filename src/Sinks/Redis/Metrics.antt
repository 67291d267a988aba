-- ===== src/Sinks/Redis/Metrics.antt =====
-- The metrics of `RedisTsSink::publish_impl` and the arguments of its TS.MADD command.
pub mod Contents
pub mod Selection
use hw_agent.Prelude.{ℕ, ◌/◌, Bool, String, List, [], ◌∷◌, ◌++◌, if◌then◌else◌}
use hw_agent.Float.{Float}
use hw_agent.Frame.{SignalFrame, AgentHealth, code}
use hw_agent.Platform.{Double}
use hw_agent.Sinks.Redis.{RedisTsSink, is_enabled, metric_args}

-- `append_metric` for each suffix and value in turn
unfoldable pub append_metrics :
    {D : Type 0}
    → (D → String)
    → String
    → ℕ
    → List String
    → List String
    → List (String × D)
    → List String
unfolding is_enabled
append_metrics show key_prefix timestamp_ms enabled args [] = args
append_metrics show key_prefix timestamp_ms enabled args ((suffix, value) ∷ rest) =
    append_metrics show key_prefix timestamp_ms enabled
      (if is_enabled enabled suffix
        then args ++ metric_args show key_prefix timestamp_ms suffix value
        else args)
      rest

module _ {F D : Type 0} ⦃f : Float F⦄ (d : Double F D) where
  -- `sanitize_value`
  unfoldable pub sanitize_value : F → D
  sanitize_value value = if f.is_finite value then d.of_float value else d.of_nat 0

  unfoldable pub raw_metrics : SignalFrame F → List (String × D)
  unfolding sanitize_value
  raw_metrics frame =
      ("raw:psi", sanitize_value frame.psi)
      ∷ ("raw:psi_memory", sanitize_value frame.psi_memory)
      ∷ ("raw:psi_io", sanitize_value frame.psi_io)
      ∷ ("raw:cpu", sanitize_value frame.cpu)
      ∷ ("raw:irq", sanitize_value frame.irq)
      ∷ ("raw:softirqs", sanitize_value frame.softirqs)
      ∷ ("raw:memory", sanitize_value frame.memory)
      ∷ ("raw:thermal", sanitize_value frame.thermal)
      ∷ ("raw:cpufreq", sanitize_value frame.cpufreq)
      ∷ ("raw:cpu_throttle_ratio", sanitize_value frame.cpu_throttle_ratio)
      ∷ ("raw:disk", sanitize_value frame.disk)
      ∷ ("raw:network", sanitize_value frame.network)
      ∷ ("raw:nvml_gpu_util", sanitize_value frame.nvml_gpu_util)
      ∷ ("raw:gpu_mem_util", sanitize_value frame.gpu_mem_util)
      ∷ ("raw:tegra_emc_util", sanitize_value frame.tegra_emc_util)
      ∷ ("raw:nvml_gpu_temp", sanitize_value frame.nvml_gpu_temp)
      ∷ ("raw:nvml_gpu_power_ratio", sanitize_value frame.nvml_gpu_power_ratio)
      ∷ ("raw:tegra_gpu_util", sanitize_value frame.tegra_gpu_util)
      ∷ ("raw:tegra_gpu_temp", sanitize_value frame.tegra_gpu_temp)
      ∷ ("raw:tegra_gpu_power_mw", sanitize_value frame.tegra_gpu_power_mw)
      ∷ []

  unfoldable pub derived_metrics : SignalFrame F → List (String × D)
  unfolding sanitize_value
  derived_metrics frame =
      ("derived:scheduler_pressure", sanitize_value frame.scheduler_pressure)
      ∷ ("derived:memory_pressure", sanitize_value frame.memory_pressure)
      ∷ ("derived:io_pressure", sanitize_value frame.io_pressure)
      ∷ ("derived:thermal_pressure", sanitize_value frame.thermal_pressure)
      ∷ ("derived:power_pressure", sanitize_value frame.power_pressure)
      ∷ ("derived:latency_jitter", sanitize_value frame.latency_jitter)
      ∷ ("risk:realtime_risk", sanitize_value frame.realtime_risk)
      ∷ ("risk:saturation_risk", sanitize_value frame.saturation_risk)
      ∷ ("risk:state", d.of_nat (code frame.state))
      ∷ []

  unfoldable pub health_metrics : AgentHealth F → List (String × D)
  unfolding sanitize_value
  health_metrics agent =
      ("agent:heartbeat", d.of_nat agent.heartbeat_ms)
      ∷ ("agent:loop_jitter", sanitize_value agent.loop_jitter_ms)
      ∷ ("agent:compute_time", sanitize_value agent.compute_time_ms)
      ∷ ("agent:redis_latency", sanitize_value agent.redis_latency_ms)
      ∷ ("agent:redis_errors", d.of_nat agent.redis_errors)
      ∷ ("agent:sensor_failures", d.of_nat agent.sensor_failures)
      ∷ ("agent:missed_cycles", d.of_nat agent.missed_cycles)
      ∷ []

  -- the values appended, in the order of the source
  unfoldable pub metrics : Bool → SignalFrame F → List (String × D)
  unfolding raw_metrics derived_metrics health_metrics
  metrics publish_health frame =
      raw_metrics frame
      ++ (derived_metrics frame ++ (if publish_health then health_metrics frame.agent else []))

  -- `command_args_` at a clock in nanoseconds
  unfoldable pub madd_args : RedisTsSink → ℕ → SignalFrame F → List String
  unfolding append_metrics metrics
  madd_args sink now_ns frame =
      append_metrics d.to_string sink.options.key_prefix (now_ns / 1_000_000) sink.enabled_metrics
        ("TS.MADD" ∷ []) (metrics sink.options.publish_health frame)
