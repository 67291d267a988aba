-- ===== src/Sinks/Redis/Metrics/Contents.antt =====
-- The metrics of a frame, as src/sinks/redis_ts.cpp lists them: their suffixes and their values.
use hw_agent.Prelude.{◌≡◌, refl, Bool, true, false, String, List, [], ◌∷◌, ◌++◌, map, if◌then◌else◌}
use hw_agent.Float.{Float}
use hw_agent.Frame.{SignalFrame, AgentHealth, code}
use hw_agent.Platform.{Double}
use hw_agent.Sinks.Redis.{default_metric_suffixes, raw_suffixes, derived_suffixes}
use hw_agent.Sinks.Redis.Metrics.{
  metrics, raw_metrics, derived_metrics, health_metrics, sanitize_value,
}

module _ {D : Type 0} where
  abbrev pub suffix_of : String × D → String
  suffix_of m = m.0

  abbrev pub value_of : String × D → D
  value_of m = m.1

-- The suffixes of the default schema, without those of the health metrics where these are off.
abbrev pub suffixes : Bool → List String
suffixes true = default_metric_suffixes
suffixes false = raw_suffixes ++ derived_suffixes

module _ {F D : Type 0} ⦃f : Float F⦄ (d : Double F D) where
  pub metrics-suffixes :
      (publish_health : Bool) (frame : SignalFrame F)
      → map suffix_of (metrics d publish_health frame) ≡ suffixes publish_health
  unfolding metrics
  metrics-suffixes true frame = refl
  metrics-suffixes false frame = refl

  -- A float as it is sent: itself if it is finite, and 0 otherwise.
  abbrev pub finite_or_zero : F → D
  finite_or_zero x = if f.is_finite x then d.of_float x else d.of_nat 0

  -- The floats that stand behind the suffixes up to "risk:saturation_risk", in their order.
  abbrev pub fields : SignalFrame F → List F
  fields frame =
      frame.psi ∷ frame.psi_memory ∷ frame.psi_io ∷ frame.cpu ∷ frame.irq ∷ frame.softirqs
      ∷ frame.memory ∷ frame.thermal ∷ frame.cpufreq ∷ frame.cpu_throttle_ratio ∷ frame.disk
      ∷ frame.network ∷ frame.nvml_gpu_util ∷ frame.gpu_mem_util ∷ frame.tegra_emc_util
      ∷ frame.nvml_gpu_temp ∷ frame.nvml_gpu_power_ratio ∷ frame.tegra_gpu_util
      ∷ frame.tegra_gpu_temp ∷ frame.tegra_gpu_power_mw ∷ frame.scheduler_pressure
      ∷ frame.memory_pressure ∷ frame.io_pressure ∷ frame.thermal_pressure ∷ frame.power_pressure
      ∷ frame.latency_jitter ∷ frame.realtime_risk ∷ frame.saturation_risk ∷ []

  abbrev health_values : Bool → AgentHealth F → List D
  health_values false agent = []
  health_values true agent =
      d.of_nat agent.heartbeat_ms
      ∷ finite_or_zero agent.loop_jitter_ms
      ∷ finite_or_zero agent.compute_time_ms
      ∷ finite_or_zero agent.redis_latency_ms
      ∷ d.of_nat agent.redis_errors
      ∷ d.of_nat agent.sensor_failures
      ∷ d.of_nat agent.missed_cycles
      ∷ []

  -- The values of the metrics, in the order of the suffixes.
  abbrev pub values : Bool → SignalFrame F → List D
  values publish_health frame =
      map finite_or_zero (fields frame)
      ++ d.of_nat (code frame.state) ∷ health_values publish_health frame.agent

  pub metrics-values :
      (publish_health : Bool) (frame : SignalFrame F)
      → map value_of (metrics d publish_health frame) ≡ values publish_health frame
  unfolding metrics raw_metrics derived_metrics health_metrics sanitize_value
  metrics-values true frame = refl
  metrics-values false frame = refl
