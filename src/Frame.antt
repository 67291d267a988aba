-- ===== src/Frame.antt =====
-- include/model/signal_frame.hpp: the frame that every module reads and writes.
use hw_agent.Prelude.{ℕ}

pub data SystemState : Type 0 where
  stable degraded unstable critical : SystemState

-- The values of the enumerators.
abbrev pub code : SystemState → ℕ
code SystemState.stable = 0
code SystemState.degraded = 1
code SystemState.unstable = 2
code SystemState.critical = 3

pub record AgentHealth (F : Type 0) : Type 0 where
  pub heartbeat_ms : ℕ
  pub loop_jitter_ms : F
  pub compute_time_ms : F
  pub redis_latency_ms : F
  pub redis_errors : ℕ
  pub sensor_failures : ℕ
  pub missed_cycles : ℕ

pub record SignalFrame (F : Type 0) : Type 0 where
  pub monotonic_ns : ℕ
  -- raw signals
  pub psi : F
  pub psi_memory : F
  pub psi_io : F
  pub cpu : F
  pub irq : F
  pub softirqs : F
  pub memory : F
  pub thermal : F
  pub cpufreq : F
  pub cpu_throttle_ratio : F
  pub disk : F
  pub network : F
  pub gpu_util : F
  pub gpu_mem_util : F
  pub emc_util : F
  pub gpu_mem_free : F
  pub gpu_temp : F
  pub gpu_clock_ratio : F
  pub gpu_power_ratio : F
  pub gpu_throttle : F
  pub nvml_gpu_util : F
  pub nvml_gpu_temp : F
  pub nvml_gpu_power_ratio : F
  pub tegra_gpu_util : F
  pub tegra_emc_util : F
  pub tegra_gpu_temp : F
  pub tegra_gpu_power_mw : F
  -- derived signals
  pub scheduler_pressure : F
  pub memory_pressure : F
  pub io_pressure : F
  pub thermal_pressure : F
  pub power_pressure : F
  pub latency_jitter : F
  -- risk signals
  pub realtime_risk : F
  pub saturation_risk : F
  pub state : SystemState
  pub agent : AgentHealth F
