-- ===== src/Agent.antt =====
-- src/core/agent.cpp and include/core/agent.hpp: the loop that samples, scores and publishes. The
-- sensors are an interface, `Sensors`; their states are part of the world `W`.
pub mod Metrics
pub mod Scoring
pub mod Cycle
pub mod Build
pub mod Signals
pub mod Frames
pub mod Range
pub mod Start
pub mod Counters
pub mod Files
pub mod Machine
use hw_agent.Prelude.{ℕ, Bool, true, false, String, Text, codes, Option, none, some, List, [], ◌∷◌}
use hw_agent.Float.{Float}
use hw_agent.Frame.{SignalFrame, SystemState}
use hw_agent.Core.Sampler.{Sampler}
use hw_agent.Core.Config.{AgentConfig, find}
use hw_agent.Derived.Ema.{Ema}
use hw_agent.Derived.Jitter.{Intervals}
use hw_agent.Sinks.Redis.{RedisTsSink}

-- `sample(frame)` of a sensor, or `collect(frame)` of the GPU sensor.
abbrev pub Sample : Type 0 → Type 0 → Type 0
Sample F W = SignalFrame F → W → Bool × SignalFrame F × W

-- The sensors of the agent.
pub record Sensors (F W : Type 0) : Type 0 where
  pub psi : Sample F W
  pub cpu : Sample F W
  pub interrupts : Sample F W
  pub softirqs : Sample F W
  pub memory : Sample F W
  pub disk : Sample F W
  pub network : Sample F W
  pub tegrastats : Sample F W
  pub thermal : Sample F W
  pub cpu_throttle : Sample F W
  pub cpufreq : Sample F W
  pub gpu : Sample F W

pub record SensorRegistration (F W : Type 0) : Type 0 where
  pub name : String
  pub every_ticks : ℕ
  pub enabled : Bool
  pub sample : Sample F W

pub record AgentStats : Type 0 where
  pub ticks_executed : ℕ
  pub sensor_cycles : ℕ
  pub derived_cycles : ℕ
  pub risk_cycles : ℕ
  pub sink_cycles : ℕ

abbrev pub no_stats : AgentStats
no_stats = record {
  ticks_executed = 0;
  sensor_cycles = 0;
  derived_cycles = 0;
  risk_cycles = 0;
  sink_cycles = 0;
}

-- The objects of src/derived.
pub record DerivedState (F : Type 0) : Type 0 where
  pub irq_baseline : Ema F
  pub scheduler_pressure : Ema F
  pub memory_pressure : Ema F
  pub io_pressure : Ema F
  pub warning_window : F
  pub thermal_pressure : Ema F
  pub power_pressure : Ema F
  pub intervals : Intervals
  pub latency_jitter : Ema F

-- The objects of src/risk.
pub record RiskState (F : Type 0) : Type 0 where
  pub realtime_risk : Ema F
  pub saturation_risk : Ema F
  pub system_state : SystemState

-- The members of `Agent`; times are in nanoseconds, the tick interval in milliseconds.
pub record Agent (F W : Type 0) : Type 0 where
  pub tick_interval : ℕ
  pub next_wakeup : ℕ
  pub first_tick : Bool
  pub previous_cycle_start : Option ℕ
  pub sampler : Sampler
  pub frame : SignalFrame F
  pub publish_health : Bool
  pub publish_stdout : Bool
  pub sensor_registry : List (SensorRegistration F W)
  pub derived : DerivedState F
  pub risk : RiskState F
  pub redis_sink : Option RedisTsSink
  pub redis_was_ok : Bool

abbrev enabled_or_default : Option Bool → Bool
enabled_or_default none = true
enabled_or_default (some b) = b

module _ {F : Type 0} ⦃f : Float F⦄ where
  -- `is_sensor_enabled` and `Agent::sensor_enabled`: a sensor that is not named is enabled.
  unfoldable pub sensor_enabled : AgentConfig F → String → Bool
  sensor_enabled config name = enabled_or_default (find (codes name) config.sensor_enabled)

  -- `Agent::register_sensors`
  unfoldable pub register_sensors :
      {W : Type 0} → Sensors F W → AgentConfig F → List (SensorRegistration F W)
  register_sensors s config =
      record {
        name = "psi";
        every_ticks = 1;
        enabled = sensor_enabled config "psi";
        sample = s.psi;
      }
      ∷ record {
        name = "cpu";
        every_ticks = 2;
        enabled = sensor_enabled config "cpu";
        sample = s.cpu;
      }
      ∷ record {
        name = "interrupts";
        every_ticks = 3;
        enabled = sensor_enabled config "interrupts";
        sample = s.interrupts;
      }
      ∷ record {
        name = "softirqs";
        every_ticks = 4;
        enabled = sensor_enabled config "softirqs";
        sample = s.softirqs;
      }
      ∷ record {
        name = "memory";
        every_ticks = 5;
        enabled = sensor_enabled config "memory";
        sample = s.memory;
      }
      ∷ record {
        name = "disk";
        every_ticks = 6;
        enabled = sensor_enabled config "disk";
        sample = s.disk;
      }
      ∷ record {
        name = "network";
        every_ticks = 7;
        enabled = sensor_enabled config "network";
        sample = s.network;
      }
      ∷ record {
        name = "tegrastats";
        every_ticks = 8;
        enabled = sensor_enabled config "tegrastats";
        sample = s.tegrastats;
      }
      ∷ record {
        name = "thermal";
        every_ticks = 9;
        enabled = sensor_enabled config "thermal";
        sample = s.thermal;
      }
      ∷ record {
        name = "cpu_throttle";
        every_ticks = 10;
        enabled = sensor_enabled config "cpu_throttle";
        sample = s.cpu_throttle;
      }
      ∷ record {
        name = "cpufreq";
        every_ticks = 11;
        enabled = sensor_enabled config "cpufreq";
        sample = s.cpufreq;
      }
      ∷ record {
        name = "gpu";
        every_ticks = 12;
        enabled = sensor_enabled config "gpu";
        sample = s.gpu;
      }
      ∷ []
