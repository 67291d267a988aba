-- ===== src/Agent/Start.antt =====
-- The agent that the constructor of src/core/agent.cpp builds.
use hw_agent.Prelude.{All, arith}
use hw_agent.Float.{Float, IsFloat, IsFinite}
use hw_agent.Frame.{SignalFrame}
use hw_agent.Platform.{Hiredis}
use hw_agent.Core.Config.{AgentConfig}
use hw_agent.Derived.Ema.{empty-IsSound}
use hw_agent.Derived.Thermal.{warning_window-IsWindow}
use hw_agent.Derived.Jitter.Bounds.{no_intervals-IsKept}
use hw_agent.Agent.{Sensors, register_sensors}
use hw_agent.Agent.Signals.{IsMeasured}
use hw_agent.Agent.Range.{Measures, IsRunning}
use hw_agent.Agent.Build.{make_agent}

module _ {F : Type 0} ⦃f : Float F⦄ (laws : IsFloat F) where
  -- From sensors that measure, a measured frame and a finite warning window, whatever its sign, the
  -- constructor builds an agent that is fit to run, whatever Redis answers.
  pub make_agent-IsRunning :
      {W : Type 0} (redis : Hiredis W) (sensors : Sensors F W) (zeroed : SignalFrame F)
      (config : AgentConfig F) (w : W)
      → All Measures (register_sensors sensors config)
      → IsMeasured zeroed
      → IsFinite config.thermal_pressure_warning_window_c
      → IsRunning (make_agent redis sensors zeroed config w).0
  unfolding make_agent
  make_agent-IsRunning redis sensors zeroed config w hs m h = record {
    sensors = hs;
    frame = m;
    derived = record {
      irq_baseline = ground arith;
      scheduler_pressure = empty-IsSound;
      memory_pressure = empty-IsSound;
      io_pressure = empty-IsSound;
      warning_window =
          warning_window-IsWindow laws config.thermal_pressure_warning_window_c (λ _. h);
      thermal_pressure = empty-IsSound;
      power_pressure = empty-IsSound;
      intervals = no_intervals-IsKept;
      latency_jitter = empty-IsSound;
    };
    risk = record { realtime_risk = empty-IsSound; saturation_risk = empty-IsSound };
  }
