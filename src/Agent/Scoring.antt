-- ===== src/Agent/Scoring.antt =====
-- `compute_derived` and `compute_risk` of src/core/agent.cpp, on their objects and the frame.
use hw_agent.Float.{Float}
use hw_agent.Frame.{SignalFrame}
use hw_agent.Derived.Jitter
use hw_agent.Derived.Scheduler
use hw_agent.Derived.Memory
use hw_agent.Derived.Io
use hw_agent.Derived.Thermal
use hw_agent.Derived.Power
use hw_agent.Risk.Realtime
use hw_agent.Risk.Saturation
use hw_agent.Risk.State
use hw_agent.Agent.{DerivedState, RiskState}

module _ {F : Type 0} ⦃f : Float F⦄ where
  -- `compute_derived`, on the objects and the frame
  unfoldable pub derive : DerivedState F → SignalFrame F → DerivedState F × SignalFrame F
  derive s frame =
      let (base, sched, f₁) = Scheduler.sample s.irq_baseline s.scheduler_pressure frame in
      let (mem, f₂) = Memory.sample s.memory_pressure f₁ in
      let (io, f₃) = Io.sample s.io_pressure f₂ in
      let (thermal, f₄) = Thermal.sample s.warning_window s.thermal_pressure f₃ in
      let (power, f₅) = Power.sample s.power_pressure f₄ in
      let (intervals, jitter, f₆) = Jitter.sample s.intervals s.latency_jitter f₅ in
      (
        record {
          irq_baseline = base;
          scheduler_pressure = sched;
          memory_pressure = mem;
          io_pressure = io;
          warning_window = s.warning_window;
          thermal_pressure = thermal;
          power_pressure = power;
          intervals = intervals;
          latency_jitter = jitter;
        },
        f₆,
      )

  -- `compute_risk`, on the objects and the frame
  unfoldable pub assess : RiskState F → SignalFrame F → RiskState F × SignalFrame F
  assess s frame =
      let (rt, f₁) = Realtime.sample s.realtime_risk frame in
      let (sat, f₂) = Saturation.sample s.saturation_risk f₁ in
      let (state, f₃) = State.sample s.system_state f₂ in
      (record { realtime_risk = rt; saturation_risk = sat; system_state = state }, f₃)
