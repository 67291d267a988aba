-- ===== src/Agent/Signals.antt =====
-- The ranges of the signals that src/core/agent.cpp computes in one cycle.
use hw_agent.Float.{Float, IsFloat, HasWeights, IsNum, IsFinite, InUnit}
use hw_agent.Frame.{SignalFrame}
use hw_agent.Derived.Ema.{IsSound}
use hw_agent.Derived.Jitter.Bounds.{IsKept, no_intervals-IsKept}
use hw_agent.Derived.Jitter
use hw_agent.Derived.Jitter.Bounds
use hw_agent.Derived.Scheduler
use hw_agent.Derived.Scheduler.{IsBaseline}
use hw_agent.Derived.Memory
use hw_agent.Derived.Io
use hw_agent.Derived.Thermal
use hw_agent.Derived.Thermal.{IsWindow}
use hw_agent.Derived.Power
use hw_agent.Risk.Realtime
use hw_agent.Risk.Saturation
use hw_agent.Risk.State
use hw_agent.Agent.{DerivedState, RiskState}
use hw_agent.Agent.Scoring.{derive, assess}

module _ {F : Type 0} ⦃f : Float F⦄ where
  -- The raw signals that the scores read are finite.
  pub record IsMeasured (frame : SignalFrame F) : Type 0 where
    pub psi : IsFinite frame.psi
    pub psi_memory : IsFinite frame.psi_memory
    pub psi_io : IsFinite frame.psi_io
    pub cpu : IsFinite frame.cpu
    pub irq : IsFinite frame.irq
    pub softirqs : IsFinite frame.softirqs
    pub memory : IsFinite frame.memory
    pub thermal : IsFinite frame.thermal
    pub cpu_throttle_ratio : IsFinite frame.cpu_throttle_ratio
    pub disk : IsFinite frame.disk
    pub network : IsFinite frame.network

  -- The averages, the baseline, the window and the ring are well formed.
  pub record IsCalm (s : DerivedState F) : Type 0 where
    pub irq_baseline : IsBaseline s.irq_baseline
    pub scheduler_pressure : IsSound s.scheduler_pressure
    pub memory_pressure : IsSound s.memory_pressure
    pub io_pressure : IsSound s.io_pressure
    pub warning_window : IsWindow s.warning_window
    pub thermal_pressure : IsSound s.thermal_pressure
    pub power_pressure : IsSound s.power_pressure
    pub intervals : IsKept s.intervals
    pub latency_jitter : IsSound s.latency_jitter

  pub record IsScored (frame : SignalFrame F) : Type 0 where
    pub scheduler_pressure : InUnit frame.scheduler_pressure
    pub memory_pressure : InUnit frame.memory_pressure
    pub io_pressure : InUnit frame.io_pressure
    pub thermal_pressure : InUnit frame.thermal_pressure
    pub power_pressure : InUnit frame.power_pressure
    pub latency_jitter : InUnit frame.latency_jitter

  pub record IsRated (s : RiskState F) : Type 0 where
    pub realtime_risk : IsSound s.realtime_risk
    pub saturation_risk : IsSound s.saturation_risk

  module _ (laws : IsFloat F) (weights : HasWeights F) where
    num : (x : F) → IsFinite x → IsNum x
    num = laws.num_of_finite

    in_range : (x : F) → InUnit x → IsNum x
    in_range x h = (laws.num_of_le _ _ h.0).1

    -- From finite measurements and well-formed objects, the six pressures are in [0, 1], the
    -- measurements stay finite, and the objects stay well formed.
    pub derive-IsScored :
        (s : DerivedState F) (frame : SignalFrame F)
        → IsMeasured frame
        → IsCalm s
        → IsCalm (derive s frame).0 × IsScored (derive s frame).1 × IsMeasured (derive s frame).1
    unfolding derive Scheduler.sample Memory.sample Io.sample Thermal.sample Power.sample
        Jitter.sample
    derive-IsScored s frame m c =
        let (_, _, f₁) = Scheduler.sample s.irq_baseline s.scheduler_pressure frame in
        let sched =
          Scheduler.sample-InUnit laws weights s.irq_baseline s.scheduler_pressure frame
            (num _ m.cpu) (num _ m.psi) m.irq (num _ m.softirqs) c.irq_baseline
            c.scheduler_pressure in
        let (_, f₂) = Memory.sample s.memory_pressure f₁ in
        let mem =
          Memory.sample-InUnit laws weights s.memory_pressure f₁ (num _ m.memory)
            (num _ m.psi_memory) c.memory_pressure in
        let (_, f₃) = Io.sample s.io_pressure f₂ in
        let io =
          Io.sample-InUnit laws weights s.io_pressure f₂ (num _ m.disk) (num _ m.network)
            (num _ m.psi_io) c.io_pressure in
        let (_, f₄) = Thermal.sample s.warning_window s.thermal_pressure f₃ in
        let thermal =
          Thermal.sample-InUnit laws weights s.warning_window s.thermal_pressure f₃ c.warning_window
            (num _ m.thermal) (num _ m.cpu_throttle_ratio) (num _ m.cpu) c.thermal_pressure in
        let (_, f₅) = Power.sample s.power_pressure f₄ in
        let power =
          Power.sample-InUnit laws weights s.power_pressure f₄ (num _ m.cpu_throttle_ratio)
            (num _ m.cpu) (in_range _ thermal.1) c.power_pressure in
        let jitter =
          Jitter.Bounds.sample-InUnit laws weights s.intervals s.latency_jitter f₅
            (in_range _ sched.2) (in_range _ io.1) c.intervals c.latency_jitter in
        (
          record {
            irq_baseline = sched.0;
            scheduler_pressure = sched.1;
            memory_pressure = mem.0;
            io_pressure = io.0;
            warning_window = c.warning_window;
            thermal_pressure = thermal.0;
            power_pressure = power.0;
            intervals = jitter.0;
            latency_jitter = jitter.1;
          },
          record {
            scheduler_pressure = sched.2;
            memory_pressure = mem.1;
            io_pressure = io.1;
            thermal_pressure = thermal.1;
            power_pressure = power.1;
            latency_jitter = jitter.2;
          },
          record {
            psi = m.psi;
            psi_memory = m.psi_memory;
            psi_io = m.psi_io;
            cpu = m.cpu;
            irq = m.irq;
            softirqs = m.softirqs;
            memory = m.memory;
            thermal = m.thermal;
            cpu_throttle_ratio = m.cpu_throttle_ratio;
            disk = m.disk;
            network = m.network;
          },
        )

    -- From pressures in [0, 1] and well-formed averages, both risks are in [0, 1] and the averages
    -- stay well formed.
    pub assess-InUnit :
        (s : RiskState F) (frame : SignalFrame F)
        → IsScored frame
        → IsRated s
        → IsRated (assess s frame).0
          × InUnit (assess s frame).1.realtime_risk
          × InUnit (assess s frame).1.saturation_risk
    unfolding assess Realtime.sample Saturation.sample State.sample
    assess-InUnit s frame p r =
        let (_, f₁) = Realtime.sample s.realtime_risk frame in
        let rt =
          Realtime.sample-InUnit laws weights s.realtime_risk frame (in_range _ p.latency_jitter)
            (in_range _ p.scheduler_pressure) (in_range _ p.thermal_pressure)
            (in_range _ p.io_pressure) r.realtime_risk in
        let sat =
          Saturation.sample-InUnit laws weights s.saturation_risk f₁
            (in_range _ p.scheduler_pressure) (in_range _ p.memory_pressure)
            (in_range _ p.io_pressure) (in_range _ p.power_pressure) (in_range _ p.thermal_pressure)
            r.saturation_risk in
        (record { realtime_risk = rt.0; saturation_risk = sat.0 }, rt.1, sat.1)
