-- ===== src/Agent/Frames.antt =====
-- What the fields of a frame say does not depend on its clock, its health counters or its risks.
use hw_agent.Prelude.{ℕ, Bool, true, false, if◌then◌else◌}
use hw_agent.Float.{Float, InUnit}
use hw_agent.Frame.{SignalFrame, AgentHealth}
use hw_agent.Risk.Realtime
use hw_agent.Risk.Saturation
use hw_agent.Risk.State
use hw_agent.Agent.{RiskState}
use hw_agent.Agent.Scoring.{assess}
use hw_agent.Agent.Signals.{IsMeasured, IsScored}

pub if_keeps :
    {A : Type 0} (P : A → Type 0) (b : Bool) (x y : A) → P x → P y → P (if b then x else y)
if_keeps P true x y hx hy = hx
if_keeps P false x y hx hy = hy

module _ {F : Type 0} ⦃f : Float F⦄ where
  -- All the signals of a frame that a cycle has computed.
  pub record IsInRange (frame : SignalFrame F) : Type 0 where
    pub pressures : IsScored frame
    pub realtime_risk : InUnit frame.realtime_risk
    pub saturation_risk : InUnit frame.saturation_risk

  -- the health counters are no measurements
  pub health-IsMeasured :
      (frame : SignalFrame F) (h : AgentHealth F)
      → IsMeasured frame
      → IsMeasured (record frame { agent = h })
  health-IsMeasured frame h m = record {
    psi = m.psi;
    psi_memory = m.psi_memory;
    psi_io = m.psi_io;
    cpu = m.cpu;
    irq = m.irq;
    softirqs = m.softirqs;
    memory = m.memory;
    thermal = m.thermal;
    cpu_throttle_ratio = m.cpu_throttle_ratio;
    disk = m.disk;
    network = m.network;
  }

  pub stamp-IsMeasured :
      (frame : SignalFrame F) (now : ℕ) (h : AgentHealth F)
      → IsMeasured frame
      → IsMeasured (record frame { monotonic_ns = now; agent = h })
  stamp-IsMeasured frame now h m = record {
    psi = m.psi;
    psi_memory = m.psi_memory;
    psi_io = m.psi_io;
    cpu = m.cpu;
    irq = m.irq;
    softirqs = m.softirqs;
    memory = m.memory;
    thermal = m.thermal;
    cpu_throttle_ratio = m.cpu_throttle_ratio;
    disk = m.disk;
    network = m.network;
  }

  -- the risks are no measurements and no pressures
  pub assess-IsMeasured :
      (s : RiskState F) (frame : SignalFrame F) → IsMeasured frame → IsMeasured (assess s frame).1
  unfolding assess Realtime.sample Saturation.sample State.sample
  assess-IsMeasured s frame m = record {
    psi = m.psi;
    psi_memory = m.psi_memory;
    psi_io = m.psi_io;
    cpu = m.cpu;
    irq = m.irq;
    softirqs = m.softirqs;
    memory = m.memory;
    thermal = m.thermal;
    cpu_throttle_ratio = m.cpu_throttle_ratio;
    disk = m.disk;
    network = m.network;
  }

  pub assess-IsScored :
      (s : RiskState F) (frame : SignalFrame F) → IsScored frame → IsScored (assess s frame).1
  unfolding assess Realtime.sample Saturation.sample State.sample
  assess-IsScored s frame p = record {
    scheduler_pressure = p.scheduler_pressure;
    memory_pressure = p.memory_pressure;
    io_pressure = p.io_pressure;
    thermal_pressure = p.thermal_pressure;
    power_pressure = p.power_pressure;
    latency_jitter = p.latency_jitter;
  }

  pub health-IsInRange :
      (frame : SignalFrame F) (h : AgentHealth F)
      → IsInRange frame
      → IsInRange (record frame { agent = h })
  health-IsInRange frame h r = record {
    pressures = record {
      scheduler_pressure = r.pressures.scheduler_pressure;
      memory_pressure = r.pressures.memory_pressure;
      io_pressure = r.pressures.io_pressure;
      thermal_pressure = r.pressures.thermal_pressure;
      power_pressure = r.pressures.power_pressure;
      latency_jitter = r.pressures.latency_jitter;
    };
    realtime_risk = r.realtime_risk;
    saturation_risk = r.saturation_risk;
  }
