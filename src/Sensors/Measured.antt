-- ===== src/Sensors/Measured.antt =====
-- The sensors of src/sensors and the measurements that src/core/agent.cpp relies on.
use hw_agent.Prelude.{
  ◌≡◌, refl, sym, subst, true, false, List, length, Option-cases, inl, inr, codes, arith,
}
use hw_agent.Float.{Float, IsFloat, IsFinite}
use hw_agent.Frame.{SignalFrame}
use hw_agent.Core.Text.{strip_prefix}
use hw_agent.Agent.Signals.{IsMeasured}
use hw_agent.Sensors.Files.{IsWord}
use hw_agent.Sensors.Throttle
use hw_agent.Sensors.Network
use hw_agent.Sensors.Disk
use hw_agent.Sensors.Cpu
use hw_agent.Sensors.Memory
use hw_agent.Sensors.Throttle.{cpu_throttle_ratio-InUnit}
use hw_agent.Sensors.Network.{packet_drop_rate-IsFinite}
use hw_agent.Sensors.Disk.{disk-IsFinite}
use hw_agent.Sensors.Cpu.{cpu-InPercent, read_values}
use hw_agent.Sensors.Memory.{memory-IsFinite}

module _ {F : Type 0} ⦃f : Float F⦄ where
  cpu_frame :
      (l : Cpu.Line) (s : Cpu.Cpu) (frame : SignalFrame F)
      → (Cpu.sample l s frame).2 ≡ record frame { cpu = (Cpu.sample l s frame).2.cpu }
  unfolding Cpu.sample strip_prefix
  cpu_frame Cpu.not_opened s frame = refl
  cpu_frame Cpu.not_seekable s frame = refl
  cpu_frame Cpu.no_line s frame = refl
  cpu_frame (Cpu.line buffer) s frame = elim (Option-cases (strip_prefix (codes "cpu ") buffer)) [
    | inl other ↦ rw other refl
    | inr (cursor, found) ↦ elim (Option-cases (read_values 10 cursor)) [
      | inl bad ↦ rw (found, bad) refl
      | inr (values, read) ↦ rw (found, read) refl
    ]
  ]

  disk_frame :
      (l : Disk.Lines) (s : Disk.Disk F) (frame : SignalFrame F)
      → (Disk.sample l s frame).2 ≡ record frame { disk = (Disk.sample l s frame).2.disk }
  unfolding Disk.sample
  disk_frame Disk.not_opened s frame = refl
  disk_frame Disk.not_seekable s frame = refl
  disk_frame (Disk.lines stats true) s frame = refl
  disk_frame (Disk.lines stats false) s frame = refl

  memory_frame :
      (meminfo vmstat : Memory.Table) (s : Memory.Memory F) (frame : SignalFrame F)
      → (Memory.sample meminfo vmstat s frame).2
        ≡ record frame { memory = (Memory.sample meminfo vmstat s frame).2.memory }
  unfolding Memory.sample
  memory_frame meminfo vmstat s frame = ground arith

  cpu-IsMeasured :
      (frame : SignalFrame F) (x : F)
      → IsMeasured frame
      → IsFinite x
      → IsMeasured (record frame { cpu = x })
  cpu-IsMeasured frame x m h = record {
    psi = m.psi;
    psi_memory = m.psi_memory;
    psi_io = m.psi_io;
    cpu = h;
    irq = m.irq;
    softirqs = m.softirqs;
    memory = m.memory;
    thermal = m.thermal;
    cpu_throttle_ratio = m.cpu_throttle_ratio;
    disk = m.disk;
    network = m.network;
  }

  disk-IsMeasured :
      (frame : SignalFrame F) (x : F)
      → IsMeasured frame
      → IsFinite x
      → IsMeasured (record frame { disk = x })
  disk-IsMeasured frame x m h = record {
    psi = m.psi;
    psi_memory = m.psi_memory;
    psi_io = m.psi_io;
    cpu = m.cpu;
    irq = m.irq;
    softirqs = m.softirqs;
    memory = m.memory;
    thermal = m.thermal;
    cpu_throttle_ratio = m.cpu_throttle_ratio;
    disk = h;
    network = m.network;
  }

  memory-IsMeasured :
      (frame : SignalFrame F) (x : F)
      → IsMeasured frame
      → IsFinite x
      → IsMeasured (record frame { memory = x })
  memory-IsMeasured frame x m h = record {
    psi = m.psi;
    psi_memory = m.psi_memory;
    psi_io = m.psi_io;
    cpu = m.cpu;
    irq = m.irq;
    softirqs = m.softirqs;
    memory = h;
    thermal = m.thermal;
    cpu_throttle_ratio = m.cpu_throttle_ratio;
    disk = m.disk;
    network = m.network;
  }

  network-IsMeasured :
      (frame : SignalFrame F) (x : F)
      → IsMeasured frame
      → IsFinite x
      → IsMeasured (record frame { network = x })
  network-IsMeasured frame x m h = record {
    psi = m.psi;
    psi_memory = m.psi_memory;
    psi_io = m.psi_io;
    cpu = m.cpu;
    irq = m.irq;
    softirqs = m.softirqs;
    memory = m.memory;
    thermal = m.thermal;
    cpu_throttle_ratio = m.cpu_throttle_ratio;
    disk = m.disk;
    network = h;
  }

  throttle-IsMeasured :
      (frame : SignalFrame F) (x : F)
      → IsMeasured frame
      → IsFinite x
      → IsMeasured (record frame { cpu_throttle_ratio = x })
  throttle-IsMeasured frame x m h = record {
    psi = m.psi;
    psi_memory = m.psi_memory;
    psi_io = m.psi_io;
    cpu = m.cpu;
    irq = m.irq;
    softirqs = m.softirqs;
    memory = m.memory;
    thermal = m.thermal;
    cpu_throttle_ratio = h;
    disk = m.disk;
    network = m.network;
  }

  module _ (laws : IsFloat F) where
    pub throttle_sample-IsMeasured :
        (cores : List (Throttle.Core × Throttle.Reading)) (frame : SignalFrame F)
        → IsWord (length cores)
        → IsMeasured frame
        → IsMeasured (Throttle.sample cores frame).2
    unfolding Throttle.sample
    throttle_sample-IsMeasured cores frame w m =
        throttle-IsMeasured frame _ m (cpu_throttle_ratio-InUnit laws cores frame w).1

    pub network_sample-IsMeasured :
        (interfaces : List Network.InterfaceSource) (s : Network.Network) (frame : SignalFrame F)
        → IsMeasured frame
        → IsMeasured (Network.sample interfaces s frame).2
    unfolding Network.sample
    network_sample-IsMeasured interfaces s frame m =
        network-IsMeasured frame _ m (packet_drop_rate-IsFinite laws interfaces s frame)

    pub disk_sample-IsMeasured :
        (disks : Disk.Lines) (s : Disk.Disk F) (frame : SignalFrame F)
        → IsMeasured frame
        → IsMeasured (Disk.sample disks s frame).2
    disk_sample-IsMeasured disks s frame m =
        subst IsMeasured (sym (disk_frame disks s frame))
          (disk-IsMeasured frame _ m (disk-IsFinite laws disks s frame))

    pub cpu_sample-IsMeasured :
        (stat : Cpu.Line) (s : Cpu.Cpu) (frame : SignalFrame F)
        → IsMeasured frame
        → IsMeasured (Cpu.sample stat s frame).2
    cpu_sample-IsMeasured stat s frame m =
        subst IsMeasured (sym (cpu_frame stat s frame))
          (cpu-IsMeasured frame _ m (cpu-InPercent laws stat s frame).2)

    pub memory_sample-IsMeasured :
        (meminfo vmstat : Memory.Table) (s : Memory.Memory F) (frame : SignalFrame F)
        → IsMeasured frame
        → IsMeasured (Memory.sample meminfo vmstat s frame).2
    memory_sample-IsMeasured meminfo vmstat s frame m =
        subst IsMeasured (sym (memory_frame meminfo vmstat s frame))
          (memory-IsMeasured frame _ m (memory-IsFinite laws meminfo vmstat s frame))

    -- Whatever their files hold or fail with, and whatever they remember, the sensors for throttling,
    -- network, disks, CPU and memory turn a measured frame into a measured frame, of up to 2^64 - 1
    -- cores.
    pub sensors-IsMeasured :
        (frame : SignalFrame F) (cores : List (Throttle.Core × Throttle.Reading))
        (interfaces : List Network.InterfaceSource) (network : Network.Network) (disks : Disk.Lines)
        (disk : Disk.Disk F) (stat : Cpu.Line) (cpu : Cpu.Cpu) (meminfo vmstat : Memory.Table)
        (memory : Memory.Memory F)
        → IsWord (length cores)
        → IsMeasured frame
        → IsMeasured (Throttle.sample cores frame).2
          × IsMeasured (Network.sample interfaces network frame).2
          × IsMeasured (Disk.sample disks disk frame).2
          × IsMeasured (Cpu.sample stat cpu frame).2
          × IsMeasured (Memory.sample meminfo vmstat memory frame).2
    sensors-IsMeasured frame cores interfaces network disks disk stat cpu meminfo vmstat memory w
          m =
        (
          throttle_sample-IsMeasured cores frame w m,
          network_sample-IsMeasured interfaces network frame m,
          disk_sample-IsMeasured disks disk frame m,
          cpu_sample-IsMeasured stat cpu frame m,
          memory_sample-IsMeasured meminfo vmstat memory frame m,
        )
