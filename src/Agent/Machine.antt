-- ===== src/Agent/Machine.antt =====
-- The agent of src/core/agent.cpp with the sensors of src/sensors as its members: `register_sensors`
-- there, whose functions call `sample` of a member, over a world that holds the members.
pub mod Frames
pub mod Measures
pub mod Run
use hw_agent.Prelude.{
  ℕ, suc, ap, refl, ◌≡◌, ◌∙◌, Bool, false, Text, Option, List, [], ◌∷◌, length, ◌+◌, if◌then◌else◌,
}
use hw_agent.Float.{Float, IsFloat, IsFinite}
use hw_agent.Frame.{SignalFrame}
use hw_agent.Platform.{Double}
use hw_agent.Derived.Ema.{Ema}
use hw_agent.Agent.{Sensors, Sample}
use hw_agent.Sensors.Files.{IsWord}
use hw_agent.Sensors.Stdio.{Stdio}
use hw_agent.Sensors.Psi
use hw_agent.Sensors.Cpu
use hw_agent.Sensors.Interrupts
use hw_agent.Sensors.Softirqs
use hw_agent.Sensors.Softirqs.Burst
use hw_agent.Sensors.Softirqs.Burst.{IsBounded}
use hw_agent.Sensors.Memory
use hw_agent.Sensors.Disk
use hw_agent.Sensors.Network
use hw_agent.Sensors.Tegrastats.{TegraStats, Regexes}
use hw_agent.Sensors.Tegrastats.Process
use hw_agent.Sensors.Tegrastats.Process.{Posix, Ending}
use hw_agent.Sensors.Thermal
use hw_agent.Sensors.Thermal.{ThermalSensor, TempFile}
use hw_agent.Sensors.Thermal.Headroom
use hw_agent.Sensors.Thermal.Hottest.{IsStored}
use hw_agent.Sensors.Throttle
use hw_agent.Sensors.CpuFreq
use hw_agent.Sensors.Gpu.{collect_none}
use hw_agent.Sensors.Gpu.Nvml
use hw_agent.Sensors.Gpu.Nvml.{NvmlGpu, Library}
use hw_agent.Sensors.Softirqs.{Softirqs}

-- What the next sample of each sensor reads.
pub record Reads (H W : Type 0) : Type 0 where
  pub pressure : W → (Psi.Bytes × Psi.Bytes × Psi.Bytes) × W
  pub stat : W → Cpu.Line × W
  pub intr : W → Interrupts.Lines × W
  pub softirqs : W → Softirqs.Buffers × W
  -- /proc/meminfo and /proc/vmstat
  pub memory : W → (Memory.Table × Memory.Table) × W
  pub diskstats : W → Disk.Lines × W
  pub interfaces : W → List Network.InterfaceSource × W
  -- the chunks of the pipe, and how they end
  pub tegrastats : W → (List Text × Ending) × W
  pub zone : H → W → TempFile × W
  -- the files of a core, by its place
  pub core : W → (ℕ → Throttle.Reading) × W
  pub cpufreq : W → List CpuFreq.Line × W

-- What the sensors call beside their files.
pub record Calls (F D H W : Type 0) : Type 0 where
  pub stdio : Stdio H W
  pub posix : Posix W
  pub nvml : Library W
  pub regexes : Regexes
  -- std::strtof of the sensor for pressures and of that for tegrastats
  pub avg10 : Text → Option F
  pub celsius : Text → Option F
  pub double : Double F D

pub record ThrottleMember : Type 0 where
  pub cores : List Throttle.Core
  pub word : IsWord (length cores)

module _ (F : Type 0) ⦃f : Float F⦄ where
  -- The states that have an invariant stand with it: their samples keep it.
  pub record SoftirqsMember : Type 0 where
    pub state : Softirqs F
    pub bounded : IsBounded state

  pub record ThermalMember (H : Type 0) : Type 0 where
    pub state : ThermalSensor F H
    pub finite : IsFinite state.raw.throttle_temp_c

  -- The members, and the rest of the world.
  pub record Machine (H W : Type 0) : Type 0 where
    pub outer : W
    pub cpu_sensor : Cpu.Cpu
    pub interrupts_sensor : Interrupts.Interrupts
    pub softirqs_sensor : SoftirqsMember
    pub memory_sensor : Memory.Memory F
    pub disk_sensor : Disk.Disk F
    pub network_sensor : Network.Network
    pub tegrastats_sensor : TegraStats F
    pub thermal_sensor : ThermalMember H
    pub cpu_throttle_sensor : ThrottleMember
    pub cpufreq_sensor : Ema F
    pub gpu_sensor : NvmlGpu

-- The cores from a place on, with their files.
abbrev pub with_files :
    ℕ → (ℕ → Throttle.Reading) → List Throttle.Core → List (Throttle.Core × Throttle.Reading)
with_files i files [] = []
with_files i files (core ∷ rest) = (core, files i) ∷ with_files (i + 1) files rest

pub length-sample_cores :
    (sources : List (Throttle.Core × Throttle.Reading))
    → length (Throttle.sample_cores sources).2 ≡ length sources
unfolding Throttle.sample_cores
length-sample_cores [] = refl
length-sample_cores ((core, files) ∷ rest) = ap suc (length-sample_cores rest)

pub length-with_files :
    (i : ℕ) (files : ℕ → Throttle.Reading) (cores : List Throttle.Core)
    → length (with_files i files cores) ≡ length cores
length-with_files i files [] = refl
length-with_files i files (core ∷ rest) = ap suc (length-with_files (i + 1) files rest)

module _ {F : Type 0} ⦃f : Float F⦄ where
  pub length-sample :
      (sources : List (Throttle.Core × Throttle.Reading)) (frame : SignalFrame F)
      → length (Throttle.sample sources frame).1 ≡ length sources
  unfolding Throttle.sample
  length-sample sources frame = length-sample_cores sources

module _ {F D H W : Type 0} ⦃f : Float F⦄ (laws : IsFloat F) (calls : Calls F D H W)
    (reads : Reads H W) (stored : (file : H) (w : W) → IsStored (reads.zone file w).0) where
  abbrev World : Type 0
  World = Machine F H W

  unfoldable pub sample_psi : Sample F World
  sample_psi frame m =
      let ((cpu, memory, io), w) = reads.pressure m.outer in
      let (ok, frame') = Psi.sample calls.avg10 cpu memory io frame in
      (ok, frame', record m { outer = w })

  unfoldable pub sample_cpu : Sample F World
  sample_cpu frame m =
      let (stat, w) = reads.stat m.outer in
      let (ok, s, frame') = Cpu.sample stat m.cpu_sensor frame in
      (ok, frame', record m { outer = w; cpu_sensor = s })

  unfoldable pub sample_interrupts : Sample F World
  sample_interrupts frame m =
      let (stat, w) = reads.intr m.outer in
      let (ok, s, frame') = Interrupts.sample calls.double stat m.interrupts_sensor frame in
      (ok, frame', record m { outer = w; interrupts_sensor = s })

  unfoldable pub sample_softirqs : Sample F World
  sample_softirqs frame m =
      let (buffers, w) = reads.softirqs m.outer in
      let old = m.softirqs_sensor in
      let (ok, s, frame') = Softirqs.sample buffers old.state frame in
      let kept = (Softirqs.Burst.sample-InUnit laws buffers old.state frame old.bounded).0 in
      (ok, frame', record m { outer = w; softirqs_sensor = record { state = s; bounded = kept } })

  unfoldable pub sample_memory : Sample F World
  sample_memory frame m =
      let ((meminfo, vmstat), w) = reads.memory m.outer in
      let (ok, s, frame') = Memory.sample meminfo vmstat m.memory_sensor frame in
      (ok, frame', record m { outer = w; memory_sensor = s })

  unfoldable pub sample_disk : Sample F World
  sample_disk frame m =
      let (stats, w) = reads.diskstats m.outer in
      let (ok, s, frame') = Disk.sample stats m.disk_sensor frame in
      (ok, frame', record m { outer = w; disk_sensor = s })

  unfoldable pub sample_network : Sample F World
  sample_network frame m =
      let (interfaces, w) = reads.interfaces m.outer in
      let (ok, s, frame') = Network.sample interfaces m.network_sensor frame in
      (ok, frame', record m { outer = w; network_sensor = s })

  unfoldable pub sample_tegrastats : Sample F World
  sample_tegrastats frame m =
      let ((chunks, ending), w) = reads.tegrastats m.outer in
      let ((ok, s, frame'), w') =
        Process.sample calls.posix calls.celsius calls.regexes chunks ending m.tegrastats_sensor
          frame w in
      (ok, frame', record m { outer = w'; tegrastats_sensor = s })

  unfoldable pub sample_thermal : Sample F World
  sample_thermal frame m =
      let old = m.thermal_sensor in
      let ((ok, s, frame'), w) = Thermal.sample calls.stdio reads.zone old.state frame m.outer in
      let kept =
        (Thermal.Headroom.sample-IsFinite laws calls.stdio reads.zone stored old.state frame m.outer
          old.finite).1 in
      (
        ok,
        frame',
        record m { outer = w; thermal_sensor = record { state = s; finite = rw kept old.finite } },
      )

  unfoldable pub sample_cpu_throttle : Sample F World
  sample_cpu_throttle frame m =
      let (files, w) = reads.core m.outer in
      let old = m.cpu_throttle_sensor in
      let sources = with_files 0 files old.cores in
      let (ok, cores, frame') = Throttle.sample sources frame in
      let same = length-sample sources frame ∙ length-with_files 0 files old.cores in
      let member : ThrottleMember = record { cores = cores; word = rw same old.word } in
      (ok, frame', record m { outer = w; cpu_throttle_sensor = member })

  unfoldable pub sample_cpufreq : Sample F World
  sample_cpufreq frame m =
      let (files, w) = reads.cpufreq m.outer in
      let (ok, s, frame') = CpuFreq.sample calls.double files m.cpufreq_sensor frame in
      (ok, frame', record m { outer = w; cpufreq_sensor = s })

  -- The sensor without a GPU, if that of NVML is not available.
  unfoldable pub sample_gpu : Sample F World
  sample_gpu frame m =
      let (ok, frame', w) = Nvml.collect calls.nvml m.gpu_sensor frame m.outer in
      let (ok', default) = collect_none frame in
      if m.gpu_sensor.available then (ok, frame', record m { outer = w }) else (ok', default, m)

  -- The functions that register_sensors registers.
  unfoldable pub members : Sensors F World
  members = record {
    psi = sample_psi;
    cpu = sample_cpu;
    interrupts = sample_interrupts;
    softirqs = sample_softirqs;
    memory = sample_memory;
    disk = sample_disk;
    network = sample_network;
    tegrastats = sample_tegrastats;
    thermal = sample_thermal;
    cpu_throttle = sample_cpu_throttle;
    cpufreq = sample_cpufreq;
    gpu = sample_gpu;
  }
