-- ===== src/Sensors/Streams.antt =====
-- The constructors and destructors in src/sensors of the sensors whose paths are fixed, and of
-- CpuFreqSensor. What a destructor sets to null dies with its sensor.
pub mod Released
use hw_agent.Prelude.{
  Bool, true, false, Text, codes, Option, none, some, List, [], ◌∷◌, if◌then◌else◌,
}
use hw_agent.Sensors.Stdio.{Stdio, close_file}

-- `file_` and `owns_file_` of CpuSensor, InterruptsSensor and SoftirqsSensor, `diskstats_` and
-- `owns_file_` of DiskSensor.
pub record Stream (H : Type 0) : Type 0 where
  pub file : Option H
  pub owns_file : Bool

-- `meminfo_`, `vmstat_` and `owns_files_` of MemorySensor.
pub record MemoryFiles (H : Type 0) : Type 0 where
  pub meminfo : Option H
  pub vmstat : Option H
  pub owns_files : Bool

-- The three elements of `sources_`, by their order, and `owns_files_` of PsiSensor.
pub record PsiFiles (H : Type 0) : Type 0 where
  pub cpu : Option H
  pub memory : Option H
  pub io : Option H
  pub owns_files : Bool

-- `files_` and `owns_files_` of CpuFreqSensor.
pub record FreqFiles (H : Type 0) : Type 0 where
  pub files : List (Option H)
  pub owns_files : Bool

-- A pointer that is not null is pushed back.
unfoldable pub push_open : {H : Type 0} → Option H → List (Option H) → List (Option H)
push_open none files = files
push_open (some file) files = some file ∷ files

module _ {H W : Type 0} (stdio : Stdio H W) where
  abbrev pub open_stream : Text → W → Stream H × W
  open_stream path w =
      let (file, w') = stdio.fopen path w in (record { file = file; owns_file = true }, w')

  abbrev pub close_stream : Stream H → W → W
  close_stream s w = if s.owns_file then close_file stdio s.file w else w

  unfoldable pub open_cpu : W → Stream H × W
  open_cpu w = open_stream (codes "/proc/stat") w

  unfoldable pub close_cpu : Stream H → W → W
  unfolding close_file
  close_cpu s w = close_stream s w

  unfoldable pub open_interrupts : W → Stream H × W
  open_interrupts w = open_stream (codes "/proc/stat") w

  unfoldable pub close_interrupts : Stream H → W → W
  unfolding close_file
  close_interrupts s w = close_stream s w

  unfoldable pub open_softirqs : W → Stream H × W
  open_softirqs w = open_stream (codes "/proc/softirqs") w

  unfoldable pub close_softirqs : Stream H → W → W
  unfolding close_file
  close_softirqs s w = close_stream s w

  unfoldable pub open_disk : W → Stream H × W
  open_disk w = open_stream (codes "/proc/diskstats") w

  unfoldable pub close_disk : Stream H → W → W
  unfolding close_file
  close_disk s w = close_stream s w

  unfoldable pub open_memory : W → MemoryFiles H × W
  open_memory w =
      let (meminfo, w₁) = stdio.fopen (codes "/proc/meminfo") w in
      let (vmstat, w₂) = stdio.fopen (codes "/proc/vmstat") w₁ in
      (record { meminfo = meminfo; vmstat = vmstat; owns_files = true }, w₂)

  unfoldable pub close_memory : MemoryFiles H → W → W
  unfolding close_file
  close_memory s w =
      let w₁ = if s.owns_files then close_file stdio s.meminfo w else w in
      if s.owns_files then close_file stdio s.vmstat w₁ else w₁

  unfoldable pub open_psi : W → PsiFiles H × W
  open_psi w =
      let (cpu, w₁) = stdio.fopen (codes "/proc/pressure/cpu") w in
      let (memory, w₂) = stdio.fopen (codes "/proc/pressure/memory") w₁ in
      let (io, w₃) = stdio.fopen (codes "/proc/pressure/io") w₂ in
      (record { cpu = cpu; memory = memory; io = io; owns_files = true }, w₃)

  unfoldable pub close_psi : PsiFiles H → W → W
  unfolding close_file
  close_psi s w =
      let w₁ = close_file stdio s.cpu w in
      let w₂ = close_file stdio s.memory w₁ in if s.owns_files then close_file stdio s.io w₂ else w

  -- The loop over what glob found, which keeps the files that open.
  unfoldable pub open_matches : List Text → W → List (Option H) × W
  unfolding push_open
  open_matches [] w = ([], w)
  open_matches (path ∷ rest) w =
      let (file, w') = stdio.fopen path w in
      let (files, w'') = open_matches rest w' in (push_open file files, w'')

  -- `none` if glob fails.
  unfoldable pub open_cpufreq : Option (List Text) → W → FreqFiles H × W
  unfolding open_matches
  open_cpufreq none w = (record { files = []; owns_files = true }, w)
  open_cpufreq (some matches) w =
      let (files, w') = open_matches matches w in (record { files = files; owns_files = true }, w')

  unfoldable pub close_all : List (Option H) → W → W
  unfolding close_file
  close_all [] w = w
  close_all (file ∷ rest) w = close_all rest (close_file stdio file w)

  unfoldable pub close_cpufreq : FreqFiles H → W → W
  unfolding close_all
  close_cpufreq s w = if s.owns_files then close_all s.files w else w
