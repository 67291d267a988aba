-- ===== src/Tests/Boards.antt =====
-- The sensors for thermal zones and tegrastats, samples that fail, and the loop of the program.
use hw_agent.Prelude.{
  arith, ◌≡◌, ◌⊎◌, inr, refl, true, false, none, some, Option, Text, codes, List, [], ◌∷◌, ℕ, ◌+◌,
}
use hw_agent.Float.Fixed.{Fixed, fixed_float}
use hw_agent.Core.Text.{split_at}
use hw_agent.Derived.Ema.{empty}
use hw_agent.Sensors.Cpu
use hw_agent.Sensors.Disk
use hw_agent.Sensors.Softirqs
use hw_agent.Sensors.Interrupts
use hw_agent.Sensors.CpuFreq
use hw_agent.Sensors.Failures.{KeepsOrZero, counts, samples-KeepsOrZero}
use hw_agent.Sensors.Tegrastats.{RawFields, TegraStats, Regexes, parse_lines, read_chunks}
use hw_agent.Sensors.Tegrastats.Chunks.{Agrees, read_chunks-joined}
use hw_agent.Sensors.Tegrastats.Lines.{HasNoLine, parse_lines-HasNoLine}
use hw_agent.Sensors.Tegrastats.Process
use hw_agent.Sensors.Tegrastats.Process.{Posix, exited, would_block}
use hw_agent.Sensors.Tegrastats.Lifetime.{IsAttached, sample-IsAttached}
use hw_agent.Sensors.Gpu.Nvml.{Library, NvmlGpu, make_sensor, destroy}
use hw_agent.Sensors.Gpu.Handles.{Counted, counted, destroy-released}
use hw_agent.Agent.Cycle.{run_for_ticks}
use hw_agent.Main.{main_loop, without_stats, main_loop-run_for_ticks}
use hw_agent.Tests.Fixtures.{zeroed, clock, double, answering, agent}

abbrev pub fields : RawFields Fixed
fields = record {
  gpu_util_pct = some 0;
  emc_util_pct = some 0;
  total_rail_power_mw = some 0;
  rail_power_mw = [];
  temperatures_c = [];
}

-- Every line says that the GPU is at 35 %.
abbrev pub regexes : Regexes
regexes = record {
  gpu = λ line. some (some (codes "35"));
  emc = λ line. some none;
  rails = λ line. ([], true);
  temps = λ line. ([], true);
}

abbrev pub strtof : Text → Option Fixed
strtof text = none

parse_lines-HasNoLine_example :
    let (raw, rest, result) = parse_lines strtof regexes 3 (codes "a\nb") fields false in
    (result ≡ none) ⊎ HasNoLine rest
parse_lines-HasNoLine_example =
    parse_lines-HasNoLine strtof regexes 3 (codes "a\nb") fields false (omega arith)

read_chunks-joined_example :
    Agrees
      (read_chunks strtof regexes (codes "a" ∷ codes "\nb" ∷ []) [] fields false)
      (read_chunks strtof regexes (codes "a\nb" ∷ []) [] fields false)
unfolding split_at
read_chunks-joined_example =
    read_chunks-joined strtof regexes (codes "a" ∷ codes "\nb" ∷ []) [] fields false refl

abbrev pub posix : Posix ℕ
posix = record {
  pipe = λ w. (true, w);
  fork = λ w. (true, w);
  set_non_blocking = λ w. (true, w);
  close_read = λ w. w + 1;
  close_write = λ w. w + 1;
  terminate = λ w. w + 1;
  kill = λ w. w + 1;
  wait_no_hang = λ w. (exited, w + 1);
  wait = λ w. w;
  usleep = λ t w. w + t;
}

abbrev pub tegra : TegraStats Fixed
tegra = record { reading = true; has_child = true; enabled = true; read_buffer = []; raw = fields }

sample-IsAttached_example :
    let (ok, s', frame') = (Process.sample posix strtof regexes [] would_block tegra zeroed 0).0 in
    IsAttached s' × ((ok ≡ true) ⊎ (s'.enabled ≡ false))
sample-IsAttached_example =
    sample-IsAttached posix strtof regexes [] would_block tegra zeroed 0 (refl, inr refl)

main_loop-run_for_ticks_example :
    main_loop double clock answering 3 agent 0
    ≡ without_stats double clock answering (run_for_ticks double clock answering 3 agent 0)
main_loop-run_for_ticks_example = main_loop-run_for_ticks double clock answering 2 agent 0

abbrev interrupts : Interrupts.Interrupts
interrupts = record { prev_total = 40; prev_timestamp_ns = 5; has_prev = true }

abbrev softirqs : Softirqs.Softirqs Fixed
softirqs = record { prev_total = 40; baseline_delta = some 2_000_000; has_prev = true }

abbrev disk : Disk.Disk Fixed
disk = record {
  raw = Disk.no_fields;
  disk_wait_estimation_ms = some 0;
  prev_completed = 30;
  prev_weighted_io_ms = 100;
  has_prev = true;
}

abbrev cpu : Cpu.Cpu
cpu = record { prev_total = 500; prev_idle = 400; has_prev = true }

abbrev table : Interrupts.Lines
table = Interrupts.lines (codes "cpu 1 2 3\n" ∷ codes "intr 70 9 1\n" ∷ [])

abbrev frequencies : List CpuFreq.Line
frequencies = CpuFreq.line (codes "1800000\n") ∷ CpuFreq.no_line ∷ []

-- One disk, and an error behind its line.
abbrev disks : Disk.Lines
disks =
    Disk.lines
      (some (record {
        name = codes "sda";
        reads_completed = 7;
        writes_completed = 5;
        io_in_progress = 0;
        io_ms = 9;
        weighted_io_ms = 11;
      })
        ∷ [])
      true

samples-KeepsOrZero_example :
    let (ok₁, cpu', frame₁) = Cpu.sample Cpu.no_line cpu zeroed in
    let (ok₂, disk', frame₂) = Disk.sample disks disk zeroed in
    let (ok₃, softirqs', frame₃) = Softirqs.sample (Softirqs.filled ([] ∷ [])) softirqs zeroed in
    let (ok₄, interrupts', frame₄) = Interrupts.sample double table interrupts zeroed in
    let (ok₅, ema', frame₅) = CpuFreq.sample double frequencies empty zeroed in
    KeepsOrZero cpu ok₁ cpu' frame₁.cpu
    × KeepsOrZero (counts disk) ok₂ (counts disk') frame₂.disk
    × KeepsOrZero softirqs ok₃ softirqs' frame₃.softirqs
    × KeepsOrZero interrupts ok₄ interrupts' frame₄.irq
    × KeepsOrZero empty ok₅ ema' frame₅.cpufreq
samples-KeepsOrZero_example =
    samples-KeepsOrZero double Cpu.no_line cpu disks disk (Softirqs.filled ([] ∷ [])) softirqs table
      interrupts frequencies empty zeroed

-- NVML without one function: the clock of the GPU.
abbrev pub nvml : Library ℕ
nvml = record {
  dlopen = λ w. (true, w);
  dlsym = λ symbol w. (true, w);
  dlclose = λ w. w;
  init = λ w. (true, w);
  shutdown = λ w. w;
  device_handle_by_index = λ i w. (true, w);
  utilization_rates = λ w. (some (35, 20), w + 1);
  memory_info = λ w. (some 4_000_000_000, w + 1);
  temperature = λ w. (some 61, w + 1);
  clock_info = λ w. (none, w + 1);
  max_clock_info = λ w. (some 1800, w + 1);
  power_usage = λ w. (some 90_000, w + 1);
  enforced_power_limit = λ w. (some 120_000, w + 1);
  current_clocks_throttle_reasons = λ w. (some 0, w + 1);
}

abbrev pub gpu : NvmlGpu
gpu = record {
  loaded = true;
  initialized = true;
  available = true;
  max_graphics_clock_mhz = 1800;
  power_limit_mw = 120_000;
}

abbrev unused_library : Counted ℕ
unused_library = record { world = 5; handles = 2; inits = 1 }

destroy-released_example :
    let (s, c') = make_sensor (counted nvml) 0 unused_library in
    let (s', c'') = destroy (counted nvml) s c' in (c''.handles ≡ 2) × (c''.inits ≡ 1)
destroy-released_example = destroy-released nvml 0 unused_library
