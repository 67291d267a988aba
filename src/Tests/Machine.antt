-- ===== src/Tests/Machine.antt =====
-- The agent with its twelve sensors, over files that hold the same at each read.
use hw_agent.Prelude.{
  text_eq, ℕ, ◌+◌, ◌*◌, ◌/◌, ◌==◌, ◌≡◌, refl, arith, true, false, Text, codes, Option, none, some,
  [], ◌∷◌, if◌then◌else◌,
}
use hw_agent.Core.Text.{is_digit, strip_prefix}
use hw_agent.Agent.Machine.Frames.{IsPressure, ReadsFinite}
use hw_agent.Float.Fixed.{Fixed, fixed_float, Fixed-IsFloat, Fixed-HasWeights}
use hw_agent.Platform.{Clock, Hiredis, Double}
use hw_agent.Sensors.Files
use hw_agent.Sensors.Files.{not_a_number}
use hw_agent.Sensors.Stdio.{Stdio}
use hw_agent.Sensors.Psi
use hw_agent.Sensors.Cpu
use hw_agent.Sensors.CpuFreq
use hw_agent.Sensors.Interrupts
use hw_agent.Sensors.Interrupts.Rate.{HasRates}
use hw_agent.Sensors.Softirqs
use hw_agent.Sensors.Memory
use hw_agent.Sensors.Disk
use hw_agent.Sensors.Tegrastats.Process.{would_block}
use hw_agent.Sensors.Thermal
use hw_agent.Sensors.Thermal.Hottest.{IsStored}
use hw_agent.Agent.{Agent, AgentStats}
use hw_agent.Agent.Build.{make_agent}
use hw_agent.Agent.Cycle.{run_for_ticks}
use hw_agent.Agent.Frames.{IsInRange}
use hw_agent.Agent.Machine.{Reads, Calls, Machine, members}
use hw_agent.Agent.Machine.Run.{run_members-IsInRange}
use hw_agent.Tests.Fixtures.{zeroed, config}
use hw_agent.Tests.Agents.{zeroed-IsMeasured}
use hw_agent.Tests.Boards.{posix, nvml, gpu, regexes, strtof, tegra}

-- Quotients of two numbers.
abbrev Quotient : Type 0
Quotient = ℕ × ℕ

abbrev double : Double Fixed Quotient
double = record {
  of_float = λ x. elim x [ none ↦ (0, 0) | some n ↦ (n, 1_000_000) ];
  of_nat = λ n. (n, 1);
  add = λ x y. (x.0 * y.1 + y.0 * x.1, x.1 * y.1);
  div = λ x y. (x.0 * y.1, x.1 * y.0);
  to_float = λ x. if x.1 == 0 then none else some (x.0 * 1_000_000 / x.1);
  to_string = λ x. "0";
}

double-HasRates : HasRates double
double-HasRates count time_ns h k above = ground (arith, above)

-- A text that starts with a digit reads as 3.5, "inf" as what is not finite.
abbrev avg10 : Text → Option Fixed
avg10 [] = none
avg10 (c ∷ cs) =
    if is_digit c
    then some (some 3_500_000)
    else if text_eq (c ∷ cs) (codes "inf")
    then some none
    else none

avg10-ReadsFinite : ReadsFinite avg10
avg10-ReadsFinite c value none h e = ground (arith, h, e)
avg10-ReadsFinite c value (some n) h e = refl

abbrev stdio : Stdio ℕ ℕ
stdio = record { fopen = λ path w. (some w, w + 1); fclose = λ file w. w }

abbrev reads : Reads ℕ ℕ
reads = record {
  pressure = λ w. (
    (Psi.bytes (codes "some avg10=3.50"), Psi.bytes (codes "some avg10=3.50"), Psi.not_opened),
    w + 1,
  );
  stat = λ w. (Cpu.line (codes "cpu 10 0 10 80 0 0 0 0 0 0"), w + 1);
  intr = λ w. (Interrupts.lines (codes "intr 500 1 2" ∷ []), w + 1);
  softirqs = λ w. (Softirqs.filled (codes "NET_RX: 10 20\n" ∷ []), w + 1);
  memory = λ w. (
    (
      Memory.entries (some (codes "MemTotal", 1000) ∷ some (codes "MemAvailable", 250) ∷ []) false,
      Memory.not_opened,
    ),
    w + 1,
  );
  diskstats = λ w. (Disk.not_opened, w + 1);
  interfaces = λ w. ([], w + 1);
  tegrastats = λ w. ((codes "GR3D_FREQ 35%\n" ∷ [], would_block), w + 1);
  zone = λ file w. (Thermal.holds false 48_500, w + 1);
  core = λ w. (
    λ i. record {
      core_throttle_count_file = Files.holds w;
      package_throttle_count_file = not_a_number;
    },
    w + 1,
  );
  cpufreq = λ w. (CpuFreq.line (codes "1500000\n") ∷ [], w + 1);
}

reads-IsPressure :
    (w : ℕ)
    → let ((cpu, memory, io), _) = reads.pressure w in
      IsPressure cpu × IsPressure memory × IsPressure io
unfolding Psi.behind_needle strip_prefix is_digit
reads-IsPressure w = (refl, refl, tt)

zone-IsStored : (file w : ℕ) → IsStored (reads.zone file w).0
zone-IsStored file w = omega arith

abbrev calls : Calls Fixed Quotient ℕ ℕ
calls = record {
  stdio = stdio;
  posix = posix;
  nvml = nvml;
  regexes = regexes;
  avg10 = avg10;
  celsius = strtof;
  double = double;
}

abbrev machine : Machine Fixed ℕ ℕ
machine = record {
  outer = 5;
  cpu_sensor = record { prev_total = 0; prev_idle = 0; has_prev = false };
  interrupts_sensor = record { prev_total = 0; prev_timestamp_ns = 0; has_prev = false };
  softirqs_sensor = record {
    state = record { prev_total = 0; baseline_delta = some 0; has_prev = false };
    bounded = (refl, refl);
  };
  memory_sensor = record {
    raw = record {
      mem_total_kb = 0;
      mem_available_kb = 0;
      dirty_kb = 0;
      writeback_kb = 0;
      pgscan_total = 0;
      pgsteal_total = 0;
    };
    reclaim_activity = some 0;
    dirty_writeback_pressure = some 0;
    prev_pgsteal_total = 0;
    has_prev = false;
  };
  disk_sensor = record {
    raw = Disk.no_fields;
    disk_wait_estimation_ms = some 0;
    prev_completed = 0;
    prev_weighted_io_ms = 0;
    has_prev = false;
  };
  network_sensor = record { prev_total_packets = 0; prev_total_drops = 0; has_prev = false };
  tegrastats_sensor = tegra;
  thermal_sensor = record {
    state = record {
      zones =
          record {
            name = codes "CPU";
            temp_path = codes "/sys/class/thermal/thermal_zone0/temp";
            file = none;
          }
          ∷ [];
      owns_files = true;
      raw = record {
        hottest_zone = [];
        hottest_temp_c = some 0;
        throttle_temp_c = some 85_000_000;
        headroom_c = some 0;
      };
    };
    finite = refl;
  };
  cpu_throttle_sensor = record {
    cores =
        record {
          prev_core_throttle_count = 0;
          prev_package_throttle_count = 0;
          has_prev_counts = false;
        }
        ∷ [];
    word = omega arith;
  };
  cpufreq_sensor = record { value = some 0; seeded = false };
  gpu_sensor = gpu;
}

-- Each reading takes a millisecond.
abbrev clock : Clock (Machine Fixed ℕ ℕ)
clock = record {
  unix_now_ns = λ m. (m.outer, record m { outer = m.outer + 1_000_000 });
  steady_now_ns = λ m. (m.outer, record m { outer = m.outer + 1_000_000 });
  sleep_until = λ t m. record m { outer = t };
}

abbrev redis : Hiredis (Machine Fixed ℕ ℕ)
redis = record {
  connect = λ host port timeout m. (some false, m);
  connect_unix = λ path timeout m. (some false, m);
  command = λ args m. ((some (record { is_error = false; str = none }), false), m);
}

run_members-IsInRange_example :
    let sensors = members Fixed-IsFloat calls reads zone-IsStored in
    let (agent, m') = make_agent redis sensors zeroed config machine in
    (out : AgentStats × Agent Fixed (Machine Fixed ℕ ℕ) × Machine Fixed ℕ ℕ) × (run_for_ticks double
        clock redis 12 agent m'
      ≡ some out)
    × IsInRange out.1.frame
run_members-IsInRange_example =
    run_members-IsInRange Fixed-IsFloat Fixed-HasWeights calls reads zone-IsStored reads-IsPressure
      avg10-ReadsFinite double-HasRates clock redis zeroed config 11 machine zeroed-IsMeasured refl
