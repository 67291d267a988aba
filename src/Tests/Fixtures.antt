-- ===== src/Tests/Fixtures.antt =====
-- The world of the tests is a clock in nanoseconds. Redis answers every command, or none.
use hw_agent.Prelude.{ℕ, ◌+◌, Bool, true, false, codes, none, some, [], ◌∷◌}
use hw_agent.Float.Fixed.{Fixed, fixed_float}
use hw_agent.Frame.{SignalFrame, stable}
use hw_agent.Platform.{Clock, Hiredis, Double}
use hw_agent.Core.Config.{AgentConfig}
use hw_agent.Sinks.Redis.{RedisTsOptions, RedisTsSink, make_sink}
use hw_agent.Agent.{Agent, Sensors}
use hw_agent.Agent.Build.{make_agent}

abbrev pub clock : Clock ℕ
clock = record {
  unix_now_ns = λ w. (w, w + 1_000_000);
  steady_now_ns = λ w. (w, w + 1_000_000);
  sleep_until = λ t w. t;
}

abbrev pub double : Double Fixed Fixed
double = record {
  of_float = λ x. x;
  of_nat = λ n. fixed_float.of_nat n;
  add = fixed_float.add;
  div = fixed_float.div;
  to_float = λ x. x;
  to_string = λ x. "0";
}

abbrev pub answering : Hiredis ℕ
answering = record {
  connect = λ host port timeout w. (some false, w + 1);
  connect_unix = λ path timeout w. (some false, w + 1);
  command = λ args w. ((some (record { is_error = false; str = none }), false), w + 1);
}

-- A server that refuses connections.
abbrev pub refusing : Hiredis ℕ
refusing = record {
  connect = λ host port timeout w. (none, w);
  connect_unix = λ path timeout w. (none, w);
  command = λ args w. ((none, true), w);
}

abbrev pub nought : Fixed
nought = some 0

abbrev pub zeroed : SignalFrame Fixed
zeroed = record {
  monotonic_ns = 0;
  psi = nought;
  psi_memory = nought;
  psi_io = nought;
  cpu = nought;
  irq = nought;
  softirqs = nought;
  memory = nought;
  thermal = nought;
  cpufreq = nought;
  cpu_throttle_ratio = nought;
  disk = nought;
  network = nought;
  gpu_util = nought;
  gpu_mem_util = nought;
  emc_util = nought;
  gpu_mem_free = nought;
  gpu_temp = nought;
  gpu_clock_ratio = nought;
  gpu_power_ratio = nought;
  gpu_throttle = nought;
  nvml_gpu_util = nought;
  nvml_gpu_temp = nought;
  nvml_gpu_power_ratio = nought;
  tegra_gpu_util = nought;
  tegra_emc_util = nought;
  tegra_gpu_temp = nought;
  tegra_gpu_power_mw = nought;
  scheduler_pressure = nought;
  memory_pressure = nought;
  io_pressure = nought;
  thermal_pressure = nought;
  power_pressure = nought;
  latency_jitter = nought;
  realtime_risk = nought;
  saturation_risk = nought;
  state = stable;
  agent = record {
    heartbeat_ms = 0;
    loop_jitter_ms = nought;
    compute_time_ms = nought;
    redis_latency_ms = nought;
    redis_errors = 0;
    sensor_failures = 0;
    missed_cycles = 0;
  };
}

-- A sensor that reads a busy machine, and one that fails.
abbrev pub busy : SignalFrame Fixed → ℕ → Bool × SignalFrame Fixed × ℕ
busy frame w = (true, record frame { cpu = some 90_000_000; psi = some 8_000_000 }, w + 1000)

abbrev pub failing : SignalFrame Fixed → ℕ → Bool × SignalFrame Fixed × ℕ
failing frame w = (false, frame, w + 1000)

abbrev pub sensors : Sensors Fixed ℕ
sensors = record {
  psi = busy;
  cpu = busy;
  interrupts = failing;
  softirqs = failing;
  memory = failing;
  disk = failing;
  network = failing;
  tegrastats = failing;
  thermal = failing;
  cpu_throttle = failing;
  cpufreq = failing;
  gpu = failing;
}

abbrev pub config : AgentConfig Fixed
config = record {
  tick_interval = 100;
  thermal_throttle_temp_c = some 85_000_000;
  thermal_pressure_warning_window_c = some 30_000_000;
  gpu_device_index = 0;
  publish_health = true;
  stdout_debug = false;
  redis = record { host = codes "127.0.0.1"; port = 6379; unix_socket = []; enabled = true };
  sensor_enabled = (codes "disk", false) ∷ [];
}

abbrev pub agent : Agent Fixed ℕ
agent = (make_agent answering sensors zeroed config 0).0

abbrev pub options : RedisTsOptions
options = record {
  host = codes "127.0.0.1";
  port = 6379;
  unix_socket = [];
  password = "secret";
  db = 2;
  key_prefix = "edge:node";
  connect_timeout_ms = 1000;
  publish_health = true;
  enabled_metrics = "raw:psi" ∷ "risk:state" ∷ [];
}

abbrev pub sink : RedisTsSink
sink = make_sink options

abbrev pub connected : Agent Fixed ℕ
connected = record agent { redis_sink = some sink }
