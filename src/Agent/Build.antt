-- ===== src/Agent/Build.antt =====
-- The constructor of `Agent` in src/core/agent.cpp.
use hw_agent.Prelude.{true, false, Option, none, some, if◌then◌else◌}
use hw_agent.Float.{Float}
use hw_agent.Frame.{SignalFrame, stable}
use hw_agent.Platform.{Hiredis}
use hw_agent.Core.Config.{AgentConfig}
use hw_agent.Derived.Ema
use hw_agent.Derived.Ema.{Ema}
use hw_agent.Derived.Jitter
use hw_agent.Derived.Thermal
use hw_agent.Sinks.Redis.{RedisTsSink, RedisTsOptions, make_sink}
use hw_agent.Sinks.Redis.Connection.{check_connectivity}
use hw_agent.Agent.{Agent, DerivedState, RiskState, Sensors, register_sensors}
use hw_agent.Agent.Metrics.{enabled_redis_metrics}

module _ {F : Type 0} ⦃f : Float F⦄ where
  -- The objects of src/derived and src/risk as the constructor leaves them.
  unfoldable pub initial_derived : F → DerivedState F
  unfolding Ema.empty Thermal.warning_window Jitter.no_intervals
  initial_derived window = record {
    irq_baseline = record { value = f.lit 1 1; seeded = false };
    scheduler_pressure = Ema.empty;
    memory_pressure = Ema.empty;
    io_pressure = Ema.empty;
    warning_window = Thermal.warning_window window;
    thermal_pressure = Ema.empty;
    power_pressure = Ema.empty;
    intervals = Jitter.no_intervals;
    latency_jitter = Ema.empty;
  }

  unfoldable pub initial_risk : RiskState F
  unfolding Ema.empty
  initial_risk = record {
    realtime_risk = Ema.empty;
    saturation_risk = Ema.empty;
    system_state = stable;
  }

  -- The options that the constructor gives to the sink; the others keep their defaults.
  unfoldable pub redis_options : AgentConfig F → RedisTsOptions
  redis_options config = record {
    host = config.redis.host;
    port = config.redis.port;
    unix_socket = config.redis.unix_socket;
    password = "";
    db = 0;
    key_prefix = "edge:node";
    connect_timeout_ms = 1000;
    publish_health = config.publish_health;
    enabled_metrics = enabled_redis_metrics config;
  }

  -- `std::make_unique<RedisTsSink>` and the check of the connection
  unfoldable pub open_sink : {W : Type 0} → Hiredis W → AgentConfig F → W → Option RedisTsSink × W
  unfolding redis_options make_sink
  open_sink redis config w =
      let (_, sink, w') = check_connectivity redis (make_sink (redis_options config)) w in
      if config.redis.enabled then (some sink, w') else (none, w)

  -- The constructor of `Agent`, from the zeroed frame of its member initialiser.
  unfoldable pub make_agent :
      {W : Type 0} → Hiredis W → Sensors F W → SignalFrame F → AgentConfig F → W → Agent F W × W
  unfolding initial_derived initial_risk open_sink register_sensors
  make_agent redis sensors zeroed config w =
      let (sink, w') = open_sink redis config w in
      (
        record {
          tick_interval = config.tick_interval;
          next_wakeup = 0;
          first_tick = true;
          previous_cycle_start = none;
          sampler = record { tick_count = 0 };
          frame = zeroed;
          publish_health = config.publish_health;
          publish_stdout = config.stdout_debug;
          sensor_registry = register_sensors sensors config;
          derived = initial_derived config.thermal_pressure_warning_window_c;
          risk = initial_risk;
          redis_sink = sink;
          redis_was_ok = true;
        },
        w',
      )
