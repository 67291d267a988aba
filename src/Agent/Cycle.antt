-- ===== src/Agent/Cycle.antt =====
-- One round of the loop of `Agent::run_for_ticks` in src/core/agent.cpp, and the loop.
use hw_agent.Prelude.{
  add64, ℕ, zero, suc, ◌+◌, ◌*◌, ◌/◌, false, Option, none, some, List, [], ◌∷◌, if◌then◌else◌,
  next32,
}
use hw_agent.Float.{Float}
use hw_agent.Frame.{SignalFrame}
use hw_agent.Platform.{Clock, Hiredis, Double}
use hw_agent.Core.Sampler.{Sampler, should_sample_every, advance}
use hw_agent.Sinks.Redis.{RedisTsSink}
use hw_agent.Sinks.Redis.Publish.{publish, millis}
use hw_agent.Agent.{Agent, AgentStats, SensorRegistration, no_stats}
use hw_agent.Agent.Scoring.{derive, assess}

module _ {F W : Type 0} ⦃f : Float F⦄ where
  -- the loop of `collect_sensors` over the registry
  unfoldable pub sample_all :
      Sampler → List (SensorRegistration F W) → SignalFrame F → W → SignalFrame F × W
  unfolding should_sample_every next32
  sample_all sampler [] frame w = (frame, w)
  sample_all sampler (sensor ∷ rest) frame w =
      let (ok, frame', w') = sensor.sample frame w in
      let failed = record frame' {
        agent = record frame'.agent { sensor_failures = next32 frame'.agent.sensor_failures };
      } in
      let skipped = sample_all sampler rest frame w in
      let sampled = sample_all sampler rest (if ok then frame' else failed) w' in
      if sensor.enabled
      then if should_sample_every sampler sensor.every_ticks then sampled else skipped
      else skipped

module _ {F D W : Type 0} ⦃f : Float F⦄ (d : Double F D) (clock : Clock W) (redis : Hiredis W) where
  -- `collect_sensors`
  unfoldable pub collect_sensors : AgentStats → Agent F W → W → AgentStats × Agent F W × W
  collect_sensors stats agent w =
      let (now, w') = clock.steady_now_ns w in
      let start = record agent.frame {
        monotonic_ns = now;
        agent = record agent.frame.agent { sensor_failures = 0 };
      } in
      let (frame, w'') = sample_all agent.sampler agent.sensor_registry start w' in
      (
        record stats { sensor_cycles = add64 stats.sensor_cycles 1 },
        record agent { frame = frame },
        w'',
      )

  -- `compute_derived`
  unfoldable pub compute_derived : AgentStats → Agent F W → AgentStats × Agent F W
  compute_derived stats agent =
      let (derived, frame) = derive agent.derived agent.frame in
      (
        record stats { derived_cycles = add64 stats.derived_cycles 1 },
        record agent { derived = derived; frame = frame },
      )

  -- `compute_risk`
  unfoldable pub compute_risk : AgentStats → Agent F W → AgentStats × Agent F W
  compute_risk stats agent =
      let (risk, frame) = assess agent.risk agent.frame in
      (
        record stats { risk_cycles = add64 stats.risk_cycles 1 },
        record agent { risk = risk; frame = frame },
      )

  -- the publish to Redis: the frame, the sink, and whether it succeeded
  unfoldable pub publish_redis : Option RedisTsSink → Agent F W → W → Agent F W × W
  unfolding next32
  publish_redis none agent w = (agent, w)
  publish_redis (some sink) agent w =
      let (ok, sink', frame, w') = publish d clock redis sink agent.frame w in
      let failed = record frame {
        agent = record frame.agent { redis_errors = next32 frame.agent.redis_errors };
      } in
      (
        record agent {
          frame = if ok then frame else failed;
          redis_sink = some sink';
          redis_was_ok = ok;
        },
        w',
      )

  -- `publish_sinks`; the line that the debug sink prints changes no state
  unfoldable pub publish_sinks : AgentStats → Agent F W → W → AgentStats × Agent F W × W
  unfolding publish_redis
  publish_sinks stats agent w =
      let cleared = record agent {
        frame = record agent.frame { agent = record agent.frame.agent { redis_errors = 0 } };
      } in
      let (agent', w') = publish_redis agent.redis_sink cleared w in
      (record stats { sink_cycles = add64 stats.sink_cycles 1 }, agent', w')

  -- `update_agent_health`
  unfoldable pub update_agent_health : F → F → Agent F W → W → Agent F W × W
  unfolding next32
  update_agent_health actual_period_ms compute_time_ms agent w =
      let tick_ms = f.of_nat agent.tick_interval in
      let (now, w') = clock.unix_now_ns w in
      let health = agent.frame.agent in
      let health' = record health {
        loop_jitter_ms = f.abs (f.sub actual_period_ms tick_ms);
        compute_time_ms = compute_time_ms;
        heartbeat_ms = now / 1_000_000;
        missed_cycles =
            if f.lt tick_ms compute_time_ms
            then next32 health.missed_cycles
            else health.missed_cycles;
      } in
      if agent.publish_health
      then (record agent { frame = record agent.frame { agent = health' } }, w')
      else (agent, w)

  abbrev period : Option ℕ → ℕ → F
  period none start = f.lit 0 1
  period (some previous) start = millis previous start

  -- one round of the loop
  unfoldable pub cycle : AgentStats → Agent F W → W → AgentStats × Agent F W × W
  unfolding advance
  cycle stats agent w =
      let (cycle_start, w₁) = clock.steady_now_ns w in
      let (stats₁, agent₁, w₂) = collect_sensors stats agent w₁ in
      let (stats₂, agent₂) = compute_derived stats₁ agent₁ in
      let (stats₃, agent₃) = compute_risk stats₂ agent₂ in
      let (stats₄, agent₄, w₃) = publish_sinks stats₃ agent₃ w₂ in
      let (cycle_end, w₄) = clock.steady_now_ns w₃ in
      let (agent₅, w₅) =
        update_agent_health (period agent.previous_cycle_start cycle_start)
          (millis cycle_start cycle_end) agent₄ w₄ in
      let next_wakeup = agent₅.next_wakeup + agent₅.tick_interval * 1_000_000 in
      (
        record stats₄ { ticks_executed = add64 stats₄.ticks_executed 1 },
        record agent₅ {
          previous_cycle_start = some cycle_start;
          sampler = advance agent₅.sampler;
          next_wakeup = next_wakeup;
        },
        clock.sleep_until next_wakeup w₅,
      )

  -- the rounds of a call with `total_ticks` above 0
  unfoldable pub cycles : ℕ → AgentStats → Agent F W → W → AgentStats × Agent F W × W
  cycles zero stats agent w = (stats, agent, w)
  cycles (suc n) stats agent w =
      let (stats', agent', w') = cycle stats agent w in cycles n stats' agent' w'

  -- the start of `run_for_ticks`
  unfoldable pub first_wakeup : Agent F W → W → Agent F W × W
  first_wakeup agent w =
      let (now, w') = clock.steady_now_ns w in
      if agent.first_tick
      then (record agent { next_wakeup = now; first_tick = false }, w')
      else (agent, w)

  -- `run_for_ticks`: none for 0 ticks, which loops for ever
  unfoldable pub run_for_ticks : ℕ → Agent F W → W → Option (AgentStats × Agent F W × W)
  run_for_ticks zero agent w = none
  run_for_ticks (suc n) agent w =
      let (agent', w') = first_wakeup agent w in some (cycles (suc n) no_stats agent' w')
