-- ===== src/Agent/Counters.antt =====
-- Counters and times of the loop of src/core/agent.cpp.
use hw_agent.Prelude.{
  add64, ℕ, zero, suc, ◌+◌, ◌*◌, ◌%◌, ◌^◌, ◌≡◌, ◌≤◌, ◌<◌, refl, ap, All, ◌∙◌, Option, none, some,
  List, [], ◌∷◌, arith, if◌then◌else◌, next32, length,
}
use hw_agent.Float.{Float}
use hw_agent.Frame.{SignalFrame, AgentHealth}
use hw_agent.Platform.{Clock, Hiredis, Double}
use hw_agent.Core.Sampler.{Sampler, advance}
use hw_agent.Sinks.Redis.{RedisTsSink}
use hw_agent.Sinks.Redis.Publish.{publish}
use hw_agent.Sinks.Redis.Publish.Laws.{publish_frame}
use hw_agent.Agent.{Agent, AgentStats, SensorRegistration}
use hw_agent.Agent.Cycle.{
  sample_all, collect_sensors, compute_derived, compute_risk, publish_redis, publish_sinks,
  update_agent_health, cycle, cycles,
}

-- The counters of the statistics have 64 bits.
pub record IsWordStats (stats : AgentStats) : Type 0 where
  pub ticks_executed : stats.ticks_executed < 2 ^ 64
  pub sensor_cycles : stats.sensor_cycles < 2 ^ 64
  pub derived_cycles : stats.derived_cycles < 2 ^ 64
  pub risk_cycles : stats.risk_cycles < 2 ^ 64
  pub sink_cycles : stats.sink_cycles < 2 ^ 64

-- Every counter of the statistics went up by `n`, modulo 2^64.
pub record IsAdvanced (n : ℕ) (before after : AgentStats) : Type 0 where
  pub ticks_executed : after.ticks_executed ≡ (before.ticks_executed + n) % 2 ^ 64
  pub sensor_cycles : after.sensor_cycles ≡ (before.sensor_cycles + n) % 2 ^ 64
  pub derived_cycles : after.derived_cycles ≡ (before.derived_cycles + n) % 2 ^ 64
  pub risk_cycles : after.risk_cycles ≡ (before.risk_cycles + n) % 2 ^ 64
  pub sink_cycles : after.sink_cycles ≡ (before.sink_cycles + n) % 2 ^ 64

-- After `n` cycles the schedule is `n` intervals further, and so is the tick counter.
pub record IsScheduled {F W : Type 0} (n : ℕ) (before after : Agent F W) : Type 0 where
  pub tick_interval : after.tick_interval ≡ before.tick_interval
  pub next_wakeup : after.next_wakeup ≡ before.next_wakeup + n * (before.tick_interval * 1_000_000)
  pub tick_count : after.sampler.tick_count ≡ (before.sampler.tick_count + n) % 2 ^ 64

module _ {F D W : Type 0} ⦃f : Float F⦄ (d : Double F D) (clock : Clock W) (redis : Hiredis W) where
  record Keeps (a b : Agent F W) : Type 0 where
    tick_interval : b.tick_interval ≡ a.tick_interval
    next_wakeup : b.next_wakeup ≡ a.next_wakeup
    sampler : b.sampler ≡ a.sampler
    first_tick : b.first_tick ≡ a.first_tick

  publish_redis-Keeps :
      (sink : Option RedisTsSink) (a : Agent F W) (w : W)
      → Keeps a (publish_redis d clock redis sink a w).0
  unfolding publish_redis
  publish_redis-Keeps none a w = record {
    tick_interval = refl;
    next_wakeup = refl;
    sampler = refl;
    first_tick = refl;
  }
  publish_redis-Keeps (some sink) a w = record {
    tick_interval = refl;
    next_wakeup = refl;
    sampler = refl;
    first_tick = refl;
  }

  update_agent_health-Keeps :
      (p q : F) (a : Agent F W) (w : W) → Keeps a (update_agent_health d clock redis p q a w).0
  unfolding update_agent_health
  update_agent_health-Keeps p q a w = ground arith

  cycle-IsAdvanced :
      (stats : AgentStats) (a : Agent F W) (w : W)
      → IsAdvanced 1 stats (cycle d clock redis stats a w).0
  unfolding add64 cycle collect_sensors compute_derived compute_risk publish_sinks
  cycle-IsAdvanced stats a w = record {
    ticks_executed = refl;
    sensor_cycles = refl;
    derived_cycles = refl;
    risk_cycles = refl;
    sink_cycles = refl;
  }

  cycle-IsScheduled :
      (stats : AgentStats) (a : Agent F W) (w : W)
      → IsScheduled 1 a (cycle d clock redis stats a w).1
  unfolding cycle collect_sensors compute_derived compute_risk publish_sinks
  cycle-IsScheduled stats a w =
      let (start, w₁) = clock.steady_now_ns w in
      let (stats₁, agent₁, w₂) = collect_sensors d clock redis stats a w₁ in
      let (stats₂, agent₂) = compute_derived d clock redis stats₁ agent₁ in
      let (stats₃, agent₃) = compute_risk d clock redis stats₂ agent₂ in
      let cleared = record agent₃ {
        frame = record agent₃.frame { agent = record agent₃.frame.agent { redis_errors = 0 } };
      } in
      let published = publish_redis-Keeps agent₃.redis_sink cleared w₂ in
      let (stats₄, agent₄, w₃) = publish_sinks d clock redis stats₃ agent₃ w₂ in
      let updated = update_agent_health-Keeps _ _ agent₄ _ in
      record {
        tick_interval = updated.tick_interval ∙ published.tick_interval;
        next_wakeup = omega (
          arith, updated.tick_interval, published.tick_interval, updated.next_wakeup,
          published.next_wakeup,
        );
        tick_count = ap (λ s. (advance s).tick_count) (updated.sampler ∙ published.sampler);
      }

  pub cycle-first_tick :
      (stats : AgentStats) (a : Agent F W) (w : W)
      → (cycle d clock redis stats a w).1.first_tick ≡ a.first_tick
  unfolding cycle collect_sensors compute_derived compute_risk publish_sinks
  cycle-first_tick stats a w =
      let (start, w₁) = clock.steady_now_ns w in
      let (stats₁, agent₁, w₂) = collect_sensors d clock redis stats a w₁ in
      let (stats₂, agent₂) = compute_derived d clock redis stats₁ agent₁ in
      let (stats₃, agent₃) = compute_risk d clock redis stats₂ agent₂ in
      let cleared = record agent₃ {
        frame = record agent₃.frame { agent = record agent₃.frame.agent { redis_errors = 0 } };
      } in
      let published = publish_redis-Keeps agent₃.redis_sink cleared w₂ in
      let (stats₄, agent₄, w₃) = publish_sinks d clock redis stats₃ agent₃ w₂ in
      let updated = update_agent_health-Keeps _ _ agent₄ _ in
      updated.first_tick ∙ published.first_tick

  IsAdvanced-IsWordStats :
      (n : ℕ) (before after : AgentStats) → IsAdvanced n before after → IsWordStats after
  IsAdvanced-IsWordStats n before after h = record {
    ticks_executed = omega (arith, h.ticks_executed);
    sensor_cycles = omega (arith, h.sensor_cycles);
    derived_cycles = omega (arith, h.derived_cycles);
    risk_cycles = omega (arith, h.risk_cycles);
    sink_cycles = omega (arith, h.sink_cycles);
  }

  -- From counters of 64 bits, `n` cycles advance every counter of the statistics and the tick counter
  -- by `n` modulo 2^64, keep the tick interval, and move the next wake-up by `n` whole intervals: the
  -- schedule does not drift. The last wake-up of the `n` is one that 64 bits of signed nanoseconds
  -- hold, as the steady clock has them.
  pub cycles-IsScheduled :
      (n : ℕ) (stats : AgentStats) (a : Agent F W) (w : W)
      → IsWordStats stats
      → a.sampler.tick_count < 2 ^ 64
      → a.next_wakeup + n * (a.tick_interval * 1_000_000) < 2 ^ 63
      → IsAdvanced n stats (cycles d clock redis n stats a w).0
        × IsScheduled n a (cycles d clock redis n stats a w).1
  unfolding cycles
  cycles-IsScheduled zero stats a w ws h fits = ground arith
  cycles-IsScheduled (suc n) stats a w ws h fits =
      let (stats', a', w') = cycle d clock redis stats a w in
      let one = cycle-IsAdvanced stats a w in
      let step = cycle-IsScheduled stats a w in
      let small : a'.sampler.tick_count < 2 ^ 64 = omega (arith, step.tick_count) in
      let words = IsAdvanced-IsWordStats 1 stats stats' one in
      let left : a'.next_wakeup + n * (a'.tick_interval * 1_000_000) < 2 ^ 63 =
        omega (arith, step.next_wakeup, ap (λ (t : ℕ). n * (t * 1_000_000)) step.tick_interval) in
      let rest = cycles-IsScheduled n stats' a' w' words small left in
      (
        record {
          ticks_executed = omega (arith, one.ticks_executed, rest.0.ticks_executed);
          sensor_cycles = omega (arith, one.sensor_cycles, rest.0.sensor_cycles);
          derived_cycles = omega (arith, one.derived_cycles, rest.0.derived_cycles);
          risk_cycles = omega (arith, one.risk_cycles, rest.0.risk_cycles);
          sink_cycles = omega (arith, one.sink_cycles, rest.0.sink_cycles);
        },
        record {
          tick_interval = rest.1.tick_interval ∙ step.tick_interval;
          next_wakeup = omega (
            arith,
            step.next_wakeup,
            rest.1.next_wakeup,
            ap (λ (t : ℕ). n * (t * 1_000_000)) step.tick_interval,
          );
          tick_count = omega (arith, step.tick_count, rest.1.tick_count);
        },
      )

  abbrev with_errors : ℕ → Agent F W → Agent F W
  with_errors k a = record a {
    frame = record a.frame { agent = record a.frame.agent { redis_errors = k } };
  }

  -- Whatever the count was before, a publish leaves one error if it failed and none if it succeeded,
  -- and remembers which it was.
  pub redis_errors-publish_sinks :
      (stats : AgentStats) (a : Agent F W) (w : W) (sink : RedisTsSink)
      → a.redis_sink ≡ some sink
      → let out = (publish_sinks d clock redis stats a w).1 in
        let sent = publish d clock redis sink (with_errors 0 a).frame w in
        (out.redis_was_ok ≡ sent.0)
        × (out.frame.agent.redis_errors ≡ (if sent.0 then 0 else 1))
        × (out.redis_sink ≡ some sent.1)
  unfolding publish_sinks publish_redis
  redis_errors-publish_sinks stats a w sink e =
      let same = publish_frame d clock redis sink (with_errors 0 a).frame w in
      let kept = ap (λ (x : SignalFrame F). x.agent.redis_errors) same in ground (arith, kept, e)

module _ {F W : Type 0} ⦃f : Float F⦄ where
  -- A sensor that leaves the agent's health alone.
  abbrev pub LeavesHealth : SensorRegistration F W → Type 0
  LeavesHealth r = (frame : SignalFrame F) (w : W) → (r.sample frame w).1.agent ≡ frame.agent

  -- The sensors of one cycle raise the count of failures by at most one each, if none of them
  -- writes the agent's health itself.
  pub sensor_failures-sample_all :
      (s : Sampler) (l : List (SensorRegistration F W)) (frame : SignalFrame F) (w : W)
      → All LeavesHealth l
      → (sample_all s l frame w).0.agent.sensor_failures ≤ frame.agent.sensor_failures + length l
  unfolding sample_all next32
  sensor_failures-sample_all s [] frame w h = omega arith
  sensor_failures-sample_all s (r ∷ rs) frame w (h, hs) =
      let (ok, frame', w') = r.sample frame w in
      let failed = record frame' {
        agent = record frame'.agent { sensor_failures = next32 frame'.agent.sensor_failures };
      } in
      let kept = ap (λ (x : AgentHealth F). x.sensor_failures) (h frame w) in
      let skipped = sensor_failures-sample_all s rs frame w hs in
      let sampled = sensor_failures-sample_all s rs frame' w' hs in
      let counted = sensor_failures-sample_all s rs failed w' hs in
      ground (arith, kept, skipped, sampled, counted)
