-- ===== src/Agent/Range.antt =====
-- The ranges of the computed signals over the loop of src/core/agent.cpp.
use hw_agent.Prelude.{ℕ, zero, suc, ◌≡◌, refl, sym, subst, Option, none, some, List, [], ◌∷◌, All}
use hw_agent.Float.{Float, IsFloat, HasWeights}
use hw_agent.Frame.{SignalFrame}
use hw_agent.Platform.{Clock, Hiredis, Double}
use hw_agent.Core.Sampler.{Sampler, should_sample_every}
use hw_agent.Sinks.Redis.{RedisTsSink}
use hw_agent.Sinks.Redis.Publish.{publish}
use hw_agent.Sinks.Redis.Publish.Laws.{publish_frame}
use hw_agent.Risk.Realtime
use hw_agent.Risk.Saturation
use hw_agent.Risk.State
use hw_agent.Agent.{Agent, AgentStats, SensorRegistration, no_stats}
use hw_agent.Agent.Scoring.{derive, assess}
use hw_agent.Agent.Signals.{IsMeasured, IsCalm, IsRated, derive-IsScored, assess-InUnit}
use hw_agent.Agent.Cycle.{
  sample_all, collect_sensors, compute_derived, compute_risk, publish_redis, publish_sinks,
  update_agent_health, cycle, cycles, first_wakeup, run_for_ticks,
}
use hw_agent.Agent.Frames.{
  if_keeps, IsInRange, health-IsMeasured, stamp-IsMeasured, assess-IsMeasured, assess-IsScored,
  health-IsInRange,
}

module _ {F : Type 0} ⦃f : Float F⦄ where
  -- Whatever it reads, a sensor leaves finite measurements.
  abbrev pub Measures : {W : Type 0} → SensorRegistration F W → Type 0
  Measures {W} r =
      (frame : SignalFrame F) (w : W) → IsMeasured frame → IsMeasured (r.sample frame w).1

  pub record IsRunning {W : Type 0} (a : Agent F W) : Type 0 where
    pub sensors : All Measures a.sensor_registry
    pub frame : IsMeasured a.frame
    pub derived : IsCalm a.derived
    pub risk : IsRated a.risk

  sample_all-IsMeasured :
      {W : Type 0} (s : Sampler) (l : List (SensorRegistration F W)) (frame : SignalFrame F) (w : W)
      → All Measures l
      → IsMeasured frame
      → IsMeasured (sample_all s l frame w).0
  unfolding sample_all
  sample_all-IsMeasured {W} s [] frame w h m = m
  sample_all-IsMeasured {W} s (r ∷ rs) frame w (h, hs) m =
      let (ok, frame', w') = r.sample frame w in
      let skipped = sample_all-IsMeasured s rs frame w hs m in
      let read = h frame w m in
      let kept = if_keeps IsMeasured ok frame' _ read (health-IsMeasured frame' _ read) in
      let sampled = sample_all-IsMeasured s rs _ w' hs kept in
      if_keeps {A = SignalFrame F × W} (λ p. IsMeasured p.0) r.enabled _ _
        (if_keeps {A = SignalFrame F × W} (λ p. IsMeasured p.0)
          (should_sample_every s r.every_ticks) _ _ sampled skipped)
        skipped

  module _ (laws : IsFloat F) (weights : HasWeights F) where
    module _ {D W : Type 0} (d : Double F D) (clock : Clock W) (redis : Hiredis W) where
      publish_redis-frame :
          (sink : Option RedisTsSink) (a : Agent F W) (w : W)
          → IsRunning a
          → IsInRange a.frame
          → IsRunning (publish_redis d clock redis sink a w).0
            × IsInRange (publish_redis d clock redis sink a w).0.frame
      unfolding publish_redis
      publish_redis-frame none a w h r = (h, r)
      publish_redis-frame (some sink) a w h r =
          let (ok, sink', frame, w') = publish d clock redis sink a.frame w in
          let same = publish_frame d clock redis sink a.frame w in
          let m : IsMeasured frame =
            subst IsMeasured (sym same) (health-IsMeasured a.frame _ h.frame) in
          let g : IsInRange frame = subst IsInRange (sym same) (health-IsInRange a.frame _ r) in
          (
            record {
              sensors = h.sensors;
              frame = if_keeps IsMeasured ok frame _ m (health-IsMeasured frame _ m);
              derived = h.derived;
              risk = h.risk;
            },
            if_keeps IsInRange ok frame _ g (health-IsInRange frame _ g),
          )

      update_agent_health-frame :
          (p q : F) (a : Agent F W) (w : W)
          → IsRunning a
          → IsInRange a.frame
          → IsRunning (update_agent_health d clock redis p q a w).0
            × IsInRange (update_agent_health d clock redis p q a w).0.frame
      unfolding update_agent_health
      update_agent_health-frame p q a w h r =
          if_keeps {A = Agent F W × W} (λ x. IsRunning x.0 × IsInRange x.0.frame) a.publish_health _
            _
            (
              record {
                sensors = h.sensors;
                frame = health-IsMeasured a.frame _ h.frame;
                derived = h.derived;
                risk = h.risk;
              },
              health-IsInRange a.frame _ r,
            )
            (h, r)

      -- One cycle computes every pressure and both risks in [0, 1], and leaves the agent fit for the
      -- next cycle.
      cycle-IsInRange :
          (stats : AgentStats) (a : Agent F W) (w : W)
          → IsRunning a
          → IsRunning (cycle d clock redis stats a w).1
            × IsInRange (cycle d clock redis stats a w).1.frame
      unfolding cycle collect_sensors compute_derived compute_risk publish_sinks assess
          Realtime.sample Saturation.sample State.sample
      cycle-IsInRange stats a w h =
          let (_, w₁) = clock.steady_now_ns w in
          let (now, w₂) = clock.steady_now_ns w₁ in
          let start = record a.frame {
            monotonic_ns = now;
            agent = record a.frame.agent { sensor_failures = 0 };
          } in
          let begun = stamp-IsMeasured a.frame now _ h.frame in
          let read = sample_all-IsMeasured a.sampler a.sensor_registry start w₂ h.sensors begun in
          let (frame, w₃) = sample_all a.sampler a.sensor_registry start w₂ in
          let (calm, scored, kept) = derive-IsScored laws weights a.derived frame read h.derived in
          let (derived, frame') = derive a.derived frame in
          let (rated, rt, sat) = assess-InUnit laws weights a.risk frame' scored h.risk in
          let out =
            publish_redis-frame a.redis_sink _ w₃
              (record {
                sensors = h.sensors;
                frame = health-IsMeasured _ _ (assess-IsMeasured a.risk frame' kept);
                derived = calm;
                risk = rated;
              })
              (health-IsInRange _ _ (record {
                pressures = assess-IsScored a.risk frame' scored;
                realtime_risk = rt;
                saturation_risk = sat;
              })) in
          let done = update_agent_health-frame _ _ _ _ out.0 out.1 in
          (
            record {
              sensors = done.0.sensors;
              frame = done.0.frame;
              derived = done.0.derived;
              risk = done.0.risk;
            },
            done.1,
          )

      cycles-IsInRange :
          (n : ℕ) (stats : AgentStats) (a : Agent F W) (w : W)
          → IsRunning a
          → IsInRange (cycles d clock redis (suc n) stats a w).1.frame
      unfolding cycles
      cycles-IsInRange zero stats a w h = (cycle-IsInRange stats a w h).1
      cycles-IsInRange (suc n) stats a w h =
          cycles-IsInRange n _ _ _ (cycle-IsInRange stats a w h).0

      -- If an agent is fit to run (finite measurements in its frame and from its sensors, averages
      -- in range), a call of `run_for_ticks` with a number of ticks above 0 returns, and leaves
      -- every pressure and both risks in [0, 1], whatever the clocks and Redis do.
      pub run_for_ticks-IsInRange :
          (n : ℕ) (a : Agent F W) (w : W)
          → IsRunning a
          → (out : AgentStats × Agent F W × W) × (run_for_ticks d clock redis (suc n) a w
              ≡ some out)
            × IsInRange out.1.frame
      unfolding run_for_ticks first_wakeup
      run_for_ticks-IsInRange n a w h = (
        _,
        refl,
        cycles-IsInRange n no_stats _ _ (
            if_keeps {A = Agent F W × W} (λ x. IsRunning x.0) a.first_tick _ _
              (record { sensors = h.sensors; frame = h.frame; derived = h.derived; risk = h.risk })
              h),
      )
