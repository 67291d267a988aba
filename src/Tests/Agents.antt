-- ===== src/Tests/Agents.antt =====
-- Runs of the agent.
use hw_agent.Prelude.{ℕ, ◌≡◌, refl, some, All, arith, if◌then◌else◌}
use hw_agent.Float.Fixed.{Fixed, fixed_float, Fixed-IsFloat, Fixed-HasWeights}
use hw_agent.Frame.{SignalFrame}
use hw_agent.Float.{InUnit}
use hw_agent.Sinks.Redis.Publish.{publish}
use hw_agent.Agent.{no_stats, register_sensors, AgentStats, Agent}
use hw_agent.Agent.Build.{make_agent}
use hw_agent.Agent.Range.{Measures, IsRunning, run_for_ticks-IsInRange}
use hw_agent.Agent.Frames.{IsInRange}
use hw_agent.Agent.Start.{make_agent-IsRunning}
use hw_agent.Agent.Cycle.{run_for_ticks, cycles, publish_sinks}
use hw_agent.Agent.Counters.{
  IsAdvanced, IsWordStats, IsScheduled, cycles-IsScheduled, LeavesHealth,
  redis_errors-publish_sinks,
}
use hw_agent.Agent.Signals.{IsMeasured, IsCalm, IsScored, IsRated, derive-IsScored, assess-InUnit}
use hw_agent.Agent.Scoring.{derive, assess}
use hw_agent.Tests.Fixtures.{
  connected, clock, double, answering, refusing, zeroed, sensors, config, agent, sink, busy,
}

pub zeroed-IsMeasured : IsMeasured zeroed
zeroed-IsMeasured = ground arith

busy-Measures : (frame : SignalFrame Fixed) (w : ℕ) → IsMeasured frame → IsMeasured (busy frame w).1
busy-Measures frame w m = ground arith

sensors-Measure : All Measures (register_sensors sensors config)
unfolding register_sensors
sensors-Measure = (
  busy-Measures,
  (
    busy-Measures,
    (idle, (idle, (idle, (idle, (idle, (idle, (idle, (idle, (idle, (idle, tt)))))))))),
  ),
)
  where
    idle : (frame : SignalFrame Fixed) (w : ℕ) → IsMeasured frame → IsMeasured frame
    idle frame w m = m

agent-IsRunning : IsRunning agent
agent-IsRunning =
    make_agent-IsRunning Fixed-IsFloat answering sensors zeroed config 0 sensors-Measure
      zeroed-IsMeasured refl

make_agent-IsRunning_example : IsRunning agent
make_agent-IsRunning_example =
    make_agent-IsRunning Fixed-IsFloat answering sensors zeroed config 0 sensors-Measure
      zeroed-IsMeasured refl

run_for_ticks-IsInRange_example :
    (out : AgentStats × Agent Fixed ℕ × ℕ) × (run_for_ticks double clock answering 10 agent 0
      ≡ some out)
    × IsInRange out.1.frame
run_for_ticks-IsInRange_example =
    run_for_ticks-IsInRange Fixed-IsFloat Fixed-HasWeights double clock answering 9 agent 0 (
      make_agent-IsRunning Fixed-IsFloat answering sensors zeroed config 0 sensors-Measure
        zeroed-IsMeasured refl)

no_stats-IsWordStats : IsWordStats no_stats
no_stats-IsWordStats = record {
  ticks_executed = omega arith;
  sensor_cycles = omega arith;
  derived_cycles = omega arith;
  risk_cycles = omega arith;
  sink_cycles = omega arith;
}

cycles-IsScheduled_example :
    IsAdvanced 3 no_stats (cycles double clock answering 3 no_stats agent 0).0
    × IsScheduled 3 agent (cycles double clock answering 3 no_stats agent 0).1
cycles-IsScheduled_example =
    cycles-IsScheduled double clock answering 3 no_stats agent 0 no_stats-IsWordStats
      (unfold make_agent in omega arith) (unfold make_agent in omega arith)

sensors-LeavesHealth : All LeavesHealth (register_sensors sensors config)
unfolding register_sensors
sensors-LeavesHealth = (
  same,
  (same, (same, (same, (same, (same, (same, (same, (same, (same, (same, (same, tt))))))))))),
)
  where
    same : (frame : SignalFrame Fixed) (w : ℕ) → frame.agent ≡ frame.agent
    same frame w = refl

redis_errors-publish_sinks_example :
    let out = (publish_sinks double clock refusing no_stats connected 5).1 in
    let sent = publish double clock refusing sink connected.frame 5 in
    (out.redis_was_ok ≡ sent.0)
    × (out.frame.agent.redis_errors ≡ (if sent.0 then 0 else 1))
    × (out.redis_sink ≡ some sent.1)
unfolding publish make_agent
redis_errors-publish_sinks_example =
    redis_errors-publish_sinks double clock refusing no_stats connected 5 sink refl

derive-IsScored_example :
    IsCalm (derive agent.derived zeroed).0
    × IsScored (derive agent.derived zeroed).1
    × IsMeasured (derive agent.derived zeroed).1
derive-IsScored_example =
    derive-IsScored Fixed-IsFloat Fixed-HasWeights agent.derived zeroed zeroed-IsMeasured
      agent-IsRunning.derived

assess-InUnit_example :
    IsRated (assess agent.risk (derive agent.derived zeroed).1).0
    × InUnit (assess agent.risk (derive agent.derived zeroed).1).1.realtime_risk
    × InUnit (assess agent.risk (derive agent.derived zeroed).1).1.saturation_risk
assess-InUnit_example =
    assess-InUnit Fixed-IsFloat Fixed-HasWeights agent.risk (derive agent.derived zeroed).1
      (derive-IsScored Fixed-IsFloat Fixed-HasWeights agent.derived zeroed zeroed-IsMeasured
        agent-IsRunning.derived).1
      agent-IsRunning.risk
