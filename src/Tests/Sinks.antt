-- ===== src/Tests/Sinks.antt =====
-- The sink against a server that answers and one that refuses.
use hw_agent.Prelude.{[], ◌+◌, ◌*◌, ◌≡◌, ◌≢◌, ◌⊎◌, ◌≤◌, refl, true, false, none, length}
use hw_agent.Float.Fixed.{Fixed, fixed_float}
use hw_agent.Sinks.Redis.{make_sink}
use hw_agent.Sinks.Redis.Metrics.{metrics, madd_args}
use hw_agent.Sinks.Redis.Metrics.Selection.{selected, length-madd_args}
use hw_agent.Sinks.Redis.Connection.{reconnect}
use hw_agent.Sinks.Redis.Connection.Laws.{IsOpen, SameSetup, IsReconnected}
use hw_agent.Sinks.Redis.Schema.{logging, beside, IsBacked}
use hw_agent.Sinks.Redis.Schema.Laws.{reconnect-IsBacked, publish-IsBacked}
use hw_agent.Sinks.Redis.Publish.{publish}
use hw_agent.Sinks.Redis.Publish.Laws.{make_sink-IsOpen}
use hw_agent.Tests.Fixtures.{clock, double, answering, zeroed, options, sink}

-- The sink before its first connection.
sink-IsBacked : IsBacked sink []
unfolding make_sink
sink-IsBacked ready = cc

reconnect-IsBacked_example :
    let (ok, t, y) = reconnect (logging answering) sink (0, []) in
    IsReconnected sink ok t × IsBacked t y.1
reconnect-IsBacked_example =
    reconnect-IsBacked answering sink (0, []) (unfold make_sink in refl) sink-IsBacked

publish-IsBacked_example :
    let (ok, t, frame', y) =
      publish double (beside clock) (logging answering) sink zeroed (0, []) in
    IsOpen t
    × IsBacked t y.1
    × SameSetup t sink
    × ((ok ≡ false) ⊎ ((t.context ≢ none) × (t.schema_ready ≡ true)))
publish-IsBacked_example =
    publish-IsBacked double clock answering sink zeroed (0, []) (make_sink-IsOpen options)
      sink-IsBacked

length-madd_args_example :
    (length (madd_args double sink 5_000_000 zeroed)
      ≡ 1 + 3 * length (selected sink.enabled_metrics (metrics double true zeroed)))
    × (length (madd_args double sink 5_000_000 zeroed) ≤ 1 + 36 * 3)
unfolding make_sink
length-madd_args_example = length-madd_args double sink 5_000_000 zeroed
