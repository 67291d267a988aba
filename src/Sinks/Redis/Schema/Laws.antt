-- ===== src/Sinks/Redis/Schema/Laws.antt =====
-- The schema of src/sinks/redis_ts.cpp and the log of its commands.
use hw_agent.Prelude.{◌≡◌, ◌≢◌, ◌⊎◌, true, false, none, arith}
use hw_agent.Float.{Float}
use hw_agent.Frame.{SignalFrame}
use hw_agent.Platform.{Clock, Hiredis, Double}
use hw_agent.Sinks.Redis.{RedisTsSink}
use hw_agent.Sinks.Redis.Connection.{reconnect, ensure_connected}
use hw_agent.Sinks.Redis.Connection.Laws.{IsOpen, IsReconnected, SameSetup, reconnect-IsReconnected}
use hw_agent.Sinks.Redis.Metrics.{madd_args}
use hw_agent.Sinks.Redis.Publish.{publish, publish_impl}
use hw_agent.Sinks.Redis.Publish.Laws.{publish-IsOpen}
use hw_agent.Sinks.Redis.Schema.{Log, logging, beside, IsBacked}
use hw_agent.Sinks.Redis.Schema.Moves.{
  Moves, Moves-trans, run-Moves, reconnect-Moves, ensure_connected-Moves,
}

module _ {W : Type 0} (redis : Hiredis W) where
  -- From a server that is not known to lack the module, `reconnect` succeeds with a context and the
  -- flag of the schema, or fails with no context. If that flag was backed before, it is afterwards:
  -- where it is set, the log of all commands so far holds for each enabled metric a TS.CREATE of its
  -- key, with a reply that is no error or says that the key exists.
  pub reconnect-IsBacked :
      (s : RedisTsSink) (x : W × Log)
      → s.timeseries_available ≡ true
      → IsBacked s x.1
      → let (ok, t, y) = reconnect (logging redis) s x in IsReconnected s ok t × IsBacked t y.1
  reconnect-IsBacked s x h b =
      (reconnect-IsReconnected (logging redis) s x h, (reconnect-Moves redis s x).backed b)

module _ {F D W : Type 0} ⦃f : Float F⦄ (d : Double F D) (clock : Clock W) (redis : Hiredis W) where
  publish_impl-Moves :
      (s : RedisTsSink) (frame : SignalFrame F) (x : W × Log)
      → let (ok, t, frame', y) = publish_impl d (beside clock) (logging redis) s frame x in
        Moves s x.1 t y.1
  unfolding publish_impl
  publish_impl-Moves s frame x =
      let (now_ns, x₁) = (beside clock).unix_now_ns x in
      let (start, x₂) = (beside clock).steady_now_ns x₁ in
      run-Moves redis (madd_args d s now_ns frame) s x₂

  publish-Moves :
      (s : RedisTsSink) (frame : SignalFrame F) (x : W × Log)
      → let (ok, t, frame', y) = publish d (beside clock) (logging redis) s frame x in
        Moves s x.1 t y.1
  unfolding publish
  publish-Moves s frame x =
      let (connected, s₁, x₁) = ensure_connected (logging redis) s x in
      let (ok, s₂, frame₂, x₂) = publish_impl d (beside clock) (logging redis) s₁ frame x₁ in
      let (again, s₃, x₃) = reconnect (logging redis) s₂ x₂ in
      let one = ensure_connected-Moves redis s x in
      let two = Moves-trans one (publish_impl-Moves s₁ frame x₁) in
      let three = Moves-trans two (reconnect-Moves redis s₂ x₂) in
      ground (arith, one, two, three, Moves-trans three (publish_impl-Moves s₃ frame₂ x₃))

  -- A publish keeps the configuration and this invariant: a context that is held comes with the flag of
  -- the schema, that flag with a server that has the module, and with a TS.CREATE of the key of each
  -- enabled metric in the log of all commands so far, whose reply is no error or says that the key
  -- exists. It fails, or holds a context and that flag at the end.
  pub publish-IsBacked :
      (s : RedisTsSink) (frame : SignalFrame F) (x : W × Log)
      → IsOpen s
      → IsBacked s x.1
      → let (ok, t, frame', y) = publish d (beside clock) (logging redis) s frame x in
        IsOpen t
        × IsBacked t y.1
        × SameSetup t s
        × ((ok ≡ false) ⊎ ((t.context ≢ none) × (t.schema_ready ≡ true)))
  publish-IsBacked s frame x h b =
      let (kept, same, end) = publish-IsOpen d (beside clock) (logging redis) s frame x h in
      (kept, (publish-Moves s frame x).backed b, same, end)
