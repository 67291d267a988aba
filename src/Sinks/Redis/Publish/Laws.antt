-- ===== src/Sinks/Redis/Publish/Laws.antt =====
-- What `publish` of src/sinks/redis_ts.cpp promises to the agent.
use hw_agent.Prelude.{◌≡◌, ◌≢◌, ◌⊎◌, true, false, none, arith}
use hw_agent.Float.{Float}
use hw_agent.Frame.{SignalFrame}
use hw_agent.Platform.{Clock, Hiredis, Double}
use hw_agent.Sinks.Redis.{RedisTsSink, RedisTsOptions, make_sink}
use hw_agent.Sinks.Redis.Connection.{ensure_connected, reconnect}
use hw_agent.Sinks.Redis.Connection.Laws.{IsOpen, SameSetup, reconnect-IsReconnected}
use hw_agent.Sinks.Redis.Publish.{publish, publish_impl}

pub make_sink-IsOpen : (o : RedisTsOptions) → IsOpen (make_sink o)
unfolding make_sink
make_sink-IsOpen o = ground arith

module _ {W : Type 0} (redis : Hiredis W) where
  -- What `ensure_connected` leaves: the invariant, and a failure or a context.
  pub ensure_connected-IsOpen :
      (s : RedisTsSink) (w : W)
      → IsOpen s
      → IsOpen (ensure_connected redis s w).1
        × SameSetup (ensure_connected redis s w).1 s
        × (((ensure_connected redis s w).0 ≡ false)
            ⊎ (((ensure_connected redis s w).1.context ≢ none)
                × ((ensure_connected redis s w).1.schema_ready ≡ true)))
  unfolding ensure_connected
  ensure_connected-IsOpen s w h = ground (arith, reconnect-IsReconnected redis s w)

module _ {F D W : Type 0} ⦃f : Float F⦄ (d : Double F D) (clock : Clock W) (redis : Hiredis W) where
  -- A command keeps the set-up of a sink that holds a context.
  publish_impl-IsOpen :
      (s : RedisTsSink) (frame : SignalFrame F) (w : W)
      → IsOpen s
      → s.schema_ready ≡ true
      → IsOpen (publish_impl d clock redis s frame w).1
        × SameSetup (publish_impl d clock redis s frame w).1 s
        × ((publish_impl d clock redis s frame w).1.context ≢ none)
        × ((publish_impl d clock redis s frame w).1.schema_ready ≡ true)
  unfolding publish_impl
  publish_impl-IsOpen s frame w h r = ground arith

  -- From a sink in which a held context comes with the flag of the schema, a publish keeps that and the
  -- configuration. It fails, or holds such a context at the end.
  pub publish-IsOpen :
      (s : RedisTsSink) (frame : SignalFrame F) (w : W)
      → IsOpen s
      → IsOpen (publish d clock redis s frame w).1
        × SameSetup (publish d clock redis s frame w).1 s
        × (((publish d clock redis s frame w).0 ≡ false)
            ⊎ (((publish d clock redis s frame w).1.context ≢ none)
                × ((publish d clock redis s frame w).1.schema_ready ≡ true)))
  unfolding publish
  publish-IsOpen s frame w h =
      let (_, s₁, w₁) = ensure_connected redis s w in
      let (_, s₂, frame₂, w₂) = publish_impl d clock redis s₁ frame w₁ in
      let (_, s₃, w₃) = reconnect redis s₂ w₂ in
      ground (
        arith,
        ensure_connected-IsOpen redis s w h,
        publish_impl-IsOpen s₁ frame w₁,
        reconnect-IsReconnected redis s₂ w₂,
        publish_impl-IsOpen s₃ frame₂ w₃,
      )

  -- A publish writes nothing of the frame but the latency of Redis.
  pub publish_frame :
      (s : RedisTsSink) (frame : SignalFrame F) (w : W)
      → let after = (publish d clock redis s frame w).2 in
        after ≡ record frame {
          agent = record frame.agent { redis_latency_ms = after.agent.redis_latency_ms };
        }
  unfolding publish publish_impl
  publish_frame s frame w =
      let (ok, s₁, w₁) = ensure_connected redis s w in
      let (sent, s₂, frame₂, w₂) = publish_impl d clock redis s₁ frame w₁ in
      let (again, s₃, w₃) = reconnect redis s₂ w₂ in ground arith
