-- ===== src/Sinks/Redis/Publish.antt =====
-- `publish` and `publish_impl` of src/sinks/redis_ts.cpp.
pub mod Laws
use hw_agent.Prelude.{ℕ, ◌-◌, Bool, true, false, Option, none, some, List, if◌then◌else◌}
use hw_agent.Float.{Float}
use hw_agent.Frame.{SignalFrame}
use hw_agent.Platform.{Clock, Hiredis, Double}
use hw_agent.Sinks.Redis.{RedisTsSink}
use hw_agent.Sinks.Redis.Metrics.{madd_args}
use hw_agent.Sinks.Redis.Connection.{run, accepted, ensure_connected, reconnect}

module _ {F : Type 0} ⦃f : Float F⦄ where
  -- a duration between two readings of the steady clock, as a count of milliseconds in a float
  unfoldable pub millis : ℕ → ℕ → F
  millis start end = f.div (f.of_nat (end - start)) (f.lit 1_000_000 1)

module _ {F D W : Type 0} ⦃f : Float F⦄ (d : Double F D) (clock : Clock W) (redis : Hiredis W) where
  unfoldable pub publish_impl :
      RedisTsSink → SignalFrame F → W → Bool × RedisTsSink × SignalFrame F × W
  unfolding millis madd_args run
  publish_impl sink frame w =
      let (now_ns, w₁) = clock.unix_now_ns w in
      let (start, w₂) = clock.steady_now_ns w₁ in
      let (reply, sink', w₃) = run redis (madd_args d sink now_ns frame) sink w₂ in
      let (end, w₄) = clock.steady_now_ns w₃ in
      (
        accepted reply,
        sink',
        record frame { agent = record frame.agent { redis_latency_ms = millis start end } },
        w₄,
      )

  -- One retry, over a new connection.
  unfoldable pub publish : RedisTsSink → SignalFrame F → W → Bool × RedisTsSink × SignalFrame F × W
  publish sink frame w =
      let (connected, sink₁, w₁) = ensure_connected redis sink w in
      if connected
      then (let (ok, sink₂, frame₂, w₂) = publish_impl sink₁ frame w₁ in
          if ok
          then (true, sink₂, frame₂, w₂)
          else (let (again, sink₃, w₃) = reconnect redis sink₂ w₂ in
              if again then publish_impl sink₃ frame₂ w₃ else (false, sink₃, frame₂, w₃)))
      else (false, sink₁, frame, w₁)
