-- ===== src/Risk/Realtime.antt =====
-- src/risk/realtime_risk.cpp.
use hw_agent.Prelude.{arith}
use hw_agent.Float.{Float, IsFloat, HasWeights, IsNum, InUnit}
use hw_agent.Frame.{SignalFrame}
use hw_agent.Core.Math.{clamp01, clamp01-InUnit}
use hw_agent.Derived.Ema.{Ema, update, IsSound, update-clamped}
use hw_agent.Derived.Weighted.{four}

module _ {F : Type 0} ⦃f : Float F⦄ where
  -- `raw_score`
  unfoldable pub realtime_score : SignalFrame F → F
  realtime_score frame =
      let latency_norm = clamp01 frame.latency_jitter in
      let scheduler_norm = clamp01 frame.scheduler_pressure in
      let thermal_norm = clamp01 frame.thermal_pressure in
      let io_norm = clamp01 frame.io_pressure in
      f.add
        (f.add (f.add (f.mul (f.lit 55 100) latency_norm) (f.mul (f.lit 25 100) scheduler_norm))
          (f.mul (f.lit 15 100) thermal_norm))
        (f.mul (f.lit 5 100) io_norm)

  unfoldable pub sample : Ema F → SignalFrame F → Ema F × SignalFrame F
  sample ema frame =
      let e = update (f.lit 35 100) (realtime_score frame) ema in
      (e, record frame { realtime_risk = clamp01 e.value })

  module _ (laws : IsFloat F) (weights : HasWeights F) where
    -- From pressures that are numbers, the risk is in [0, 1] and so is the average that is kept.
    pub sample-InUnit :
        (ema : Ema F) (frame : SignalFrame F)
        → IsNum frame.latency_jitter
        → IsNum frame.scheduler_pressure
        → IsNum frame.thermal_pressure
        → IsNum frame.io_pressure
        → IsSound ema
        → IsSound (sample ema frame).0 × InUnit (sample ema frame).1.realtime_risk
    unfolding sample realtime_score
    sample-InUnit ema frame l s t i h =
        update-clamped laws 35 _ ema (omega arith)
          (four laws 55 25 _ _ (omega arith) (omega arith)
            (clamp01-InUnit laws frame.latency_jitter l)
            (clamp01-InUnit laws frame.scheduler_pressure s) 15 _ (omega arith)
            (clamp01-InUnit laws frame.thermal_pressure t) 5 _ (omega arith)
            (clamp01-InUnit laws frame.io_pressure i) weights.realtime)
          h
