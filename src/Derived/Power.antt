-- ===== src/Derived/Power.antt =====
-- src/derived/power_pressure.cpp.
use hw_agent.Prelude.{arith}
use hw_agent.Float.{Float, IsFloat, HasWeights, IsNum, InUnit}
use hw_agent.Frame.{SignalFrame}
use hw_agent.Core.Math.{clamp01, clamp01-InUnit}
use hw_agent.Derived.Ema.{Ema, update, IsSound, update-clamped}
use hw_agent.Derived.Weighted.{three, scaled-InUnit}

module _ {F : Type 0} ⦃f : Float F⦄ where
  -- `raw_score`
  unfoldable pub power_score : SignalFrame F → F
  power_score frame =
      let raw_throttle = clamp01 frame.cpu_throttle_ratio in
      let cpu_norm = clamp01 (f.div frame.cpu (f.lit 100 1)) in
      let thermal_norm = clamp01 frame.thermal_pressure in
      f.add (f.add (f.mul (f.lit 75 100) raw_throttle) (f.mul (f.lit 15 100) cpu_norm))
        (f.mul (f.lit 10 100) thermal_norm)

  unfoldable pub sample : Ema F → SignalFrame F → Ema F × SignalFrame F
  sample ema frame =
      let e = update (f.lit 25 100) (power_score frame) ema in
      (e, record frame { power_pressure = clamp01 e.value })

  module _ (laws : IsFloat F) (weights : HasWeights F) where
    power_score-InUnit :
        (frame : SignalFrame F)
        → IsNum frame.cpu_throttle_ratio
        → IsNum frame.cpu
        → IsNum frame.thermal_pressure
        → InUnit (power_score frame)
    unfolding power_score
    power_score-InUnit frame r c t =
        three laws 75 15 _ _ (omega arith) (omega arith)
          (clamp01-InUnit laws frame.cpu_throttle_ratio r)
          (scaled-InUnit laws 100 frame.cpu (omega arith) (omega arith) c) 10 _ (omega arith)
          (clamp01-InUnit laws frame.thermal_pressure t) weights.power

    -- From numbers, the pressure is in [0, 1] and so is the average that is kept.
    pub sample-InUnit :
        (ema : Ema F) (frame : SignalFrame F)
        → IsNum frame.cpu_throttle_ratio
        → IsNum frame.cpu
        → IsNum frame.thermal_pressure
        → IsSound ema
        → IsSound (sample ema frame).0 × InUnit (sample ema frame).1.power_pressure
    unfolding sample
    sample-InUnit ema frame r c t s =
        update-clamped laws 25 (power_score frame) ema (omega arith)
          (power_score-InUnit frame r c t) s
