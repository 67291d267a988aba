-- ===== src/Risk/Saturation.antt =====
-- src/risk/saturation_risk.cpp.
use hw_agent.Prelude.{arith}
use hw_agent.Float.{Float, IsFloat, HasWeights, IsNum, InUnit}
use hw_agent.Frame.{SignalFrame}
use hw_agent.Core.Math.{clamp01, clamp01-InUnit}
use hw_agent.Derived.Ema.{Ema, update, IsSound, update-clamped}
use hw_agent.Derived.Weighted.{five}

module _ {F : Type 0} ⦃f : Float F⦄ where
  -- `raw_score`
  unfoldable pub saturation_score : SignalFrame F → F
  saturation_score frame =
      let scheduler_norm = clamp01 frame.scheduler_pressure in
      let memory_norm = clamp01 frame.memory_pressure in
      let io_norm = clamp01 frame.io_pressure in
      let power_norm = clamp01 frame.power_pressure in
      let thermal_norm = clamp01 frame.thermal_pressure in
      f.add
        (f.add
          (f.add (f.add (f.mul (f.lit 30 100) scheduler_norm) (f.mul (f.lit 25 100) memory_norm))
            (f.mul (f.lit 20 100) io_norm))
          (f.mul (f.lit 15 100) power_norm))
        (f.mul (f.lit 10 100) thermal_norm)

  unfoldable pub sample : Ema F → SignalFrame F → Ema F × SignalFrame F
  sample ema frame =
      let e = update (f.lit 18 100) (saturation_score frame) ema in
      (e, record frame { saturation_risk = clamp01 e.value })

  module _ (laws : IsFloat F) (weights : HasWeights F) where
    -- From pressures that are numbers, the risk is in [0, 1] and so is the average that is kept.
    pub sample-InUnit :
        (ema : Ema F) (frame : SignalFrame F)
        → IsNum frame.scheduler_pressure
        → IsNum frame.memory_pressure
        → IsNum frame.io_pressure
        → IsNum frame.power_pressure
        → IsNum frame.thermal_pressure
        → IsSound ema
        → IsSound (sample ema frame).0 × InUnit (sample ema frame).1.saturation_risk
    unfolding sample saturation_score
    sample-InUnit ema frame s m i p t h =
        update-clamped laws 18 _ ema (omega arith)
          (five laws 30 25 _ _ (omega arith) (omega arith)
            (clamp01-InUnit laws frame.scheduler_pressure s)
            (clamp01-InUnit laws frame.memory_pressure m) 20 _ (omega arith)
            (clamp01-InUnit laws frame.io_pressure i) 15 _ (omega arith)
            (clamp01-InUnit laws frame.power_pressure p) 10 _ (omega arith)
            (clamp01-InUnit laws frame.thermal_pressure t) weights.saturation)
          h
