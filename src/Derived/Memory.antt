-- ===== src/Derived/Memory.antt =====
-- src/derived/memory_pressure.cpp.
use hw_agent.Prelude.{arith}
use hw_agent.Float.{Float, IsFloat, HasWeights, IsNum, InUnit}
use hw_agent.Frame.{SignalFrame}
use hw_agent.Core.Math.{clamp01}
use hw_agent.Derived.Ema.{Ema, update, IsSound, update-clamped}
use hw_agent.Derived.Weighted.{two, scaled-InUnit, falling-InUnit}

module _ {F : Type 0} ⦃f : Float F⦄ where
  -- `raw_score`
  unfoldable pub memory_score : SignalFrame F → F
  memory_score frame =
      let dirty_writeback_norm =
        f.sub (f.lit 1 1) (f.exp (f.div (f.neg frame.memory) (f.lit 262_144 1))) in
      let psi_norm = clamp01 (f.div frame.psi_memory (f.lit 20 1)) in
      f.add (f.mul (f.lit 70 100) (clamp01 dirty_writeback_norm)) (f.mul (f.lit 30 100) psi_norm)

  unfoldable pub sample : Ema F → SignalFrame F → Ema F × SignalFrame F
  sample ema frame =
      let e = update (f.lit 25 100) (memory_score frame) ema in
      (e, record frame { memory_pressure = clamp01 e.value })

  module _ (laws : IsFloat F) (weights : HasWeights F) where
    memory_score-InUnit :
        (frame : SignalFrame F)
        → IsNum frame.memory
        → IsNum frame.psi_memory
        → InUnit (memory_score frame)
    unfolding memory_score
    memory_score-InUnit frame m p =
        two laws 70 30 _ _ (omega arith) (omega arith)
          (falling-InUnit laws 262_144 frame.memory (omega arith) (omega arith) m)
          (scaled-InUnit laws 20 frame.psi_memory (omega arith) (omega arith) p) weights.seven_three

    -- From numbers, the pressure is in [0, 1] and so is the average that is kept.
    pub sample-InUnit :
        (ema : Ema F) (frame : SignalFrame F)
        → IsNum frame.memory
        → IsNum frame.psi_memory
        → IsSound ema
        → IsSound (sample ema frame).0 × InUnit (sample ema frame).1.memory_pressure
    unfolding sample
    sample-InUnit ema frame m p s =
        update-clamped laws 25 (memory_score frame) ema (omega arith)
          (memory_score-InUnit frame m p) s
