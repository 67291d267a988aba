-- ===== src/Derived/Io.antt =====
-- src/derived/io_pressure.cpp.
use hw_agent.Prelude.{arith}
use hw_agent.Float.{Float, IsFloat, HasWeights, IsNum, InUnit}
use hw_agent.Frame.{SignalFrame}
use hw_agent.Core.Math.{clamp01, clamp01-InUnit}
use hw_agent.Derived.Ema.{Ema, update, IsSound, update-clamped}
use hw_agent.Derived.Weighted.{three, scaled-InUnit, falling-InUnit}

module _ {F : Type 0} ⦃f : Float F⦄ where
  -- `raw_score`
  unfoldable pub io_score : SignalFrame F → F
  io_score frame =
      let disk_norm = clamp01 (f.sub (f.lit 1 1) (f.exp (f.div (f.neg frame.disk) (f.lit 50 1)))) in
      let network_norm = clamp01 frame.network in
      let psi_norm = clamp01 (f.div frame.psi_io (f.lit 20 1)) in
      f.add (f.add (f.mul (f.lit 70 100) disk_norm) (f.mul (f.lit 20 100) network_norm))
        (f.mul (f.lit 10 100) psi_norm)

  unfoldable pub sample : Ema F → SignalFrame F → Ema F × SignalFrame F
  sample ema frame =
      let e = update (f.lit 25 100) (io_score frame) ema in
      (e, record frame { io_pressure = clamp01 e.value })

  module _ (laws : IsFloat F) (weights : HasWeights F) where
    io_score-InUnit :
        (frame : SignalFrame F)
        → IsNum frame.disk
        → IsNum frame.network
        → IsNum frame.psi_io
        → InUnit (io_score frame)
    unfolding io_score
    io_score-InUnit frame d n p =
        three laws 70 20 _ _ (omega arith) (omega arith)
          (falling-InUnit laws 50 frame.disk (omega arith) (omega arith) d)
          (clamp01-InUnit laws frame.network n) 10 _ (omega arith)
          (scaled-InUnit laws 20 frame.psi_io (omega arith) (omega arith) p) weights.seven_two_one

    -- From numbers, the pressure is in [0, 1] and so is the average that is kept.
    pub sample-InUnit :
        (ema : Ema F) (frame : SignalFrame F)
        → IsNum frame.disk
        → IsNum frame.network
        → IsNum frame.psi_io
        → IsSound ema
        → IsSound (sample ema frame).0 × InUnit (sample ema frame).1.io_pressure
    unfolding sample
    sample-InUnit ema frame d n p s =
        update-clamped laws 25 (io_score frame) ema (omega arith) (io_score-InUnit frame d n p) s
