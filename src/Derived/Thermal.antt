-- ===== src/Derived/Thermal.antt =====
-- src/derived/thermal_pressure.cpp.
use hw_agent.Prelude.{◌≡◌, true, if◌then◌else◌, arith}
use hw_agent.Float.{Float, IsFloat, HasWeights, IsNum, IsFinite, InUnit}
use hw_agent.Frame.{SignalFrame}
use hw_agent.Core.Math.{clamp01, clamp01-InUnit}
use hw_agent.Derived.Ema.{Ema, update, IsSound, update-clamped}
use hw_agent.Derived.Weighted.{three, scaled-InUnit}

module _ {F : Type 0} ⦃f : Float F⦄ where
  -- The constructor's choice of `warning_window_c_`.
  unfoldable pub warning_window : F → F
  warning_window warning_window_c =
      if f.lt (f.lit 0 1) warning_window_c then warning_window_c else f.lit 30 1

  -- `raw_score`, for the window kept by the object
  unfoldable pub thermal_score : F → SignalFrame F → F
  thermal_score window frame =
      let headroom_pressure = clamp01 (f.div (f.sub window frame.thermal) window) in
      let throttle_norm = clamp01 frame.cpu_throttle_ratio in
      let cpu_norm = clamp01 (f.div frame.cpu (f.lit 100 1)) in
      f.add (f.add (f.mul (f.lit 70 100) headroom_pressure) (f.mul (f.lit 20 100) throttle_norm))
        (f.mul (f.lit 10 100) cpu_norm)

  unfoldable pub sample : F → Ema F → SignalFrame F → Ema F × SignalFrame F
  sample window ema frame =
      let e = update (f.lit 20 100) (thermal_score window frame) ema in
      (e, record frame { thermal_pressure = clamp01 e.value })

  -- A window that the score can divide by.
  pub record IsWindow (w : F) : Type 0 where
    pub finite : IsFinite w
    pub positive : f.lt (f.lit 0 1) w ≡ true

  module _ (laws : IsFloat F) where
    -- From any window that is finite if it is positive, so also from zero, a negative one or a NaN,
    -- the constructor keeps a window that is finite and positive.
    pub warning_window-IsWindow :
        (w : F) → (f.lt (f.lit 0 1) w ≡ true → IsFinite w) → IsWindow (warning_window w)
    unfolding warning_window
    warning_window-IsWindow w h = ground (
      arith,
      h,
      laws.lit_pos 30 1 (omega arith) (omega arith) (omega arith) (omega arith),
      laws.lit_finite 30 1 (omega arith) (omega arith),
    )

  module _ (laws : IsFloat F) (weights : HasWeights F) where
    thermal_score-InUnit :
        (window : F) (frame : SignalFrame F)
        → IsWindow window
        → IsNum frame.thermal
        → IsNum frame.cpu_throttle_ratio
        → IsNum frame.cpu
        → InUnit (thermal_score window frame)
    unfolding thermal_score
    thermal_score-InUnit window frame w t r c =
        three laws 70 20 _ _ (omega arith) (omega arith)
          (clamp01-InUnit laws _ (
            laws.div_num _ window (laws.rsub_num window frame.thermal w.finite t) w.finite
              w.positive))
          (clamp01-InUnit laws frame.cpu_throttle_ratio r) 10 _ (omega arith)
          (scaled-InUnit laws 100 frame.cpu (omega arith) (omega arith) c) weights.seven_two_one

    -- From numbers and a finite positive window, the pressure is in [0, 1] and so is the average
    -- that is kept.
    pub sample-InUnit :
        (window : F) (ema : Ema F) (frame : SignalFrame F)
        → IsWindow window
        → IsNum frame.thermal
        → IsNum frame.cpu_throttle_ratio
        → IsNum frame.cpu
        → IsSound ema
        → IsSound (sample window ema frame).0 × InUnit (sample window ema frame).1.thermal_pressure
    unfolding sample
    sample-InUnit window ema frame w t r c s =
        update-clamped laws 20 (thermal_score window frame) ema (omega arith)
          (thermal_score-InUnit window frame w t r c) s
