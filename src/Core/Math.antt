-- ===== src/Core/Math.antt =====
-- include/core/math.hpp.
use hw_agent.Prelude.{◌≡◌, if◌then◌else◌, arith}
use hw_agent.Float.{Float, IsFloat, ◌≼◌, IsNum, InUnit}

module _ {F : Type 0} ⦃f : Float F⦄ where
  -- std::clamp(value, 0.0F, 1.0F): a NaN passes through.
  unfoldable pub clamp01 : F → F
  clamp01 value =
      if f.lt value (f.lit 0 1)
      then (f.lit 0 1)
      else if f.lt (f.lit 1 1) value
      then (f.lit 1 1)
      else value

  module _ (laws : IsFloat F) where
    pub nought_le_one : f.lit 0 1 ≼ f.lit 1 1
    nought_le_one = laws.lit_mono 0 1 1 1 (ground arith) (ground arith) (ground arith)

    pub clamp01-InUnit : (x : F) → IsNum x → InUnit (clamp01 x)
    unfolding clamp01
    clamp01-InUnit x num =
        let zo = nought_le_one in
        let zn = laws.num_of_le (f.lit 0 1) (f.lit 1 1) zo in
        ground (
          arith,
          laws.lt-eq-not-le x (f.lit 0 1) num zn.0,
          laws.lt-eq-not-le (f.lit 1 1) x zn.1 num,
          laws.le_total x (f.lit 0 1) num zn.0,
          laws.le_total (f.lit 1 1) x zn.1 num,
        )

    -- A value in range is left as it is.
    pub clamp01_id : (x : F) → InUnit x → clamp01 x ≡ x
    unfolding clamp01
    clamp01_id x (lo, hi) =
        let zo = nought_le_one in
        let zn = laws.num_of_le (f.lit 0 1) (f.lit 1 1) zo in
        let num = laws.num_of_le (f.lit 0 1) x lo in
        ground (
          arith,
          laws.lt-eq-not-le x (f.lit 0 1) num.1 zn.0,
          laws.lt-eq-not-le (f.lit 1 1) x zn.1 num.1,
        )
