-- ===== src/Derived/Ema.antt =====
-- The exponential moving average that each class of src/derived and src/risk keeps in `ema_` and
-- `has_ema_`.
use hw_agent.Prelude.{ℕ, ◌≤◌, ◌≡◌, Bool, true, false, arith, if◌then◌else◌}
use hw_agent.Float.{Float, IsFloat, IsNum, InUnit}
use hw_agent.Core.Math.{clamp01, clamp01-InUnit}

pub record Ema (F : Type 0) : Type 0 where
  pub value : F
  pub seeded : Bool

module _ {F : Type 0} ⦃f : Float F⦄ where
  -- The members as the constructors leave them.
  unfoldable pub empty : Ema F
  empty = record { value = f.lit 0 1; seeded = false }

  -- `if (!has_ema_) ema_ = raw_score; else ema_ = (1.0F - alpha) * ema_ + alpha * raw_score;`
  unfoldable pub update : F → F → Ema F → Ema F
  update alpha raw_score e =
      if e.seeded
      then record {
        value = f.add (f.mul (f.sub (f.lit 1 1) alpha) e.value) (f.mul alpha raw_score);
        seeded = true;
      }
      else record { value = raw_score; seeded = true }

  -- Once it has a value, that value is in [0, 1].
  pub record IsSound (e : Ema F) : Type 0 where
    pub bounded : e.seeded ≡ true → InUnit e.value

  -- A NaN has reached the average.
  pub record IsPoisoned (e : Ema F) : Type 0 where
    pub seeded : e.seeded ≡ true
    pub nan : ¬ IsNum e.value

  pub empty-IsSound : IsSound empty
  unfolding empty
  empty-IsSound = ground arith

  module _ (laws : IsFloat F) where
    lit_unit : (n : ℕ) → n ≤ 100 → InUnit (f.lit n 100)
    lit_unit n h = (
      laws.lit_mono 0 1 n 100 (omega arith) (omega arith) (omega arith),
      laws.lit_mono n 100 1 1 (omega arith) (omega arith) (omega arith),
    )

    blend_unit :
        (n : ℕ) (x y : F)
        → n ≤ 100
        → InUnit x
        → InUnit y
        → InUnit (f.add (f.mul (f.sub (f.lit 1 1) (f.lit n 100)) x) (f.mul (f.lit n 100) y))
    blend_unit n x y h hx hy =
        let a = lit_unit n h in
        let c = laws.sub_unit (f.lit n 100) a in
        let p = laws.mul_unit (f.sub (f.lit 1 1) (f.lit n 100)) x c hx in
        let q = laws.mul_unit (f.lit n 100) y a hy in
        let s = laws.add_le _ _ _ _ p.0 p.1 q.0 q.1 in
        (s.0, laws.le_trans _ _ _ s.1 (laws.complement n h))

    pub update-IsSound :
        (n : ℕ) (raw : F) (e : Ema F)
        → n ≤ 100
        → InUnit raw
        → IsSound e
        → IsSound (update (f.lit n 100) raw e) × InUnit (update (f.lit n 100) raw e).value
    unfolding update
    update-IsSound n raw e h r s = ground (arith, blend_unit n e.value raw h, s.bounded)

    -- What each class publishes: the clamped average.
    pub update-clamped :
        (n : ℕ) (raw : F) (e : Ema F)
        → n ≤ 100
        → InUnit raw
        → IsSound e
        → IsSound (update (f.lit n 100) raw e) × InUnit (clamp01 (update (f.lit n 100) raw e).value)
    update-clamped n raw e h r s =
        let (sound, unit) = update-IsSound n raw e h r s in
        (sound, clamp01-InUnit laws _ (laws.num_of_le _ _ unit.0).1)

    -- No later score clears a NaN.
    pub update-IsPoisoned :
        (alpha raw : F) (e : Ema F) → IsPoisoned e → IsPoisoned (update alpha raw e)
    unfolding update
    update-IsPoisoned alpha raw e p = ground (
      arith,
      p.nan,
      laws.add_nan (f.mul (f.sub (f.lit 1 1) alpha) e.value) (f.mul alpha raw),
      laws.mul_nan (f.sub (f.lit 1 1) alpha) e.value,
    )
