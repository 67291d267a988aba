-- ===== src/Derived/Scheduler.antt =====
-- src/derived/scheduler_pressure.cpp.
use hw_agent.Prelude.{◌≡◌, true, if◌then◌else◌, arith}
use hw_agent.Float.{Float, IsFloat, HasWeights, ◌≼◌, IsNum, IsFinite, InUnit}
use hw_agent.Frame.{SignalFrame}
use hw_agent.Core.Math.{clamp01, clamp01-InUnit}
use hw_agent.Derived.Ema.{Ema, update, IsSound, update-clamped}
use hw_agent.Derived.Weighted.{four, scaled-InUnit}

module _ {F : Type 0} ⦃f : Float F⦄ where
  -- `irq_baseline_` and `has_irq_baseline_`
  unfoldable pub irq_baseline : Ema F → F → Ema F
  irq_baseline base irq =
      if base.seeded
      then (let b = f.add (f.mul (f.lit 9 10) base.value) (f.mul (f.lit 1 10) irq) in
          record { value = if f.lt b (f.lit 1 1) then f.lit 1 1 else b; seeded = true })
      else record { value = if f.lt (f.lit 1 1) irq then irq else f.lit 1 1; seeded = true }

  -- `raw_score`, for the baseline just updated
  unfoldable pub scheduler_score : F → SignalFrame F → F
  scheduler_score baseline frame =
      let cpu_norm = clamp01 (f.div frame.cpu (f.lit 100 1)) in
      let psi_norm = clamp01 (f.div frame.psi (f.lit 10 1)) in
      let softirq_norm = clamp01 frame.softirqs in
      let irq_ratio = f.div frame.irq (f.add (f.mul (f.lit 2 1) baseline) (f.lit 1 1)) in
      let irq_norm = clamp01 (f.div (f.sub irq_ratio (f.lit 5 10)) (f.lit 15 10)) in
      f.add
        (f.add (f.add (f.mul (f.lit 40 100) cpu_norm) (f.mul (f.lit 35 100) psi_norm))
          (f.mul (f.lit 15 100) irq_norm))
        (f.mul (f.lit 10 100) softirq_norm)

  -- The object's baseline and average, and the frame.
  unfoldable pub sample : Ema F → Ema F → SignalFrame F → Ema F × Ema F × SignalFrame F
  sample base ema frame =
      let b = irq_baseline base frame.irq in
      let e = update (f.lit 30 100) (scheduler_score b.value frame) ema in
      (b, e, record frame { scheduler_pressure = clamp01 e.value })

  -- Once there is a baseline, it is at least one interrupt a second.
  pub record IsBaseline (base : Ema F) : Type 0 where
    pub at_least : base.seeded ≡ true → f.lit 1 1 ≼ base.value

  module _ (laws : IsFloat F) where
    one-IsNum : IsNum (f.lit 1 1)
    one-IsNum = laws.num_of_finite _ (laws.lit_finite 1 1 (omega arith) (omega arith))

    floor_ge : (b : F) → IsNum b → f.lit 1 1 ≼ (if f.lt b (f.lit 1 1) then f.lit 1 1 else b)
    floor_ge b h = ground (arith, one-IsNum, laws.lt-eq-not-le b (f.lit 1 1) h one-IsNum)

    first_ge : (irq : F) → IsNum irq → f.lit 1 1 ≼ (if f.lt (f.lit 1 1) irq then irq else f.lit 1 1)
    first_ge irq h = ground (
      arith,
      one-IsNum,
      laws.lt-eq-not-le (f.lit 1 1) irq one-IsNum h,
      laws.le_total (f.lit 1 1) irq one-IsNum h,
    )

    blend-IsNum :
        (b irq : F)
        → IsNum b
        → IsFinite irq
        → IsNum (f.add (f.mul (f.lit 9 10) b) (f.mul (f.lit 1 10) irq))
    blend-IsNum b irq h k =
        laws.add_num _ _
          (laws.mul_num 9 10 b (omega arith) (omega arith) (omega arith) (omega arith) h)
          (laws.mul_finite 1 10 irq (omega arith) (omega arith) k)

    -- Whatever finite rate is read, a baseline that is unset or at least 1 becomes at least 1.
    pub irq_baseline-ge :
        (base : Ema F) (irq : F)
        → IsFinite irq
        → IsBaseline base
        → IsBaseline (irq_baseline base irq) × (f.lit 1 1 ≼ (irq_baseline base irq).value)
    unfolding irq_baseline
    irq_baseline-ge base irq h s =
        let b = f.add (f.mul (f.lit 9 10) base.value) (f.mul (f.lit 1 10) irq) in
        ground (
          arith,
          s.at_least,
          laws.num_of_le (f.lit 1 1) base.value,
          blend-IsNum base.value irq (laws.num_of_le (f.lit 1 1) base.value _).1 h,
          floor_ge b,
          first_ge irq (laws.num_of_finite irq h),
        )

    -- The ratio of a finite rate to twice the baseline and one more is a number.
    irq_ratio-IsNum :
        (irq baseline : F)
        → IsFinite irq
        → f.lit 1 1 ≼ baseline
        → IsNum (f.div irq (f.add (f.mul (f.lit 2 1) baseline) (f.lit 1 1)))
    irq_ratio-IsNum irq baseline h k =
        let zero_le_one = laws.lit_mono 0 1 1 1 (omega arith) (omega arith) (omega arith) in
        let zero_le = laws.le_trans _ _ _ zero_le_one k in
        let doubled =
          laws.mul_nonneg 2 1 baseline (omega arith) (omega arith) (omega arith) (omega arith)
            zero_le in
        let sum =
          laws.add_le _ _ _ _ (laws.num_of_le _ _ zero_le_one).0 doubled zero_le_one one-IsNum in
        laws.num_of_finite _ (
          laws.div_finite irq _ h
            (laws.le_trans _ _ _ (laws.zero_add (f.lit 1 1) zero_le_one) sum.1))

  module _ (laws : IsFloat F) (weights : HasWeights F) where
    scheduler_score-InUnit :
        (baseline : F) (frame : SignalFrame F)
        → f.lit 1 1 ≼ baseline
        → IsNum frame.cpu
        → IsNum frame.psi
        → IsFinite frame.irq
        → IsNum frame.softirqs
        → InUnit (scheduler_score baseline frame)
    unfolding scheduler_score
    scheduler_score-InUnit baseline frame b c p q s =
        let ratio =
          laws.sub_num _ (f.lit 5 10) (irq_ratio-IsNum laws frame.irq baseline q b)
            (laws.lit_finite 5 10 (omega arith) (omega arith)) in
        four laws 40 35 _ _ (omega arith) (omega arith)
          (scaled-InUnit laws 100 frame.cpu (omega arith) (omega arith) c)
          (scaled-InUnit laws 10 frame.psi (omega arith) (omega arith) p) 15 _ (omega arith)
          (clamp01-InUnit laws _ (
            laws.div_num _ (f.lit 15 10) ratio (laws.lit_finite 15 10 (omega arith) (omega arith))
              (laws.lit_pos 15 10 (omega arith) (omega arith) (omega arith) (omega arith))))
          10 _ (omega arith) (clamp01-InUnit laws frame.softirqs s) weights.scheduler

    -- From numbers and a finite interrupt rate, the pressure is in [0, 1], and the average and the
    -- baseline that are kept stay in range.
    pub sample-InUnit :
        (base ema : Ema F) (frame : SignalFrame F)
        → IsNum frame.cpu
        → IsNum frame.psi
        → IsFinite frame.irq
        → IsNum frame.softirqs
        → IsBaseline base
        → IsSound ema
        → IsBaseline (sample base ema frame).0
          × IsSound (sample base ema frame).1
          × InUnit (sample base ema frame).2.scheduler_pressure
    unfolding sample
    sample-InUnit base ema frame c p q s hb he =
        let (kept, ge) = irq_baseline-ge laws base frame.irq q hb in
        let out =
          update-clamped laws 30 _ ema (omega arith)
            (scheduler_score-InUnit (irq_baseline base frame.irq).value frame ge c p q s) he in
        (kept, out.0, out.1)
