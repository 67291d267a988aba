-- ===== src/Derived/Jitter/Bounds.antt =====
-- The range of the jitter of src/derived/latency_jitter.cpp.
use hw_agent.Prelude.{
  ℕ, ◌^◌, ◌≤◌, ◌<◌, ◌≡◌, Bool, true, false, List, [], ◌∷◌, arith, if◌then◌else◌, All, All-set,
  All-take, take, Bool-cases, inl, inr, sub64, subst, refl,
}
use hw_agent.Float.{Float, IsFloat, HasWeights, ◌≼◌, IsNum, IsFinite, InUnit}
use hw_agent.Frame.{SignalFrame}
use hw_agent.Core.Math.{clamp01-InUnit}
use hw_agent.Derived.Ema.{Ema, IsSound, update-clamped}
use hw_agent.Derived.Weighted.{three}
use hw_agent.Derived.Jitter.{
  Intervals, no_intervals, push, sum_intervals, record_interval, abs_dev_sum, spread, jitter_score,
  sample,
}
use hw_agent.Derived.Jitter.Window.{IsRing, push-IsRing, no_intervals-IsRing, sum_intervals-ordered}

-- a `std::uint64_t`
abbrev Word : ℕ → Type 0
Word x = x < 2 ^ 64

-- The ring is well formed, its cells are words, and it is empty until there is a timestamp.
pub record IsKept (w : Intervals) : Type 0 where
  pub ring : IsRing w
  pub words : All Word w.intervals_ns

pub no_intervals-IsKept : IsKept no_intervals
unfolding no_intervals
no_intervals-IsKept = record { ring = no_intervals-IsRing; words = ground arith }

sub64-lt : (a b : ℕ) → sub64 a b < 2 ^ 64
unfolding sub64
sub64-lt a b = omega arith

push-IsKept : (x : ℕ) (w : Intervals) → Word x → IsKept w → IsKept (push x w)
push-IsKept x w h k = record {
  ring = push-IsRing x w k.ring;
  words = unfold push in All-set Word w.intervals_ns w.next x h k.words;
}

push-count : (x : ℕ) (w : Intervals) → 1 ≤ (push x w).count
unfolding push
push-count x w = ground arith

sum_intervals-lt : (w : Intervals) → IsRing w → sum_intervals w < 2 ^ 64
sum_intervals-lt w r = omega (arith, sum_intervals-ordered w r)

stamp_IsKept :
    (now : ℕ) (w : Intervals)
    → IsKept w
    → IsKept (record w { prev_timestamp = now; has_prev_timestamp = true })
stamp_IsKept now w k = record {
  ring = record {
    room = k.ring.room;
    count_le = k.ring.count_le;
    next_lt = k.ring.next_lt;
    next_le = k.ring.next_le;
    filling = k.ring.filling;
  };
  words = k.words;
}

pub record_interval-IsKept : (now : ℕ) (w : Intervals) → IsKept w → IsKept (record_interval now w)
unfolding record_interval
record_interval-IsKept now w k = elim (Bool-cases w.has_prev_timestamp) [
  | inl second ↦ rw second (stamp_IsKept now _ (push-IsKept _ w (sub64-lt now w.prev_timestamp) k))
  | inr first ↦ rw first (stamp_IsKept now w k)
]

record_interval-count :
    (now : ℕ) (w : Intervals) → w.has_prev_timestamp ≡ true → 1 ≤ (record_interval now w).count
unfolding record_interval
record_interval-count now w h = rw h (push-count (sub64 now w.prev_timestamp) w)

module _ {F : Type 0} ⦃f : Float F⦄ (laws : IsFloat F) where
  positive : (y : F) → f.lit 1 1 ≼ y → f.lt (f.lit 0 1) y ≡ true
  positive y h =
      let zero_num = laws.num_of_finite _ (laws.lit_finite 0 1 (omega arith) (omega arith)) in
      ground (
        arith,
        laws.lt-eq-not-le (f.lit 0 1) y zero_num (laws.num_of_le _ _ h).1,
        laws.lt-eq-not-le (f.lit 0 1) (f.lit 1 1) zero_num (laws.num_of_le _ _ h).0,
        laws.lit_pos 1 1 (omega arith) (omega arith) (omega arith) (omega arith),
        laws.le_trans (f.lit 1 1) y (f.lit 0 1) h,
      )

  size_nonneg :
      (dev : F) → IsNum dev → f.lit 0 1 ≼ (if f.lt dev (f.lit 0 1) then f.neg dev else dev)
  size_nonneg dev h =
      let zero_num = laws.num_of_finite _ (laws.lit_finite 0 1 (omega arith) (omega arith)) in
      ground (arith, laws.lt-eq-not-le dev (f.lit 0 1) h zero_num, laws.neg_nonneg dev)

  -- adding up absolute deviations from a finite mean gives a number that is not negative
  abs_dev_sum_nonneg :
      (mean acc : F) (l : List ℕ)
      → IsFinite mean
      → f.lit 0 1 ≼ acc
      → All Word l
      → f.lit 0 1 ≼ abs_dev_sum mean acc l
  unfolding abs_dev_sum
  abs_dev_sum_nonneg mean acc [] m a h = a
  abs_dev_sum_nonneg mean acc (x ∷ xs) m a (p, ps) =
      let dev = f.sub (f.of_nat x) mean in
      let dev_num = laws.sub_num (f.of_nat x) mean (laws.num_of_finite _ (laws.nat_finite x p)) m in
      let size = if f.lt dev (f.lit 0 1) then f.neg dev else dev in
      let nonneg : f.lit 0 1 ≼ size = size_nonneg dev dev_num in
      abs_dev_sum_nonneg mean (f.add acc size) xs m
        (laws.add_le _ _ _ _ a (laws.num_of_le _ _ a).1 nonneg (laws.num_of_le _ _ nonneg).1).0 ps

  nat_ge_one : (n : ℕ) → 1 ≤ n → Word n → f.lit 1 1 ≼ f.of_nat n
  nat_ge_one n h w = subst (λ t. t ≼ f.of_nat n) laws.nat_one (laws.nat_mono 1 n h w)

  pub spread-InUnit : (w : Intervals) → IsKept w → 1 ≤ w.count → InUnit (spread {F = F} w)
  unfolding spread
  spread-InUnit w k c =
      let count_word : Word w.count = omega (arith, k.ring.count_le) in
      let count_ge = nat_ge_one w.count c count_word in
      let mean : F = f.div (f.of_nat (sum_intervals w)) (f.of_nat w.count) in
      let mean_finite =
        laws.div_finite _ _ (laws.nat_finite _ (sum_intervals-lt w k.ring)) count_ge in
      let zero_le_one = laws.lit_mono 0 1 1 1 (omega arith) (omega arith) (omega arith) in
      let zero_num = (laws.num_of_le _ _ zero_le_one).0 in
      let dev =
        abs_dev_sum_nonneg mean (f.lit 0 1) (take w.count w.intervals_ns) mean_finite zero_num
          (All-take Word w.count w.intervals_ns k.words) in
      let mad =
        laws.div_num _ (f.of_nat w.count) (laws.num_of_le _ _ dev).1
          (laws.nat_finite w.count count_word) (positive _ count_ge) in
      elim (Bool-cases (f.lt (f.lit 0 1) mean)) [
        | inl above ↦ rw above (
            clamp01-InUnit laws _ (
              laws.div_num _ (f.lit 25 100) (laws.div_num _ mean mad mean_finite above)
                (laws.lit_finite 25 100 (omega arith) (omega arith))
                (laws.lit_pos 25 100 (omega arith) (omega arith) (omega arith) (omega arith))))
        | inr flat ↦ rw flat (zero_num, zero_le_one)
      ]

  if_unit : (b : Bool) (x y : F) → (b ≡ true → InUnit x) → InUnit y → InUnit (if b then x else y)
  if_unit true x y hx hy = hx refl
  if_unit false x y hx hy = hy

  norm_unit :
      (now : ℕ) (w : Intervals)
      → IsKept w
      → InUnit (if w.has_prev_timestamp then spread {F = F} (record_interval now w) else f.lit 0 1)
  norm_unit now w k =
      let zero_le_one = laws.lit_mono 0 1 1 1 (omega arith) (omega arith) (omega arith) in
      if_unit w.has_prev_timestamp _ _
        (λ second.
          spread-InUnit (record_interval now w) (record_interval-IsKept now w k)
            (record_interval-count now w second))
        ((laws.num_of_le _ _ zero_le_one).0, zero_le_one)

module _ {F : Type 0} ⦃f : Float F⦄ (laws : IsFloat F) (weights : HasWeights F) where
  -- From pressures that are numbers, whatever the timestamps, the jitter is in [0, 1], and the ring
  -- and the average that are kept stay well formed.
  pub sample-InUnit :
      (w : Intervals) (ema : Ema F) (frame : SignalFrame F)
      → IsNum frame.scheduler_pressure
      → IsNum frame.io_pressure
      → IsKept w
      → IsSound ema
      → IsKept (sample w ema frame).0
        × IsSound (sample w ema frame).1
        × InUnit (sample w ema frame).2.latency_jitter
  unfolding sample jitter_score
  sample-InUnit w ema frame s i k h =
      let norm = norm_unit laws frame.monotonic_ns w k in
      let out =
        update-clamped laws 30 _ ema (omega arith)
          (three laws 60 25 _ _ (omega arith) (omega arith) norm
            (clamp01-InUnit laws frame.scheduler_pressure s) 15 _ (omega arith)
            (clamp01-InUnit laws frame.io_pressure i) weights.jitter)
          h in
      (record_interval-IsKept frame.monotonic_ns w k, out.0, out.1)
