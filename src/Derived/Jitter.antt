-- ===== src/Derived/Jitter.antt =====
-- src/derived/latency_jitter.cpp: the spread of the last eight intervals between cycles.
pub mod Window
pub mod Bounds
use hw_agent.Prelude.{
  ℕ, zero, suc, ◌+◌, ◌%◌, ◌^◌, List, [], ◌∷◌, Bool, true, false, Option, none, some, foldl,
  if◌then◌else◌, ltb, add64, sub64, set, take,
}
use hw_agent.Float.{Float}
use hw_agent.Frame.{SignalFrame}
use hw_agent.Core.Math.{clamp01}
use hw_agent.Derived.Ema.{Ema, update}
use hw_agent.Derived.Ema

abbrev pub window : ℕ
window = 8

-- `intervals_ns_`, `count_`, `next_`, `prev_timestamp_` and `has_prev_timestamp_`
pub record Intervals : Type 0 where
  pub intervals_ns : List ℕ
  pub count : ℕ
  pub next : ℕ
  pub prev_timestamp : ℕ
  pub has_prev_timestamp : Bool

unfoldable pub no_intervals : Intervals
no_intervals = record {
  intervals_ns = 0 ∷ 0 ∷ 0 ∷ 0 ∷ 0 ∷ 0 ∷ 0 ∷ 0 ∷ [];
  count = 0;
  next = 0;
  prev_timestamp = 0;
  has_prev_timestamp = false;
}

-- The writes to `intervals_ns_`, `next_` and `count_` at a new interval.
unfoldable pub push : ℕ → Intervals → Intervals
push interval w = record w {
  intervals_ns = set w.intervals_ns w.next interval;
  next = (w.next + 1) % window;
  count = if ltb w.count window then w.count + 1 else w.count;
}

-- `for (i = 0; i < count_; ++i) sum += intervals_ns_[i];`
unfoldable pub sum_intervals : Intervals → ℕ
sum_intervals w = foldl add64 0 (take w.count w.intervals_ns)

-- What a sample does to the window: nothing on the first, then the interval since the last.
unfoldable pub record_interval : ℕ → Intervals → Intervals
unfolding push
record_interval now w =
    let w' = if w.has_prev_timestamp then push (sub64 now w.prev_timestamp) w else w in
    record w' { prev_timestamp = now; has_prev_timestamp = true }

module _ {F : Type 0} ⦃f : Float F⦄ where
  -- the loop that adds up the absolute deviations
  unfoldable pub abs_dev_sum : F → F → List ℕ → F
  abs_dev_sum mean acc [] = acc
  abs_dev_sum mean acc (x ∷ xs) =
      let deviation = f.sub (f.of_nat x) mean in
      abs_dev_sum mean
        (f.add acc (if f.lt deviation (f.lit 0 1) then f.neg deviation else deviation)) xs

  -- `temporal_jitter_norm` for a window that has just taken an interval
  unfoldable pub spread : Intervals → F
  unfolding sum_intervals abs_dev_sum
  spread w =
      let mean = f.div (f.of_nat (sum_intervals w)) (f.of_nat w.count) in
      let mad =
        f.div (abs_dev_sum mean (f.lit 0 1) (take w.count w.intervals_ns)) (f.of_nat w.count) in
      if f.lt (f.lit 0 1) mean then clamp01 (f.div (f.div mad mean) (f.lit 25 100)) else f.lit 0 1

  -- `raw_score`, for the jitter of the window
  unfoldable pub jitter_score : F → SignalFrame F → F
  jitter_score temporal_jitter_norm frame =
      let sched_norm = clamp01 frame.scheduler_pressure in
      let io_norm = clamp01 frame.io_pressure in
      f.add (f.add (f.mul (f.lit 60 100) temporal_jitter_norm) (f.mul (f.lit 25 100) sched_norm))
        (f.mul (f.lit 15 100) io_norm)

  unfoldable pub sample : Intervals → Ema F → SignalFrame F → Intervals × Ema F × SignalFrame F
  sample w ema frame =
      let w' = record_interval frame.monotonic_ns w in
      let norm = if w.has_prev_timestamp then spread w' else f.lit 0 1 in
      let e = update (f.lit 30 100) (jitter_score norm frame) ema in
      (w', e, record frame { latency_jitter = clamp01 e.value })
