-- ===== src/Sensors/Softirqs.antt =====
-- `SoftirqsSensor` of src/sensors/softirqs.cpp: the scanner of /proc/softirqs and the burst score.
pub mod Scanner
pub mod Burst
use hw_agent.Prelude.{
  ℕ, ◌+◌, ◌-◌, ◌*◌, ◌/◌, ◌%◌, ◌^◌, ◌≤◌, ◌<◌, ◌≡◌, ◌∙◌, refl, Bool, true, false, ◌&&◌, ◌||◌, ◌==◌,
  ltb, arith, Text, List, [], ◌∷◌, ◌++◌, All, if◌then◌else◌, add64, foldl, Option, none, some,
}
use hw_agent.Float.{Float}
use hw_agent.Frame.{SignalFrame}
use hw_agent.Core.Text.{is_digit}
use hw_agent.Sensors.Files.{increase}

abbrev pub max_value : ℕ
max_value = 18_446_744_073_709_551_615

-- The locals of the loops of `sample`.
pub record Scan : Type 0 where
  pub parse_values : Bool
  pub in_number : Bool
  pub current_value : ℕ
  pub total_softirqs : ℕ

abbrev pub start : Scan
start = record { parse_values = false; in_number = false; current_value = 0; total_softirqs = 0 }

-- `current_value` after a further digit: it stops at the largest value.
unfoldable pub append_digit : ℕ → ℕ → ℕ
append_digit current_value digit =
    if ltb (max_value / 10) current_value
      || (current_value == max_value / 10 && ltb (max_value % 10) digit)
    then max_value
    else current_value * 10 + digit

-- a number that ends
unfoldable pub end_number : Scan → Scan
unfolding add64
end_number s =
    if s.in_number
    then record s {
      total_softirqs = add64 s.total_softirqs s.current_value;
      in_number = false;
      current_value = 0;
    }
    else s

-- The body of the loop over the bytes.
unfoldable pub scan : Scan → ℕ → Scan
unfolding append_digit end_number is_digit
scan s ch =
    if ch == b'\n'
    then record (end_number s) { parse_values = false }
    else if s.parse_values
    then if is_digit ch
      then record s {
        in_number = true;
        current_value = if s.in_number then append_digit s.current_value (ch - b'0') else ch - b'0';
      }
      else end_number s
    else record s { parse_values = ch == b':' }

-- The loop over the buffers that fread fills, up to the first empty one: the scan, and
-- `saw_any_data`.
unfoldable pub read_all : List Text → Scan → Bool → Scan × Bool
read_all [] s saw = (s, saw)
read_all ([] ∷ rest) s saw = (s, saw)
read_all ((c ∷ cs) ∷ rest) s saw = read_all rest (foldl scan s (c ∷ cs)) true

-- `total_softirqs` at the end
unfoldable pub total_of : Scan → ℕ
unfolding add64
total_of s = if s.in_number then add64 s.total_softirqs s.current_value else s.total_softirqs

-- What one sample reads: no file, a file that fails in fseek, or the buffers.
pub data Buffers : Type 0 where
  not_opened : Buffers
  not_seekable : Buffers
  filled : List Text → Buffers

-- `prev_total_`, `baseline_delta_` and `has_prev_`
pub record Softirqs (F : Type 0) : Type 0 where
  pub prev_total : ℕ
  pub baseline_delta : F
  pub has_prev : Bool

module _ {F : Type 0} ⦃f : Float F⦄ where
  -- The last clamp, written with two comparisons.
  unfoldable pub burst_score : F → F → F
  burst_score delta_f baseline_delta =
      let score = f.div (f.sub (f.div delta_f baseline_delta) (f.lit 15 10)) (f.lit 25 10) in
      if f.lt score (f.lit 0 1)
      then f.lit 0 1
      else if f.lt (f.lit 1 1) score
      then f.lit 1 1
      else score

  -- What follows the reading: `prev_total_`, the baseline, and the signal.
  unfoldable pub rate : Softirqs F → ℕ → Softirqs F × F
  unfolding increase burst_score
  rate s total_softirqs =
      let delta_f = f.of_nat (increase s.prev_total total_softirqs) in
      let blended =
        f.add (f.mul (f.sub (f.lit 1 1) (f.lit 2 10)) s.baseline_delta)
          (f.mul (f.lit 2 10) delta_f) in
      if s.has_prev
      then if f.le s.baseline_delta (f.lit 0 1)
        then (
          record { prev_total = total_softirqs; baseline_delta = delta_f; has_prev = true },
          f.lit 0 1,
        )
        else (
          record { prev_total = total_softirqs; baseline_delta = blended; has_prev = true },
          if f.le blended (f.lit 0 1) then f.lit 0 1 else burst_score delta_f blended,
        )
      else (
        record { prev_total = total_softirqs; baseline_delta = f.lit 0 1; has_prev = true },
        f.lit 0 1,
      )

  unfoldable pub sample : Buffers → Softirqs F → SignalFrame F → Bool × Softirqs F × SignalFrame F
  unfolding read_all total_of rate
  sample not_opened s frame = (false, s, record frame { softirqs = f.lit 0 1 })
  sample not_seekable s frame = (false, s, record frame { softirqs = f.lit 0 1 })
  sample (filled buffers) s frame =
      let (scanned, saw_any_data) = read_all buffers start false in
      let (s', signal) = rate s (total_of scanned) in
      if saw_any_data
      then (true, s', record frame { softirqs = signal })
      else (false, s, record frame { softirqs = f.lit 0 1 })
