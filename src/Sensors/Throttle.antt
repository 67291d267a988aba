-- ===== src/Sensors/Throttle.antt =====
-- `CpuThrottleSensor` of src/sensors/power.cpp.
use hw_agent.Prelude.{
  ℕ, ◌+◌, ◌≤◌, Bool, true, ◌&&◌, ◌||◌, ◌==◌, ltb, arith, List, [], ◌∷◌, length, if◌then◌else◌,
}
use hw_agent.Float.{Float, IsFloat, IsFinite, InUnit}
use hw_agent.Frame.{SignalFrame}
use hw_agent.Sensors.Files.{File, read_u64_file, IsWord, ratio-IsFinite, nought-IsFinite}

-- The members of `ThermalThrottleSource` beside its files.
pub record Core : Type 0 where
  pub prev_core_throttle_count : ℕ
  pub prev_package_throttle_count : ℕ
  pub has_prev_counts : Bool

-- The two files of a core.
pub record Reading : Type 0 where
  pub core_throttle_count_file : File
  pub package_throttle_count_file : File

-- The body of the loop: whether both reads succeeded, whether the core counts as throttled, and the
-- counts that are kept.
unfoldable pub sample_core : Core → Reading → Bool × Bool × Core
unfolding read_u64_file
sample_core core reading =
    let (ok, core_throttle_count) = read_u64_file reading.core_throttle_count_file in
    let (ok', package_throttle_count) = read_u64_file reading.package_throttle_count_file in
    let rose =
      core.has_prev_counts
      && (ltb core.prev_core_throttle_count core_throttle_count
          || ltb core.prev_package_throttle_count package_throttle_count) in
    (
      ok && ok',
      rose,
      record {
        prev_core_throttle_count = core_throttle_count;
        prev_package_throttle_count = package_throttle_count;
        has_prev_counts = true;
      },
    )

-- The loop over `cores_`: `all_reads_ok`, `throttled_cores`, and the cores.
unfoldable pub sample_cores : List (Core × Reading) → Bool × ℕ × List Core
unfolding sample_core
sample_cores [] = (true, 0, [])
sample_cores ((core, reading) ∷ rest) =
    let (ok, rose, core') = sample_core core reading in
    let (oks, throttled, cores) = sample_cores rest in
    (ok && oks, if rose then throttled + 1 else throttled, core' ∷ cores)

module _ {F : Type 0} ⦃f : Float F⦄ where
  unfoldable pub sample : List (Core × Reading) → SignalFrame F → Bool × List Core × SignalFrame F
  sample sources frame =
      let (ok, throttled, cores) = sample_cores sources in
      let total = length sources in
      (
        ok,
        cores,
        record frame {
          cpu_throttle_ratio =
              if total == 0 then f.lit 0 1 else f.div (f.of_nat throttled) (f.of_nat total);
        },
      )

throttled_le : (l : List (Core × Reading)) → (sample_cores l).1 ≤ length l
unfolding sample_cores
throttled_le [] = omega arith
throttled_le ((core, reading) ∷ rest) = ground (arith, throttled_le rest)

module _ {F : Type 0} ⦃f : Float F⦄ (laws : IsFloat F) where
  ratio-InUnit :
      (a b : ℕ)
      → a ≤ b
      → IsWord b
      → InUnit (if b == 0 then f.lit 0 1 else f.div (f.of_nat a) (f.of_nat b))
        × IsFinite (if b == 0 then f.lit 0 1 else f.div (f.of_nat a) (f.of_nat b))
  ratio-InUnit a b h w = ground (
    arith,
    nought-IsFinite laws,
    laws.lit_mono 0 1 0 1 (omega arith) (omega arith) (omega arith),
    laws.lit_mono 0 1 1 1 (omega arith) (omega arith) (omega arith),
    laws.div_unit a b h,
    ratio-IsFinite laws a b (omega arith) w,
  )

  -- Whatever the files hold or fail with, the ratio of up to 2^64 - 1 cores is in [0, 1] and finite.
  pub cpu_throttle_ratio-InUnit :
      (sources : List (Core × Reading)) (frame : SignalFrame F)
      → IsWord (length sources)
      → InUnit (sample sources frame).2.cpu_throttle_ratio
        × IsFinite (sample sources frame).2.cpu_throttle_ratio
  unfolding sample
  cpu_throttle_ratio-InUnit sources frame w =
      ratio-InUnit (sample_cores sources).1 (length sources) (throttled_le sources) w
