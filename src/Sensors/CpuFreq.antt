-- ===== src/Sensors/CpuFreq.antt =====
-- `CpuFreqSensor` of src/sensors/cpufreq.cpp: the mean frequency of the cores, smoothed.
use hw_agent.Prelude.{
  ℕ, ◌+◌, Bool, true, false, Text, Option, none, some, List, [], ◌∷◌, ◌==◌, if◌then◌else◌,
}
use hw_agent.Float.{Float}
use hw_agent.Frame.{SignalFrame}
use hw_agent.Platform.{Double}
use hw_agent.Core.Numbers.{strtoull}
use hw_agent.Derived.Ema.{Ema, update}

-- One file as the next read finds it: a null pointer, a file that fails in fseek, one with no line,
-- or the line that fgets puts into the buffer.
pub data Line : Type 0 where
  not_opened : Line
  not_seekable : Line
  no_line : Line
  line : Text → Line

-- `khz`, none where the loop goes on to the next file.
unfoldable pub read_khz : Line → Option ℕ
unfolding strtoull
read_khz not_opened = none
read_khz not_seekable = none
read_khz no_line = none
read_khz (line value_buffer) = elim (strtoull value_buffer) [
  | none ↦ none
  | some (khz, rest) ↦ some khz
]

module _ {F D : Type 0} ⦃f : Float F⦄ (d : Double F D) where
  -- The loop over the files: `total_mhz` and `count`.
  unfoldable pub add_files : List Line → D → ℕ → D × ℕ
  unfolding read_khz
  add_files [] total_mhz count = (total_mhz, count)
  add_files (file ∷ rest) total_mhz count =
      let skipped = add_files rest total_mhz count in
      elim (read_khz file) [
        | none ↦ skipped
        | some khz ↦
            add_files rest (d.add total_mhz (d.div (d.of_nat khz) (d.of_nat 1000))) (count + 1)
      ]

  -- The average is `ema_mhz_` and `has_ema_`.
  unfoldable pub sample : List Line → Ema F → SignalFrame F → Bool × Ema F × SignalFrame F
  unfolding add_files update
  sample files ema frame =
      let (total_mhz, count) = add_files files (d.of_nat 0) 0 in
      let current_average_mhz = d.to_float (d.div total_mhz (d.of_nat count)) in
      let e = update (f.lit 25 100) current_average_mhz ema in
      if count == 0
      then (false, ema, record frame { cpufreq = f.lit 0 1 })
      else (true, e, record frame { cpufreq = e.value })
