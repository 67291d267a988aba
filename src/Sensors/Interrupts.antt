-- ===== src/Sensors/Interrupts.antt =====
-- `InterruptsSensor` of src/sensors/interrupts.cpp: the total of /proc/stat and its rate.
pub mod Rate
use hw_agent.Prelude.{
  ℕ, Bool, true, false, Text, codes, Option, none, some, List, [], ◌∷◌, ◌==◌, if◌then◌else◌, sub64,
}
use hw_agent.Float.{Float}
use hw_agent.Frame.{SignalFrame}
use hw_agent.Platform.{Double}
use hw_agent.Core.Text.{strip_prefix}
use hw_agent.Core.Numbers.{strtoull}
use hw_agent.Sensors.Cpu.{skip_spaces}
use hw_agent.Sensors.Files.{increase}

-- What one sample reads: no file, a file that fails in fseek, or the results of fgets up to the first
-- null pointer.
pub data Lines : Type 0 where
  not_opened : Lines
  not_seekable : Lines
  lines : List Text → Lines

-- `prev_total_`, `prev_timestamp_ns_` and `has_prev_`
pub record Interrupts : Type 0 where
  pub prev_total : ℕ
  pub prev_timestamp_ns : ℕ
  pub has_prev : Bool

-- The loop over the lines: what follows "intr " in the first that starts so.
unfoldable pub find_intr : List Text → Option Text
unfolding strip_prefix
find_intr [] = none
find_intr (buffer ∷ rest) =
    let later = find_intr rest in
    elim (strip_prefix (codes "intr ") buffer) [ none ↦ later | some cursor ↦ some cursor ]

-- `total_interrupts`, none where the code fails.
unfoldable pub read_total : Lines → Option ℕ
unfolding find_intr skip_spaces strtoull
read_total not_opened = none
read_total not_seekable = none
read_total (lines ls) = elim (find_intr ls) [
  | none ↦ none
  | some cursor ↦ elim (strtoull (skip_spaces cursor)) [
    | none ↦ none
    | some (total, rest) ↦ some total
  ]
]

module _ {F D : Type 0} ⦃f : Float F⦄ (d : Double F D) where
  -- The interrupts a second, from a total and a time after those kept.
  unfoldable pub interrupt_rate : Interrupts → ℕ → ℕ → F
  unfolding increase sub64
  interrupt_rate s total_interrupts monotonic_ns =
      let count_delta = increase s.prev_total total_interrupts in
      let time_delta_ns = sub64 monotonic_ns s.prev_timestamp_ns in
      let seconds = d.div (d.of_nat time_delta_ns) (d.of_nat 1_000_000_000) in
      if s.has_prev
      then if time_delta_ns == 0
        then f.lit 0 1
        else d.to_float (d.div (d.of_nat count_delta) seconds)
      else f.lit 0 1

  unfoldable pub sample : Lines → Interrupts → SignalFrame F → Bool × Interrupts × SignalFrame F
  unfolding read_total interrupt_rate
  sample file s frame = elim (read_total file) [
    | none ↦ (false, s, record frame { irq = f.lit 0 1 })
    | some total ↦ (
      true,
      record { prev_total = total; prev_timestamp_ns = frame.monotonic_ns; has_prev = true },
      record frame { irq = interrupt_rate s total frame.monotonic_ns },
    )
  ]
