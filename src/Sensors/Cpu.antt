-- ===== src/Sensors/Cpu.antt =====
-- `CpuSensor` of src/sensors/cpu.cpp: the first line of /proc/stat and the busy share.
use hw_agent.Prelude.{
  ℕ, zero, suc, ◌^◌, ◌<◌, Bool, true, false, ◌||◌, ◌==◌, arith, Text, codes, List, [], ◌∷◌,
  if◌then◌else◌, add64, Option, none, some, get_elem?, Option-cases, inl, inr,
}
use hw_agent.Float.{Float, IsFloat, IsFinite, ◌≼◌}
use hw_agent.Frame.{SignalFrame}
use hw_agent.Core.Text.{strip_prefix}
use hw_agent.Core.Numbers.{strtoull}
use hw_agent.Sensors.Files.{increase, increase_le, nought-IsFinite}

-- What one sample reads: no file, a file that fails in fseek, one with no line, or the line that
-- fgets puts into the buffer.
pub data Line : Type 0 where
  not_opened : Line
  not_seekable : Line
  no_line : Line
  line : Text → Line

-- `prev_total_`, `prev_idle_` and `has_prev_`
pub record Cpu : Type 0 where
  pub prev_total : ℕ
  pub prev_idle : ℕ
  pub has_prev : Bool

-- while (*cursor == ' ') ++cursor
unfoldable pub skip_spaces : Text → Text
skip_spaces [] = []
skip_spaces (c ∷ cs) = let rest = skip_spaces cs in if c == b' ' then rest else c ∷ cs

-- `*cursor == '\0' || *cursor == '\n'`
abbrev at_end : Text → Bool
at_end [] = true
at_end (c ∷ cs) = c == 0 || c == b'\n'

-- The loop that fills `values`, `n` of which are left: none if a conversion fails.
unfoldable pub read_values : ℕ → Text → Option (List ℕ)
unfolding skip_spaces
read_values zero cursor = some []
read_values (suc n) cursor =
    let cursor' = skip_spaces cursor in
    if at_end cursor' then some [] else elim (strtoull cursor') [
      | none ↦ none
      | some (parsed, rest) ↦ elim (read_values n rest) [
        | none ↦ none
        | some values ↦ some (parsed ∷ values)
      ]
    ]

-- `values[i]`: the fields behind the end of the line are 0.
abbrev field : List ℕ → ℕ → ℕ
field values i = elim (get_elem? values i) [ none ↦ 0 | some v ↦ v ]

unfoldable pub idle_ticks : List ℕ → ℕ
unfolding add64
idle_ticks v = add64 (field v 3) (field v 4)

unfoldable pub busy_ticks : List ℕ → ℕ
unfolding add64
busy_ticks v =
    add64
      (add64 (add64 (add64 (add64 (field v 0) (field v 1)) (field v 2)) (field v 5)) (field v 6))
      (field v 7)

module _ {F : Type 0} ⦃f : Float F⦄ where
  -- What follows the parsing: the members, and the busy share in percent.
  unfoldable pub usage : Cpu → List ℕ → Cpu × F
  unfolding increase idle_ticks busy_ticks add64
  usage s values =
      let idle = idle_ticks values in
      let total = add64 idle (busy_ticks values) in
      let total_delta = increase s.prev_total total in
      let idle_delta = increase s.prev_idle idle in
      let busy = increase idle_delta total_delta in
      (
        record { prev_total = total; prev_idle = idle; has_prev = true },
        if s.has_prev
            then if total_delta == 0
              then f.lit 0 1
              else f.mul (f.div (f.of_nat busy) (f.of_nat total_delta)) (f.lit 100 1)
            else f.lit 0 1,
      )

  unfoldable pub sample : Line → Cpu → SignalFrame F → Bool × Cpu × SignalFrame F
  unfolding read_values usage
  sample not_opened s frame = (false, s, record frame { cpu = f.lit 0 1 })
  sample not_seekable s frame = (false, s, record frame { cpu = f.lit 0 1 })
  sample no_line s frame = (false, s, record frame { cpu = f.lit 0 1 })
  sample (line buffer) s frame = elim (strip_prefix (codes "cpu ") buffer) [
    | none ↦ (false, s, record frame { cpu = f.lit 0 1 })
    | some cursor ↦ elim (read_values 10 cursor) [
      | none ↦ (false, s, record frame { cpu = f.lit 0 1 })
      | some values ↦ (let (s', cpu) = usage s values in (true, s', record frame { cpu = cpu }))
    ]
  ]

  -- A percentage.
  abbrev pub InPercent : F → Type 0
  InPercent x = (f.lit 0 1 ≼ x) × (x ≼ f.lit 100 1) × IsFinite x

  module _ (laws : IsFloat F) where
    nought-InPercent : InPercent (f.lit 0 1)
    nought-InPercent = (
      laws.lit_mono 0 1 0 1 (omega arith) (omega arith) (omega arith),
      laws.lit_mono 0 1 100 1 (omega arith) (omega arith) (omega arith),
      nought-IsFinite laws,
    )

    usage-InPercent : (s : Cpu) (values : List ℕ) → InPercent (usage s values).1
    unfolding usage
    usage-InPercent s values =
        let idle = idle_ticks values in
        let total = add64 idle (busy_ticks values) in
        let total_delta = increase s.prev_total total in
        let idle_delta = increase s.prev_idle idle in
        let busy = increase idle_delta total_delta in
        let small : total < 2 ^ 64 = ground arith in
        ground (
          arith,
          nought-InPercent,
          increase_le s.prev_total total,
          increase_le idle_delta total_delta,
          laws.div_unit busy total_delta (increase_le idle_delta total_delta),
          laws.scale_unit 100 (f.div (f.of_nat busy) (f.of_nat total_delta)),
        )

    -- Whatever the file holds or fails with, the signal is a finite number in [0, 100].
    pub cpu-InPercent :
        (l : Line) (s : Cpu) (frame : SignalFrame F) → InPercent (sample l s frame).2.cpu
    unfolding sample strip_prefix
    cpu-InPercent not_opened s frame = nought-InPercent
    cpu-InPercent not_seekable s frame = nought-InPercent
    cpu-InPercent no_line s frame = nought-InPercent
    cpu-InPercent (line buffer) s frame = elim (Option-cases (strip_prefix (codes "cpu ") buffer)) [
      | inl other ↦ rw other nought-InPercent
      | inr (cursor, found) ↦ elim (Option-cases (read_values 10 cursor)) [
        | inl bad ↦ rw (found, bad) nought-InPercent
        | inr (values, read) ↦ rw (found, read) (usage-InPercent s values)
      ]
    ]
