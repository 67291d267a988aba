-- ===== src/Sensors/Interrupts/Rate.antt =====
-- The rate of src/sensors/interrupts.cpp is finite.
use hw_agent.Prelude.{
  ℕ, ◌<◌, ◌≡◌, ◌==◌, Bool-cases, Option-cases, inl, inr, Text, some, sub64, arith,
}
use hw_agent.Float.{Float, IsFloat, IsFinite}
use hw_agent.Frame.{SignalFrame}
use hw_agent.Platform.{Double}
use hw_agent.Core.Numbers.{strtoull}
use hw_agent.Sensors.Cpu.{skip_spaces}
use hw_agent.Sensors.Files.{increase, increase_le, IsWord, nought-IsFinite}
use hw_agent.Sensors.Interrupts.{
  Lines, Interrupts, not_opened, not_seekable, lines, find_intr, read_total, interrupt_rate, sample,
}

strtoull-IsWord : (text : Text) (n : ℕ) (rest : Text) → strtoull text ≡ some (n, rest) → IsWord n
unfolding strtoull
strtoull-IsWord text n rest h = ground arith

read_total-IsWord : (file : Lines) (n : ℕ) → read_total file ≡ some n → IsWord n
unfolding read_total
read_total-IsWord not_opened n h = cc
read_total-IsWord not_seekable n h = cc
read_total-IsWord (lines ls) n h = elim (Option-cases (find_intr ls)) [
  | inl e ↦ absurd (ground (arith, h, e))
  | inr (cursor, e) ↦ elim (Option-cases (strtoull (skip_spaces cursor))) [
    | inl bad ↦ absurd (ground (arith, h, e, bad))
    | inr ((total, rest), good) ↦
        let word = strtoull-IsWord (skip_spaces cursor) total rest good in
        ground (arith, h, e, good, word)
  ]
]

sub64-IsWord : (a b : ℕ) → IsWord (sub64 a b)
unfolding sub64
sub64-IsWord a b = omega arith

-- What IEEE 754 says of a count over a time in seconds: from a nanosecond on, it is at most 2e28, and
-- the largest float is above 3e38.
abbrev pub HasRates : {F D : Type 0} ⦃f : Float F⦄ → Double F D → Type 0
HasRates d =
    (count time_ns : ℕ)
    → IsWord count
    → IsWord time_ns
    → 0 < time_ns
    → IsFinite
        (d.to_float (d.div (d.of_nat count) (d.div (d.of_nat time_ns) (d.of_nat 1_000_000_000))))

module _ {F D : Type 0} ⦃f : Float F⦄ (laws : IsFloat F) (d : Double F D) (rates : HasRates d) where
  interrupt_rate-IsFinite :
      (s : Interrupts) (total now : ℕ) → IsWord total → IsFinite (interrupt_rate d s total now)
  unfolding interrupt_rate
  interrupt_rate-IsFinite s total now h =
      let count = increase s.prev_total total in
      let time = sub64 now s.prev_timestamp_ns in
      let word : IsWord count = omega (arith, increase_le s.prev_total total) in
      let zero = nought-IsFinite laws in
      elim (Bool-cases s.has_prev) [
        | inr e ↦ rw e zero
        | inl e ↦ elim (Bool-cases (time == 0)) [
          | inl none_passed ↦ rw (e, none_passed) zero
          | inr passed ↦
              rw (e, passed)
                (rates count time word (sub64-IsWord now s.prev_timestamp_ns)
                  (ground (arith, passed)))
        ]
      ]

  -- Whatever the file holds or fails with.
  pub sample-IsFinite :
      (file : Lines) (s : Interrupts) (frame : SignalFrame F)
      → IsFinite (sample d file s frame).2.irq
  unfolding sample
  sample-IsFinite file s frame = elim (Option-cases (read_total file)) [
    | inl e ↦ rw (e, sample) (nought-IsFinite laws)
    | inr (total, e) ↦
        rw (e, sample)
          (interrupt_rate-IsFinite s total frame.monotonic_ns (read_total-IsWord file total e))
  ]
