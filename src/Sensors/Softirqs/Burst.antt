-- ===== src/Sensors/Softirqs/Burst.antt =====
-- The burst score of src/sensors/softirqs.cpp and its baseline.
use hw_agent.Prelude.{
  ℕ, ◌≡◌, Bool, true, false, Text, List, [], ◌∷◌, foldl, Bool-cases, inl, inr, arith,
}
use hw_agent.Float.{Float, IsFloat, ◌≼◌, IsNum, IsFinite, InUnit, nought}
use hw_agent.Frame.{SignalFrame}
use hw_agent.Sensors.Files.{increase, increase_le, IsWord}
use hw_agent.Sensors.Softirqs.{
  Softirqs, Buffers, not_opened, not_seekable, filled, burst_score, rate, scan, sample, max_value,
  Scan, total_of, read_all, start,
}

scan-IsWord : (s : Scan) (ch : ℕ) → IsWord s.total_softirqs → IsWord (scan s ch).total_softirqs
unfolding scan
scan-IsWord s ch h = ground arith

foldl-IsWord :
    (text : Text) (s : Scan) → IsWord s.total_softirqs → IsWord (foldl scan s text).total_softirqs
foldl-IsWord [] s h = h
foldl-IsWord (c ∷ cs) s h = foldl-IsWord cs (scan s c) (scan-IsWord s c h)

read_all-IsWord :
    (buffers : List Text) (s : Scan) (saw : Bool)
    → IsWord s.total_softirqs
    → IsWord (read_all buffers s saw).0.total_softirqs
unfolding read_all
read_all-IsWord [] s saw h = h
read_all-IsWord ([] ∷ rest) s saw h = h
read_all-IsWord ((c ∷ cs) ∷ rest) s saw h =
    read_all-IsWord rest (foldl scan s (c ∷ cs)) true (foldl-IsWord (c ∷ cs) s h)

total_of-IsWord : (s : Scan) → IsWord s.total_softirqs → IsWord (total_of s)
unfolding total_of
total_of-IsWord s h = ground arith

module _ {F : Type 0} ⦃f : Float F⦄ where
  -- The baseline is a number from 0 to 2^64.
  abbrev pub IsBounded : Softirqs F → Type 0
  IsBounded s = (nought ≼ s.baseline_delta) × (s.baseline_delta ≼ f.of_nat max_value)

  module _ (laws : IsFloat F) where
    word_bounded : (n : ℕ) → IsWord n → (nought ≼ f.of_nat n) × (f.of_nat n ≼ f.of_nat max_value)
    word_bounded n h = (
      rw (← laws.nat_zero) (laws.nat_mono 0 n (omega arith) h),
      laws.nat_mono n max_value (omega arith) (omega arith),
    )

    burst_score-InUnit :
        (delta_f baseline : F)
        → IsNum delta_f
        → IsFinite baseline
        → f.le baseline nought ≡ false
        → InUnit (burst_score delta_f baseline)
    unfolding burst_score
    burst_score-InUnit delta_f baseline hd hb above =
        let zero_num : IsNum (f.lit 0 1) =
          laws.num_of_finite _ (laws.lit_finite 0 1 (omega arith) (omega arith)) in
        let one_num : IsNum (f.lit 1 1) =
          laws.num_of_finite _ (laws.lit_finite 1 1 (omega arith) (omega arith)) in
        let pos : f.lt nought baseline ≡ true = ground (
          arith,
          above,
          laws.lt-eq-not-le (f.lit 0 1) baseline zero_num (laws.num_of_finite _ hb),
        ) in
        let quotient = laws.div_num delta_f baseline hd hb pos in
        let less =
          laws.sub_num _ (f.lit 15 10) quotient
            (laws.lit_finite 15 10 (omega arith) (omega arith)) in
        let score = f.div (f.sub (f.div delta_f baseline) (f.lit 15 10)) (f.lit 25 10) in
        let num : IsNum score =
          laws.div_num _ (f.lit 25 10) less (laws.lit_finite 25 10 (omega arith) (omega arith))
            (laws.lit_pos 25 10 (omega arith) (omega arith) (omega arith) (omega arith)) in
        let unit = laws.lit_mono 0 1 1 1 (omega arith) (omega arith) (omega arith) in
        ground (
          arith,
          num,
          zero_num,
          one_num,
          unit,
          laws.lt-eq-not-le score (f.lit 0 1) num zero_num,
          laws.lt-eq-not-le (f.lit 1 1) score one_num num,
          laws.le_total score (f.lit 0 1) num zero_num,
          laws.le_total (f.lit 1 1) score one_num num,
        )

    pub unit-IsFinite : (x : F) → InUnit x → IsFinite x
    unit-IsFinite x h =
        laws.finite_between x (f.lit 1 1) h.0 h.1 (laws.lit_finite 1 1 (omega arith) (omega arith))

    zero-InUnit : InUnit (f.lit 0 1)
    zero-InUnit = (
      laws.lit_mono 0 1 0 1 (omega arith) (omega arith) (omega arith),
      laws.lit_mono 0 1 1 1 (omega arith) (omega arith) (omega arith),
    )

    -- From a total of 64 bits.
    rate-IsBounded :
        (s : Softirqs F) (total : ℕ)
        → IsWord total
        → IsBounded s
        → IsBounded (rate s total).0 × InUnit (rate s total).1
    unfolding rate
    rate-IsBounded s total h (low, high) =
        let delta = increase s.prev_total total in
        let word : IsWord delta = omega (arith, increase_le s.prev_total total) in
        let delta_f = f.of_nat delta in
        let (least, most) = word_bounded delta word in
        let blended =
          f.add (f.mul (f.sub (f.lit 1 1) (f.lit 2 10)) s.baseline_delta)
            (f.mul (f.lit 2 10) delta_f) in
        let (from, to) =
          laws.blend_top 2 10 s.baseline_delta delta_f (omega arith) (omega arith) (omega arith) low
            high least most in
        let finite : IsFinite blended =
          laws.finite_between blended _ from to (laws.nat_finite max_value (omega arith)) in
        let zero_high : f.lit 0 1 ≼ f.of_nat max_value =
          rw (← laws.nat_zero) (word_bounded 0 (omega arith)).1 in
        let delta_num = laws.num_of_finite delta_f (laws.nat_finite delta word) in
        elim (Bool-cases s.has_prev) [
          | inr first ↦ rw first ((zero-InUnit.0, zero_high), zero-InUnit)
          | inl again ↦ elim (Bool-cases (f.le s.baseline_delta (f.lit 0 1))) [
            | inl idle ↦ rw (again, idle) ((least, most), zero-InUnit)
            | inr active ↦ elim (Bool-cases (f.le blended (f.lit 0 1))) [
              | inl none_left ↦ rw (again, active, none_left) ((from, to), zero-InUnit)
              | inr left ↦
                  rw (again, active, left)
                    ((from, to), burst_score-InUnit delta_f blended delta_num finite left)
            ]
          ]
        ]

    -- Whatever the file holds or fails with, from a baseline in [0, 2^64] the signal is in [0, 1] and
    -- the baseline stays in that range.
    pub sample-InUnit :
        (buffers : Buffers) (s : Softirqs F) (frame : SignalFrame F)
        → IsBounded s
        → let (ok, s', frame') = sample buffers s frame in IsBounded s' × InUnit frame'.softirqs
    unfolding sample
    sample-InUnit not_opened s frame h = (h, zero-InUnit)
    sample-InUnit not_seekable s frame h = (h, zero-InUnit)
    sample-InUnit (filled buffers) s frame h =
        let (scanned, saw) = read_all buffers start false in
        let word = total_of-IsWord scanned (read_all-IsWord buffers start false (omega arith)) in
        let rated = rate-IsBounded s (total_of scanned) word h in
        elim (Bool-cases saw) [ inl e ↦ rw e rated | inr e ↦ rw e (h, zero-InUnit) ]
