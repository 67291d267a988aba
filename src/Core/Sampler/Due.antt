-- ===== src/Core/Sampler/Due.antt =====
-- How often src/core/sampler.cpp lets a sensor run.
use native.Mathlib.Nat.{mod-lt, mod-eq_of_lt, mod-add-mod, mod_self}
use hw_agent.Prelude.{
  ℕ, zero, suc, ◌+◌, ◌-◌, ◌%◌, ◌^◌, ◌≤◌, ◌<◌, ◌≡◌, ◌∙◌, refl, sym, ap, arith, if◌then◌else◌, add64,
  Bool-cases, ◌==◌, inl, inr,
}
use hw_agent.Core.Sampler.{Sampler, should_sample_every, advance}

-- How many of the next `k` ticks a sensor is due at.
unfoldable pub due_count : ℕ → Sampler → ℕ → ℕ
due_count zero s every_ticks = 0
due_count (suc k) s every_ticks =
    (if should_sample_every s every_ticks then 1 else 0) + due_count k (advance s) every_ticks

abbrev at_tick : ℕ → Sampler
at_tick t = record { tick_count = t }

next_mod : (t n : ℕ) → t % n + 1 < n → (t + 1) % n ≡ t % n + 1
next_mod t n h = sym (mod-add-mod t n 1) ∙ mod-eq_of_lt h

next_mod_zero : (t n : ℕ) → t % n + 1 ≡ n → (t + 1) % n ≡ 0
next_mod_zero t n h = sym (mod-add-mod t n 1) ∙ ap (λ x. x % n) h ∙ mod_self n

quiet : (k t n : ℕ) → 0 < t % n → t % n + k ≤ n → t + k < 2 ^ 64 → due_count k (at_tick t) n ≡ 0
unfolding due_count should_sample_every advance add64
quiet zero t n h l w = refl
quiet (suc zero) t n h l w = ground arith
quiet (suc (suc k)) t n h l w =
    let next = next_mod t n (omega arith) in
    ground (arith, next, quiet (suc k) (t + 1) n (omega arith) (omega arith) (omega arith))

from_zero :
    (k t n : ℕ) → t % n ≡ 0 → k < n → t + suc k < 2 ^ 64 → due_count (suc k) (at_tick t) n ≡ 1
unfolding due_count should_sample_every advance add64
from_zero zero t n h l w = ground arith
from_zero (suc k) t n h l w =
    let next = next_mod t n (omega arith) in
    ground (arith, next, quiet (suc k) (t + 1) n (omega arith) (omega arith) (omega arith))

-- the next tick due is `j` ticks away
from_rest :
    (j k c t n : ℕ)
    → c ≡ j + suc k
    → 0 < t % n
    → t % n + suc j ≡ n
    → k < n
    → t + suc c < 2 ^ 64
    → due_count (suc c) (at_tick t) n ≡ 1
unfolding due_count should_sample_every advance add64
from_rest zero k c t n e h l m w =
    let next = next_mod_zero t n (omega arith) in
    let size : c ≡ suc k = omega arith in
    let rest : due_count c (at_tick (t + 1)) n ≡ 1 =
      rw size (from_zero k (t + 1) n next m (omega arith)) in
    ground (arith, next, rest)
from_rest (suc j) k zero t n e h l m w = absurd (omega arith)
from_rest (suc j) k (suc c) t n e h l m w =
    let next = next_mod t n (omega arith) in
    ground (
      arith,
      next,
      from_rest j k c (t + 1) n (omega arith) (omega arith) (omega arith) m (omega arith),
    )

-- In any `n` consecutive ticks a sensor that is registered for every `n` ticks, n above 0, is due
-- exactly once, if the tick counter does not wrap around.
pub due_once : (s : Sampler) (n : ℕ) → 0 < n → s.tick_count + n < 2 ^ 64 → due_count n s n ≡ 1
due_once s zero h w = absurd (omega arith)
due_once s (suc n) h w =
    let t = s.tick_count in
    elim (Bool-cases (t % suc n == 0)) [
      | inl now ↦ from_zero n t (suc n) (ground arith) (omega arith) w
      | inr later ↦
          from_rest (n - t % suc n) (t % suc n - 1) n t (suc n) (ground (arith, mod-lt t h))
            (ground arith) (ground (arith, mod-lt t h)) (ground (arith, mod-lt t h)) w
    ]
