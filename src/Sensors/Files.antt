-- ===== src/Sensors/Files.antt =====
-- `read_u64_file` of src/sensors/network.cpp and power.cpp, and the difference of two counters.
use hw_agent.Prelude.{ℕ, ◌-◌, ◌≤◌, ◌<◌, subst, Bool, true, false, leb, arith, if◌then◌else◌}
use hw_agent.Float.{Float, IsFloat, ◌≼◌, IsFinite}

-- A file as the next read finds it: not opened, failing in fseek, without a number for fscanf, or
-- with one.
pub data File : Type 0 where
  not_opened : File
  not_seekable : File
  not_a_number : File
  holds : ℕ → File

-- The result, and `value`.
unfoldable pub read_u64_file : File → Bool × ℕ
read_u64_file not_opened = (false, 0)
read_u64_file not_seekable = (false, 0)
read_u64_file not_a_number = (false, 0)
read_u64_file (holds parsed) = (true, parsed)

-- `now >= prev ? now - prev : 0`
unfoldable pub increase : ℕ → ℕ → ℕ
increase prev now = if leb prev now then now - prev else 0

-- What "%llu" can store.
abbrev pub IsWord : ℕ → Type 0
IsWord n = n < 18_446_744_073_709_551_616

pub increase_le : (prev now : ℕ) → increase prev now ≤ now
unfolding increase
increase_le prev now = ground arith

module _ {F : Type 0} ⦃f : Float F⦄ (laws : IsFloat F) where
  -- A quotient of two counts is finite, if the second is not 0.
  pub ratio-IsFinite :
      (a b : ℕ) → IsWord a → IsWord b → 0 < b → IsFinite (f.div (f.of_nat a) (f.of_nat b))
  ratio-IsFinite a b ha hb h =
      let at_least : f.of_nat 1 ≼ f.of_nat b = laws.nat_mono 1 b (omega arith) hb in
      let from_one : f.lit 1 1 ≼ f.of_nat b = subst (λ x. x ≼ f.of_nat b) laws.nat_one at_least in
      laws.div_finite (f.of_nat a) (f.of_nat b) (laws.nat_finite a ha) from_one

  pub nought-IsFinite : IsFinite (f.lit 0 1)
  nought-IsFinite = laws.lit_finite 0 1 (omega arith) (omega arith)
