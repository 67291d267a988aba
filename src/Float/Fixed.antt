-- ===== src/Float/Fixed.antt =====
-- An arithmetic that meets the laws of `IsFloat` and runs: fixed point in millionths, without
-- negative numbers, and `none` for NaN.
use native.Mathlib.Nat.{
  mul-le-mul_left, mul-le-mul_right, le_of_mul-le-mul_right, le-div_iff_mul-le, div-mul-le_self,
  div-le_of_le-mul,
}
use hw_agent.Prelude.{
  ℕ, refl, ◌==◌, if◌then◌else◌, ◌+◌, ◌-◌, ◌*◌, ◌/◌, ◌≤◌, ◌<◌, ◌≡◌, Bool, true, false, Option, none,
  some, arith, ltb, leb,
}
use hw_agent.Float.{Float, IsFloat, HasWeights, InUnit, IsNum, IsFinite, ◌≼◌, nought}

abbrev pub Fixed : Type 0
Fixed = Option ℕ

abbrev scale : ℕ
scale = 1_000_000

abbrev on_numbers : (ℕ → ℕ → ℕ) → Fixed → Fixed → Fixed
on_numbers op (some a) (some b) = some (op a b)
on_numbers op _ _ = none

abbrev compare_numbers : (ℕ → ℕ → Bool) → Fixed → Fixed → Bool
compare_numbers test (some a) (some b) = test a b
compare_numbers test _ _ = false

abbrev quotient : Fixed → Fixed → Fixed
quotient (some a) (some b) = if b == 0 then none else some (a * scale / b)
quotient _ _ = none

abbrev is_number : Fixed → Bool
is_number none = false
is_number (some a) = true

-- 1 - x for a falling exponential, cut off at 0.
abbrev falling : Fixed → Fixed
falling none = none
falling (some a) = some (scale - a)

instance abbrev pub fixed_float : Float Fixed
fixed_float = record {
  lit = λ n d. some (n * scale / d);
  of_nat = λ n. some (n * scale);
  add = on_numbers ◌+◌;
  sub = on_numbers ◌-◌;
  mul = on_numbers (λ a b. a * b / scale);
  div = quotient;
  neg = λ x. x;
  abs = λ x. x;
  exp = falling;
  lt = compare_numbers ltb;
  le = compare_numbers leb;
  is_finite = is_number;
}

div_mono : (n d m e : ℕ) → 0 < d → 0 < e → n * e ≤ m * d → n * scale / d ≤ m * scale / e
div_mono n d m e hd he h =
    (le-div_iff_mul-le he).1 (
      le_of_mul-le-mul_right (omega (arith, mul-le-mul_right e (div-mul-le_self (n * scale) d))) hd)

-- a quotient of a by a larger b is at most 1
div_le_scale : (a b : ℕ) → a ≤ b → 0 < b → a * scale / b ≤ scale
div_le_scale a b h k = div-le_of_le-mul b (omega (arith, mul-le-mul_right scale h))

div_pos : (n d : ℕ) → 0 < n → 0 < d → d ≤ 1000 → 0 < n * scale / d
div_pos n d hn hd hk = (le-div_iff_mul-le hd).1 (omega arith)

mul_le : (a b : ℕ) → b ≤ scale → a * b / scale ≤ a
mul_le a b h = div-le_of_le-mul scale (omega (arith, mul-le-mul_left a h))

mul_unit_lem :
    (c x : Fixed) → InUnit c → InUnit x → (nought ≼ fixed_float.mul c x) × (fixed_float.mul c x ≼ c)
mul_unit_lem (some c) (some x) hc hx = ground (arith, mul_le c x (ground arith))
mul_unit_lem none _ hc hx = cc
mul_unit_lem (some c) none hc hx = cc

scale_unit_lem :
    (n : ℕ) (x : Fixed)
    → n ≤ 1000
    → InUnit x
    → (nought ≼ fixed_float.mul x (fixed_float.lit n 1))
      × (fixed_float.mul x (fixed_float.lit n 1) ≼ fixed_float.lit n 1)
      × IsFinite (fixed_float.mul x (fixed_float.lit n 1))
scale_unit_lem n none h hx = cc
scale_unit_lem n (some x) h hx =
    let small : x ≤ scale = ground arith in
    let bound : x * (n * scale / 1) ≤ scale * (n * scale / 1) =
      mul-le-mul_right (n * scale / 1) small in
    ground (
      arith,
      div-le_of_le-mul scale {m = x * (n * scale / 1)} {n = n * scale / 1} (omega (arith, bound)),
    )

div_unit_lem :
    (a b : ℕ)
    → a ≤ b
    → 0 < b
    → InUnit (fixed_float.div (fixed_float.of_nat a) (fixed_float.of_nat b))
div_unit_lem a b h k =
    ground (arith, div_le_scale (a * scale) (b * scale) (omega arith) (omega arith))

div_num_lem : (x y : Fixed) → IsNum x → fixed_float.lt nought y ≡ true → IsNum (fixed_float.div x y)
div_num_lem x y hx hy = ground arith

-- the largest word
abbrev top : ℕ
top = 18_446_744_073_709_551_615 * scale

-- A share of the largest word.
share_le : (c x : ℕ) → x ≤ top → c * x / scale ≤ c * 18_446_744_073_709_551_615
share_le c x h = div-le_of_le-mul scale (omega (arith, mul-le-mul_left c h))

blend_top_lem :
    (n d x y : ℕ)
    → n ≤ d
    → 0 < d
    → x ≤ top
    → y ≤ top
    → (1 * scale / 1 - n * scale / d) * x / scale + n * scale / d * y / scale ≤ top
blend_top_lem n d x y h hd hx hy =
    let c : ℕ = n * scale / d in
    let small : c ≤ scale = div_le_scale n d h hd in
    omega (arith, share_le (scale - c) x hx, share_le c y hy, small)

blend_fixed :
    (n d : ℕ) (x y : Fixed)
    → n ≤ d
    → 0 < d
    → x ≼ some top
    → y ≼ some top
    → let blend =
        fixed_float.add
          (fixed_float.mul (fixed_float.sub (some scale) (fixed_float.lit n d)) x)
          (fixed_float.mul (fixed_float.lit n d) y) in
      (nought ≼ blend) × (blend ≼ some top)
blend_fixed n d (some x) (some y) h hd hx hy =
    let blended : (1 * scale / 1 - n * scale / d) * x / scale + n * scale / d * y / scale ≤ top =
      blend_top_lem n d x y h hd (ground arith) (ground arith) in
    ground (arith, blended)
blend_fixed n d none y h hd hx hy = cc
blend_fixed n d (some x) none h hd hx hy = cc

pub Fixed-IsFloat : IsFloat Fixed
Fixed-IsFloat = record {
  num_of_le = ground arith;
  num_of_finite = ground arith;
  le_trans = ground arith;
  le_total = ground arith;
  lt-eq-not-le = ground arith;
  lt_num = ground arith;
  lit_finite = ground arith;
  lit_mono = λ n d m e hd he h. ground (arith, div_mono n d m e hd he h);
  lit_lt = λ n m h k. ground arith;
  lit_pos = λ n d hn _ hd hk. ground (arith, div_pos n d hn hd hk);
  nat_finite = ground arith;
  nat_mono = λ n m h k. ground arith;
  nat_zero = refl;
  nat_one = refl;
  scale_unit = scale_unit_lem;
  mul_unit = mul_unit_lem;
  add_le = ground arith;
  sub_unit = ground arith;
  complement = λ n h. ground arith;
  div_unit = λ a b h k _. div_unit_lem a b h k;
  exp_num = ground arith;
  neg_num = ground arith;
  sub_num = ground arith;
  rsub_num = ground arith;
  add_num = ground arith;
  mul_num = ground arith;
  mul_nonneg = λ n d x _ _ _ _ h. ground arith;
  zero_add = ground arith;
  mul_finite = ground arith;
  div_num = λ x y hx _ hy. div_num_lem x y hx hy;
  div_finite = ground arith;
  finite_between = ground arith;
  blend_top = λ n d x y h hd _ hx hx' hy hy'. blend_fixed n d x y h hd hx' hy';
  sub_word = λ x n d h _ hd _. ground arith;
  neg_nonneg = ground arith;
  add_nan = ground arith;
  mul_nan = ground arith;
}

pub Fixed-HasWeights : HasWeights Fixed
Fixed-HasWeights = ground arith
