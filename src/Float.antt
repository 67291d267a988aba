-- ===== src/Float.antt =====
-- What the code does with `float` and `double`. The arithmetic of the platform is a parameter:
-- `Float` has the operations that the sources call, `IsFloat` the documented behaviour of IEEE 754
-- binary32 that the proofs rely on, and `Float/Fixed.antt` a concrete arithmetic that meets it.
pub mod Fixed
use hw_agent.Prelude.{ℕ, ◌+◌, ◌*◌, ◌≤◌, ◌<◌, ◌≡◌, ◌⊎◌, Bool, true, false, not}

pub record Float (F : Type 0) : Type 0 where
  -- the float nearest to n / d: `lit 45 100` is the literal 0.45F
  pub lit : ℕ → ℕ → F
  -- static_cast<float> of an unsigned integer
  pub of_nat : ℕ → F
  pub add : F → F → F
  pub sub : F → F → F
  pub mul : F → F → F
  pub div : F → F → F
  pub neg : F → F
  -- std::fabs
  pub abs : F → F
  -- std::exp
  pub exp : F → F
  -- the comparisons < and <=; a > b is lt b a
  pub lt : F → F → Bool
  pub le : F → F → Bool
  -- std::isfinite
  pub is_finite : F → Bool

module _ {F : Type 0} ⦃f : Float F⦄ where
  infix 4 ◌≼◌
  abbrev pub ◌≼◌ : F → F → Type 0
  x ≼ y = f.le x y ≡ true

  -- Not a NaN.
  abbrev pub IsNum : F → Type 0
  IsNum x = f.le x x ≡ true

  abbrev pub IsFinite : F → Type 0
  IsFinite x = f.is_finite x ≡ true

  abbrev pub nought : F
  nought = f.lit 0 1

  abbrev pub one : F
  one = f.lit 1 1

  abbrev pub InUnit : F → Type 0
  InUnit x = (nought ≼ x) × (x ≼ one)

-- IEEE 754 behaviour: comparisons, rounding that is monotone, and no NaN from the operations at the
-- operands named.
pub record IsFloat (F : Type 0) ⦃f : Float F⦄ : Type 0 where
  pub num_of_le : (x y : F) → x ≼ y → IsNum x × IsNum y
  pub num_of_finite : (x : F) → IsFinite x → IsNum x
  pub le_trans : (x y z : F) → x ≼ y → y ≼ z → x ≼ z
  pub le_total : (x y : F) → IsNum x → IsNum y → (x ≼ y) ⊎ (y ≼ x)
  pub lt-eq-not-le : (x y : F) → IsNum x → IsNum y → f.lt x y ≡ not (f.le y x)
  pub lt_num : (x y : F) → f.lt x y ≡ true → IsNum x × IsNum y
  pub lit_finite : (n d : ℕ) → 0 < d → n ≤ 1_000_000 → IsFinite (f.lit n d)
  pub lit_mono : (n d m e : ℕ) → 0 < d → 0 < e → n * e ≤ m * d → f.lit n d ≼ f.lit m e
  pub lit_lt : (n m : ℕ) → n < m → m ≤ 100 → f.lt (f.lit n 100) (f.lit m 100) ≡ true
  pub lit_pos :
      (n d : ℕ) → 0 < n → n ≤ 1_000_000 → 0 < d → d ≤ 1000 → f.lt (f.lit 0 1) (f.lit n d) ≡ true
  pub nat_finite : (n : ℕ) → n < 18_446_744_073_709_551_616 → IsFinite (f.of_nat n)
  pub nat_mono : (n m : ℕ) → n ≤ m → m < 18_446_744_073_709_551_616 → f.of_nat n ≼ f.of_nat m
  pub nat_zero : f.of_nat 0 ≡ f.lit 0 1
  pub nat_one : f.of_nat 1 ≡ f.lit 1 1
  -- a factor in [0, 1] and a number that is exact
  pub scale_unit :
      (n : ℕ) (x : F)
      → n ≤ 1000
      → InUnit x
      → (nought ≼ f.mul x (f.lit n 1))
        × (f.mul x (f.lit n 1) ≼ f.lit n 1)
        × IsFinite (f.mul x (f.lit n 1))
  -- a product with a factor up to 1 is at most the other factor
  pub mul_unit : (c x : F) → InUnit c → InUnit x → (nought ≼ f.mul c x) × (f.mul c x ≼ c)
  pub add_le :
      (a p b q : F)
      → nought ≼ a
      → a ≼ p
      → nought ≼ b
      → b ≼ q
      → (nought ≼ f.add a b) × (f.add a b ≼ f.add p q)
  pub sub_unit : (x : F) → InUnit x → InUnit (f.sub one x)
  -- 1.0F - a and a add up to 1.0F
  pub complement : (n : ℕ) → n ≤ 100 → f.add (f.sub one (f.lit n 100)) (f.lit n 100) ≼ one
  pub div_unit :
      (a b : ℕ)
      → a ≤ b
      → 0 < b
      → b < 18_446_744_073_709_551_616
      → InUnit (f.div (f.of_nat a) (f.of_nat b))
  pub exp_num : (x : F) → IsNum x → IsNum (f.exp x)
  pub neg_num : (x : F) → IsNum x → IsNum (f.neg x)
  pub sub_num : (x y : F) → IsNum x → IsFinite y → IsNum (f.sub x y)
  pub rsub_num : (x y : F) → IsFinite x → IsNum y → IsNum (f.sub x y)
  pub add_num : (x y : F) → IsNum x → IsFinite y → IsNum (f.add x y)
  pub mul_num :
      (n d : ℕ) (x : F)
      → 0 < n
      → 0 < d
      → n ≤ 1000
      → d ≤ 1000
      → IsNum x
      → IsNum (f.mul (f.lit n d) x)
  pub mul_nonneg :
      (n d : ℕ) (x : F)
      → 0 < n
      → 0 < d
      → n ≤ 1000
      → d ≤ 1000
      → f.lit 0 1 ≼ x
      → f.lit 0 1 ≼ f.mul (f.lit n d) x
  pub zero_add : (x : F) → f.lit 0 1 ≼ x → x ≼ f.add (f.lit 0 1) x
  pub mul_finite : (n d : ℕ) (x : F) → 0 < d → n ≤ d → IsFinite x → IsFinite (f.mul (f.lit n d) x)
  -- a number over a finite positive number, and a finite number over a number from 1
  pub div_num : (x y : F) → IsNum x → IsFinite y → f.lt nought y ≡ true → IsNum (f.div x y)
  pub div_finite : (x y : F) → IsFinite x → one ≼ y → IsFinite (f.div x y)
  pub finite_between : (x y : F) → nought ≼ x → x ≼ y → IsFinite y → IsFinite x
  -- Two shares that add up to 1, of numbers up to 2^64, which the largest word rounds to.
  pub blend_top :
      (n d : ℕ) (x y : F)
      → n ≤ d
      → 0 < d
      → d ≤ 1000
      → nought ≼ x
      → x ≼ f.of_nat 18_446_744_073_709_551_615
      → nought ≼ y
      → y ≼ f.of_nat 18_446_744_073_709_551_615
      → (nought ≼ f.add (f.mul (f.sub one (f.lit n d)) x) (f.mul (f.lit n d) y))
        × (f.add (f.mul (f.sub one (f.lit n d)) x) (f.mul (f.lit n d) y)
            ≼ f.of_nat 18_446_744_073_709_551_615)
  -- a finite number minus a quotient of the size of a word
  pub sub_word :
      (x : F) (n d : ℕ)
      → IsFinite x
      → n < 18_446_744_073_709_551_616
      → 0 < d
      → d ≤ 1000
      → IsFinite (f.sub x (f.div (f.of_nat n) (f.lit d 1)))
        × IsFinite (f.sub x (f.div (f.neg (f.of_nat n)) (f.lit d 1)))
  pub neg_nonneg : (x : F) → f.lt x (f.lit 0 1) ≡ true → f.lit 0 1 ≼ f.neg x
  -- NaN operands give NaN results
  pub add_nan : (x y : F) → IsNum (f.add x y) → IsNum x × IsNum y
  pub mul_nan : (x y : F) → IsNum (f.mul x y) → IsNum x × IsNum y

-- The sums of the weights of the scores, in the order of the sources, all round to 1.0F.
pub record HasWeights (F : Type 0) ⦃f : Float F⦄ : Type 0 where
  pub seven_three : f.add (f.lit 70 100) (f.lit 30 100) ≼ one
  pub seven_two_one : f.add (f.add (f.lit 70 100) (f.lit 20 100)) (f.lit 10 100) ≼ one
  pub jitter : f.add (f.add (f.lit 60 100) (f.lit 25 100)) (f.lit 15 100) ≼ one
  pub power : f.add (f.add (f.lit 75 100) (f.lit 15 100)) (f.lit 10 100) ≼ one
  pub scheduler :
      f.add (f.add (f.add (f.lit 40 100) (f.lit 35 100)) (f.lit 15 100)) (f.lit 10 100) ≼ one
  pub realtime :
      f.add (f.add (f.add (f.lit 55 100) (f.lit 25 100)) (f.lit 15 100)) (f.lit 5 100) ≼ one
  pub saturation :
      f.add
        (f.add (f.add (f.add (f.lit 30 100) (f.lit 25 100)) (f.lit 20 100)) (f.lit 15 100))
        (f.lit 10 100)
      ≼ one
