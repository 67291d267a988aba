-- ===== src/Derived/Weighted.antt =====
-- Bounds of the weighted sums that the scores are.
use hw_agent.Prelude.{ℕ, ◌<◌, ◌≤◌, arith}
use hw_agent.Float.{Float, IsFloat, ◌≼◌, IsNum, InUnit}
use hw_agent.Core.Math.{clamp01, clamp01-InUnit}

module _ {F : Type 0} ⦃f : Float F⦄ where
  abbrev pub UpTo : F → F → Type 0
  UpTo top x = (f.lit 0 1 ≼ x) × (x ≼ top)

  module _ (laws : IsFloat F) where
    -- one term: a weight in hundredths times a value in [0, 1]
    pub term : (n : ℕ) (x : F) → n ≤ 100 → InUnit x → UpTo (f.lit n 100) (f.mul (f.lit n 100) x)
    term n x h hx =
        laws.mul_unit (f.lit n 100) x
          (
            laws.lit_mono 0 1 n 100 (omega arith) (omega arith) (omega arith),
            laws.lit_mono n 100 1 1 (omega arith) (omega arith) (omega arith),
          )
          hx

    pub plus : (p q a b : F) → UpTo p a → UpTo q b → UpTo (f.add p q) (f.add a b)
    plus p q a b ha hb = laws.add_le a p b q ha.0 ha.1 hb.0 hb.1

    pub total : (top x : F) → UpTo top x → top ≼ f.lit 1 1 → InUnit x
    total top x h k = (h.0, laws.le_trans x top (f.lit 1 1) h.1 k)

    -- the weighted sums of two to five values in [0, 1]
    module _ (a b : ℕ) (x y : F) (ha : a ≤ 100) (hb : b ≤ 100) (hx : InUnit x) (hy : InUnit y) where
      two_terms :
          UpTo
            (f.add (f.lit a 100) (f.lit b 100))
            (f.add (f.mul (f.lit a 100) x) (f.mul (f.lit b 100) y))
      two_terms = plus _ _ _ _ (term a x ha hx) (term b y hb hy)

      pub two :
          f.add (f.lit a 100) (f.lit b 100) ≼ f.lit 1 1
          → InUnit (f.add (f.mul (f.lit a 100) x) (f.mul (f.lit b 100) y))
      two = total _ _ two_terms

      module _ (c : ℕ) (z : F) (hc : c ≤ 100) (hz : InUnit z) where
        three_terms :
            UpTo (f.add (f.add (f.lit a 100) (f.lit b 100)) (f.lit c 100)) (
              f.add (f.add (f.mul (f.lit a 100) x) (f.mul (f.lit b 100) y)) (f.mul (f.lit c 100) z))
        three_terms = plus _ _ _ _ two_terms (term c z hc hz)

        pub three :
            f.add (f.add (f.lit a 100) (f.lit b 100)) (f.lit c 100) ≼ f.lit 1 1
            → InUnit (
                f.add
                  (f.add (f.mul (f.lit a 100) x) (f.mul (f.lit b 100) y))
                  (f.mul (f.lit c 100) z))
        three = total _ _ three_terms

        module _ (d : ℕ) (u : F) (hd : d ≤ 100) (hu : InUnit u) where
          four_terms :
              UpTo (f.add (f.add (f.add (f.lit a 100) (f.lit b 100)) (f.lit c 100)) (f.lit d 100)) (
                f.add
                  (f.add
                    (f.add (f.mul (f.lit a 100) x) (f.mul (f.lit b 100) y))
                    (f.mul (f.lit c 100) z))
                  (f.mul (f.lit d 100) u))
          four_terms = plus _ _ _ _ three_terms (term d u hd hu)

          pub four :
              f.add (f.add (f.add (f.lit a 100) (f.lit b 100)) (f.lit c 100)) (f.lit d 100)
                ≼ f.lit 1 1
              → InUnit (
                  f.add
                    (f.add
                      (f.add (f.mul (f.lit a 100) x) (f.mul (f.lit b 100) y))
                      (f.mul (f.lit c 100) z))
                    (f.mul (f.lit d 100) u))
          four = total _ _ four_terms

          module _ (e : ℕ) (v : F) (he : e ≤ 100) (hv : InUnit v) where
            pub five :
                f.add
                    (f.add (f.add (f.add (f.lit a 100) (f.lit b 100)) (f.lit c 100)) (f.lit d 100))
                    (f.lit e 100)
                  ≼ f.lit 1 1
                → InUnit (
                    f.add
                      (f.add
                        (f.add
                          (f.add (f.mul (f.lit a 100) x) (f.mul (f.lit b 100) y))
                          (f.mul (f.lit c 100) z))
                        (f.mul (f.lit d 100) u))
                      (f.mul (f.lit e 100) v))
            five = total _ _ (plus _ _ _ _ four_terms (term e v he hv))

    -- the normalised inputs of the scores
    pub scaled-InUnit :
        (n : ℕ) (x : F) → 0 < n → n ≤ 1_000_000 → IsNum x → InUnit (clamp01 (f.div x (f.lit n 1)))
    scaled-InUnit n x h k num = clamp01-InUnit laws _ (
        laws.div_num x (f.lit n 1) num (laws.lit_finite n 1 (omega arith) k)
          (laws.lit_pos n 1 h k (omega arith) (omega arith)))

    pub falling-InUnit :
        (n : ℕ) (x : F)
        → 0 < n
        → n ≤ 1_000_000
        → IsNum x
        → InUnit (clamp01 (f.sub (f.lit 1 1) (f.exp (f.div (f.neg x) (f.lit n 1)))))
    falling-InUnit n x h k num = clamp01-InUnit laws _ (
        laws.rsub_num _ _ (laws.lit_finite 1 1 (omega arith) (omega arith)) (
          laws.exp_num _ (
            laws.div_num (f.neg x) (f.lit n 1) (laws.neg_num x num)
              (laws.lit_finite n 1 (omega arith) k)
              (laws.lit_pos n 1 h k (omega arith) (omega arith)))))
