-- ===== src/Risk/State/Levels.antt =====
-- The levels of `SystemState::sample`: order, hysteresis, convergence.
use hw_agent.Prelude.{zero, suc, ℕ, ◌+◌, ◌≤◌, ◌<◌, ◌≡◌, false, arith}
use hw_agent.Float.{Float, IsFloat, ◌≼◌, IsNum}
use hw_agent.Frame.{SystemState, stable, degraded, unstable, critical, code}
use hw_agent.Risk.State.{next_state}

module _ {F : Type 0} ⦃f : Float F⦄ where
  -- One sample moves the level by at most one.
  pub next_state_near :
      (s : SystemState) (r : F)
      → (code (next_state s r) ≤ code s + 1) × (code s ≤ code (next_state s r) + 1)
  unfolding next_state
  next_state_near stable r = ground arith
  next_state_near s r = ground arith

  -- A risk that is NaN leaves the level as it is.
  pub next_state_nan : IsFloat F → (s : SystemState) (r : F) → ¬ IsNum r → next_state s r ≡ s
  unfolding next_state
  next_state_nan laws stable r h = ground (arith, h, laws.num_of_le (f.lit 45 100) r)
  next_state_nan laws degraded r h =
      ground (arith, h, laws.num_of_le (f.lit 70 100) r, laws.num_of_le r (f.lit 30 100))
  next_state_nan laws unstable r h =
      ground (arith, h, laws.num_of_le (f.lit 88 100) r, laws.num_of_le r (f.lit 55 100))
  next_state_nan laws critical r h = ground (arith, h, laws.num_of_le r (f.lit 78 100))

  -- `n` samples at the same risk.
  unfoldable pub after : ℕ → SystemState → F → SystemState
  after zero s r = s
  after (suc n) s r = after n (next_state s r) r

  module _ (laws : IsFloat F) where
    -- a threshold is not reached from above below a smaller one
    apart : (n m : ℕ) (r : F) → n < m → m ≤ 100 → r ≼ f.lit n 100 → f.le (f.lit m 100) r ≡ false
    apart n m r h k below =
        let a = laws.num_of_le r (f.lit n 100) below in
        ground (
          arith,
          a,
          laws.lit_lt n m h k,
          laws.lt-eq-not-le (f.lit n 100) (f.lit m 100),
          laws.lt_num (f.lit n 100) (f.lit m 100),
          laws.le_trans (f.lit m 100) r (f.lit n 100),
        )

    above : (n : ℕ) (q r : F) → q ≼ r → f.lit n 100 ≼ q → f.lit n 100 ≼ r
    above n q r k h = laws.le_trans (f.lit n 100) q r h k

    below : (n : ℕ) (q r : F) → q ≼ r → r ≼ f.lit n 100 → q ≼ f.lit n 100
    below n q r k h = laws.le_trans q r (f.lit n 100) k h

    -- A level and a risk that are both at least as high are followed by a level at least as high.
    pub next_state_mono :
        (s t : SystemState) (q r : F)
        → code s ≤ code t
        → q ≼ r
        → code (next_state s q) ≤ code (next_state t r)
    unfolding next_state
    next_state_mono stable t q r h k = ground (arith, above 45 q r k, apart 30 45 r)
    next_state_mono degraded t q r h k =
        ground (arith, above 70 q r k, below 30 q r k, apart 55 70 r)
    next_state_mono unstable t q r h k =
        ground (arith, above 88 q r k, below 55 q r k, apart 78 88 r)
    next_state_mono critical t q r h k = ground (arith, below 78 q r k)

    -- A change is never undone at the same risk.
    pub next_state_settles :
        (s : SystemState) (r : F) → next_state (next_state s r) r ≡ s → next_state s r ≡ s
    unfolding next_state
    next_state_settles stable r h = ground (arith, apart 30 45 r)
    next_state_settles s r h = ground (arith, apart 30 45 r, apart 55 70 r, apart 78 88 r)

    threshold_le : (n m : ℕ) (r : F) → n ≤ m → f.lit m 100 ≼ r → f.lit n 100 ≼ r
    threshold_le n m r h k =
        laws.le_trans (f.lit n 100) (f.lit m 100) r
          (laws.lit_mono n 100 m 100 (omega arith) (omega arith) (omega arith)) k

    le_threshold : (n m : ℕ) (r : F) → n ≤ m → r ≼ f.lit n 100 → r ≼ f.lit m 100
    le_threshold n m r h k =
        laws.le_trans r (f.lit n 100) (f.lit m 100) k
          (laws.lit_mono n 100 m 100 (omega arith) (omega arith) (omega arith))

    -- Three samples at a risk from 0.88 reach CRITICAL from any level.
    pub three_up : (s : SystemState) (r : F) → f.lit 88 100 ≼ r → after 3 s r ≡ critical
    unfolding after next_state
    three_up s r h = ground (
      arith,
      threshold_le 45 88 r (omega arith) h,
      threshold_le 70 88 r (omega arith) h,
      apart 78 88 r,
    )

    -- Three samples at a risk up to 0.30 reach STABLE from any level.
    pub three_down : (s : SystemState) (r : F) → r ≼ f.lit 30 100 → after 3 s r ≡ stable
    unfolding after next_state
    three_down s r h = ground (
      arith,
      le_threshold 30 55 r (omega arith) h,
      le_threshold 30 78 r (omega arith) h,
      apart 30 45 r,
      apart 30 70 r,
      apart 30 88 r,
    )

    -- Whatever the risk, three samples at that risk reach a level that it keeps.
    pub after_three_fixed : (s : SystemState) (r : F) → next_state (after 3 s r) r ≡ after 3 s r
    unfolding after next_state
    after_three_fixed s r = ground (
      arith,
      apart 30 45 r,
      apart 55 70 r,
      apart 78 88 r,
      threshold_le 45 70 r,
      threshold_le 45 88 r,
      threshold_le 70 88 r,
      le_threshold 30 55 r,
      le_threshold 30 78 r,
      le_threshold 55 78 r,
    )
