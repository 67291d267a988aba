-- ===== src/Sensors/Tegrastats/Child.antt =====
-- The branch of the child in `launch` of src/sensors/tegrastats.cpp, up to its execl.
use hw_agent.Prelude.{
  Bool-cases, subst, ℕ, ◌≤◌, ◌≡◌, ◌≢◌, ◌⊎◌, inl, inr, refl, ◌==◌, Bool, true, false, Text, codes,
  Option, none, some, List, [], ◌∷◌, if◌then◌else◌, to_decimal, arith,
}

-- The calls of POSIX in the child. A descriptor is its number.
pub record ChildPosix (W : Type 0) : Type 0 where
  pub close : ℕ → W → W
  -- whether it succeeds, which the code does not look at
  pub dup2 : ℕ → ℕ → W → Bool × W
  -- /dev/null, for writing or for reading; none where open fails
  pub open_null : Bool → W → Option ℕ × W

module _ {W : Type 0} (posix : ChildPosix W) where
  -- A descriptor that was opened, in the place of the target.
  unfoldable pub replace : Option ℕ → ℕ → W → W
  replace none target w = w
  replace (some fd) target w = posix.close fd (posix.dup2 fd target w).1

  -- /dev/null in the place of a descriptor, if it opens.
  unfoldable pub redirect : Bool → ℕ → W → W
  unfolding replace
  redirect writing target w =
      let (opened, w') = posix.open_null writing w in replace opened target w'

  -- The world in which execl is called.
  unfoldable pub prepare_child : ℕ → ℕ → W → W
  unfolding redirect
  prepare_child read_end write_end w =
      let w₁ = posix.close read_end w in
      let (_, w₂) = posix.dup2 write_end 1 w₁ in
      let w₃ = posix.close write_end w₂ in redirect true 2 (redirect false 0 w₃)

-- The arguments of execl behind the path.
unfoldable pub child_arguments : ℕ → List Text
child_arguments interval_ms =
    codes "tegrastats" ∷ codes "--interval" ∷ codes (to_decimal interval_ms) ∷ []

-- What a descriptor of the child stands for: the ends of the pipe, /dev/null, or what it stood for in
-- the parent.
pub data Object : Type 0 where
  pipe_read : Object
  pipe_write : Object
  null_device : Object
  inherited : Object

-- What POSIX says of the calls, by the table of descriptors that a state of the world has.
pub record IsPosix {W : Type 0} (posix : ChildPosix W) (table : W → ℕ → Option Object)
    : Type 0 where
  pub close_table :
      (fd n : ℕ) (w : W) → table (posix.close fd w) n ≡ (if n == fd then none else table w n)
  pub dup2_done :
      (fd target n : ℕ) (w : W)
      → (posix.dup2 fd target w).0 ≡ true
      → table (posix.dup2 fd target w).1 n ≡ (if n == target then table w fd else table w n)
  -- a call that fails leaves the target as it is
  pub dup2_failed :
      (fd target n : ℕ) (w : W)
      → (posix.dup2 fd target w).0 ≡ false
      → table (posix.dup2 fd target w).1 n ≡ table w n
  -- EBADF
  pub dup2_closed : (fd target : ℕ) (w : W) → table w fd ≡ none → (posix.dup2 fd target w).0 ≡ false
  pub open_none :
      (writing : Bool) (w : W)
      → (posix.open_null writing w).0 ≡ none
      → (n : ℕ) → table (posix.open_null writing w).1 n ≡ table w n
  -- a new descriptor is one that was free
  pub open_some :
      (writing : Bool) (w : W) (fd : ℕ)
      → (posix.open_null writing w).0 ≡ some fd
      → (table w fd ≡ none)
        × ((n : ℕ)
            → table (posix.open_null writing w).1 n
              ≡ (if n == fd then some null_device else table w n))

module _ {W : Type 0} (posix : ChildPosix W) (table : W → ℕ → Option Object)
    (laws : IsPosix posix table) where
  -- The target becomes /dev/null or stays as it is, and nothing else changes.
  abbrev Redirects : ℕ → W → W → Type 0
  Redirects target w w' =
      ((table w' target ≡ some null_device) ⊎ (table w' target ≡ table w target))
      × ((n : ℕ) → n ≢ target → table w' n ≡ table w n)

  replace-Redirects :
      (writing : Bool) (target : ℕ) (w : W) (opened : Option ℕ)
      → table w target ≢ none
      → (posix.open_null writing w).0 ≡ opened
      → Redirects target w (replace posix opened target (posix.open_null writing w).1)
  unfolding replace
  replace-Redirects writing target w none busy e =
      (inr (laws.open_none writing w e target), λ n _. laws.open_none writing w e n)
  replace-Redirects writing target w (some fd) busy e =
      let w₁ = (posix.open_null writing w).1 in
      let w₂ = (posix.dup2 fd target w₁).1 in
      let (free, opens) = laws.open_some writing w fd e in
      let apart : fd ≢ target = λ same. busy (subst (λ n. table w n ≡ none) same free) in
      elim (Bool-cases (posix.dup2 fd target w₁).0) [
        | inl ok ↦ (
          inl (
              ground (
                arith,
                apart,
                laws.close_table fd target w₂,
                laws.dup2_done fd target target w₁ ok,
                opens fd,
              )),
          λ n other. ground (
            arith,
            other,
            free,
            laws.close_table fd n w₂,
            laws.dup2_done fd target n w₁ ok,
            opens n,
          ),
        )
        | inr bad ↦ (
          inr (
              ground (
                arith,
                apart,
                laws.close_table fd target w₂,
                laws.dup2_failed fd target target w₁ bad,
                opens target,
              )),
          λ n other. ground (
            arith,
            other,
            free,
            laws.close_table fd n w₂,
            laws.dup2_failed fd target n w₁ bad,
            opens n,
          ),
        )
      ]

  redirect-Redirects :
      (writing : Bool) (target : ℕ) (w : W)
      → table w target ≢ none
      → Redirects target w (redirect posix writing target w)
  unfolding redirect
  redirect-Redirects writing target w busy =
      replace-Redirects writing target w (posix.open_null writing w).0 busy refl

  -- The pipe in the place of standard output.
  abbrev piped : ℕ → ℕ → W → W
  piped read_end write_end w =
      posix.close write_end (posix.dup2 write_end 1 (posix.close read_end w)).1

  -- Whether dup2 puts it there.
  abbrev pub joins : ℕ → ℕ → W → Bool
  joins read_end write_end w = (posix.dup2 write_end 1 (posix.close read_end w)).0

  piped-table :
      (read_end write_end n : ℕ) (w : W)
      → read_end ≢ write_end
      → 3 ≤ read_end
      → table (piped read_end write_end w) n ≡ (
          if n == write_end
          then none
          else if n == 1
          then (if joins read_end write_end w then table w write_end else table w 1)
          else if n == read_end
          then none
          else table w n)
  piped-table read_end write_end n w apart h =
      let w₁ = posix.close read_end w in
      let w₂ = (posix.dup2 write_end 1 w₁).1 in
      elim (Bool-cases (posix.dup2 write_end 1 w₁).0) [
        | inl ok ↦ ground (
          arith,
          apart,
          ok,
          h,
          laws.close_table write_end n w₂,
          laws.dup2_done write_end 1 n w₁ ok,
          laws.close_table read_end n w,
          laws.close_table read_end write_end w,
        )
        | inr bad ↦ ground (
          arith,
          apart,
          bad,
          h,
          laws.close_table write_end n w₂,
          laws.dup2_failed write_end 1 n w₁ bad,
          laws.close_table read_end n w,
        )
      ]

  -- If the descriptors 0 and 2 are in use and the pipe has others than 0 to 2, execl finds as standard
  -- output the write end of the pipe, or what was inherited where dup2 fails, /dev/null or what was
  -- inherited as input and error output, both ends of the pipe closed beside that, and all else as it
  -- was.
  pub prepare_child-table :
      (read_end write_end : ℕ) (w : W)
      → 3 ≤ read_end
      → 3 ≤ write_end
      → read_end ≢ write_end
      → table w 0 ≢ none
      → table w 2 ≢ none
      → table w write_end ≡ some pipe_write
      → let w' = prepare_child posix read_end write_end w in
        (table w' 1 ≡ (if joins read_end write_end w then some pipe_write else table w 1))
        × ((table w' 0 ≡ some null_device) ⊎ (table w' 0 ≡ table w 0))
        × ((table w' 2 ≡ some null_device) ⊎ (table w' 2 ≡ table w 2))
        × (table w' read_end ≡ none)
        × (table w' write_end ≡ none)
        × ((n : ℕ) → 3 ≤ n → n ≢ read_end → n ≢ write_end → table w' n ≡ table w n)
  unfolding prepare_child
  prepare_child-table read_end write_end w hr hw apart in_use err_use holds =
      let w₃ = piped read_end write_end w in
      let w₄ = redirect posix false 0 w₃ in
      let at = λ (n : ℕ). piped-table read_end write_end n w apart hr in
      let in_kept : table w₃ 0 ≡ table w 0 = ground (arith, at 0, hr, hw) in
      let (input, rest) = redirect-Redirects false 0 w₃ (rw in_kept in_use) in
      let err_kept : table w₄ 2 ≡ table w 2 = ground (arith, rest 2, at 2, hr, hw) in
      let (error, others) = redirect-Redirects true 2 w₄ (rw err_kept err_use) in
      (
        ground (arith, others 1, rest 1, at 1, hw, holds),
        ground (arith, others 0, input, in_kept),
        ground (arith, error, err_kept),
        ground (arith, others read_end, rest read_end, at read_end, hr, apart),
        ground (arith, others write_end, rest write_end, at write_end, hw),
        λ n h out_of_read out_of_write.
            ground (arith, others n, rest n, at n, h, out_of_read, out_of_write),
      )
