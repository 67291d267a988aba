-- ===== src/Derived/Jitter/Window.antt =====
-- The ring of src/derived/latency_jitter.cpp as a list from the oldest interval to the newest.
use hw_agent.Prelude.{
  ℕ, zero, suc, ◌+◌, ◌-◌, ◌%◌, ◌^◌, ◌≤◌, ◌<◌, ◌≡◌, refl, ap, List, [], ◌∷◌, ◌++◌, foldl, arith, ltb,
  add64, length, length-append, ◌∙◌, append_assoc, sum, sum-append, sym, append-nil, ◌≡⟨◌⟩◌, ◌∎,
  take-take, take-append-drop, drop-append, drop-drop, length-drop, length-set, take, drop, Bool,
  Bool-cases, inl, inr, ltb→lt,
}
use hw_agent.Derived.Jitter.{Intervals, no_intervals, push, sum_intervals}

-- The intervals from the oldest to the newest.
unfoldable pub ordered : Intervals → List ℕ
ordered w = drop w.next (take w.count w.intervals_ns) ++ take w.next w.intervals_ns

pub record IsRing (w : Intervals) : Type 0 where
  pub room : length w.intervals_ns ≡ 8
  pub count_le : w.count ≤ 8
  pub next_lt : w.next < 8
  pub next_le : w.next ≤ w.count
  pub filling : w.count < 8 → w.next ≡ w.count

-- What the ring stands for: a list that forgets its head once it holds eight.
unfoldable pub remember : List ℕ → ℕ → List ℕ
remember l x = drop (length l + 1 - 8) (l ++ x ∷ [])

pub no_intervals-IsRing : IsRing no_intervals
unfolding no_intervals
no_intervals-IsRing = ground arith

pub push-IsRing : (x : ℕ) (w : Intervals) → IsRing w → IsRing (push x w)
unfolding push
push-IsRing x w r = ground (arith, length-set w.intervals_ns w.next x)

-- a ring of eight cells
abbrev cells : (a b c d e f g h : ℕ) → List ℕ
cells a b c d e f g h = a ∷ b ∷ c ∷ d ∷ e ∷ f ∷ g ∷ h ∷ []

abbrev ring : List ℕ → ℕ → ℕ → ℕ → Bool → Intervals
ring l count next prev has = record {
  intervals_ns = l;
  count = count;
  next = next;
  prev_timestamp = prev;
  has_prev_timestamp = has;
}

module _ (x a b c d e f g h p : ℕ) (t : Bool) where
  -- one case for each position of `next_`
  push_full :
      (n : ℕ)
      → n < 8
      → ordered (push x (ring (cells a b c d e f g h) 8 n p t))
        ≡ remember (ordered (ring (cells a b c d e f g h) 8 n p t)) x
  unfolding push ordered remember
  push_full zero k = refl
  push_full (suc zero) k = refl
  push_full (suc (suc zero)) k = refl
  push_full (suc (suc (suc zero))) k = refl
  push_full (suc (suc (suc (suc zero)))) k = refl
  push_full (suc (suc (suc (suc (suc zero))))) k = refl
  push_full (suc (suc (suc (suc (suc (suc zero)))))) k = refl
  push_full (suc (suc (suc (suc (suc (suc (suc zero))))))) k = refl
  push_full (suc (suc (suc (suc (suc (suc (suc (suc n)))))))) k = absurd (omega arith)

  push_filling :
      (n : ℕ)
      → n < 8
      → ordered (push x (ring (cells a b c d e f g h) n n p t))
        ≡ remember (ordered (ring (cells a b c d e f g h) n n p t)) x
  unfolding push ordered remember
  push_filling zero k = refl
  push_filling (suc zero) k = refl
  push_filling (suc (suc zero)) k = refl
  push_filling (suc (suc (suc zero))) k = refl
  push_filling (suc (suc (suc (suc zero)))) k = refl
  push_filling (suc (suc (suc (suc (suc zero))))) k = refl
  push_filling (suc (suc (suc (suc (suc (suc zero)))))) k = refl
  push_filling (suc (suc (suc (suc (suc (suc (suc zero))))))) k = refl
  push_filling (suc (suc (suc (suc (suc (suc (suc (suc n)))))))) k = absurd (omega arith)

push_ring :
    (x : ℕ) (l : List ℕ) (n m p : ℕ) (t : Bool)
    → IsRing (ring l n m p t)
    → ordered (push x (ring l n m p t)) ≡ remember (ordered (ring l n m p t)) x
push_ring x (a ∷ b ∷ c ∷ d ∷ e ∷ f ∷ g ∷ h ∷ []) n m p t r = elim (Bool-cases (ltb n 8)) [
  | inl filling ↦
      let same : m ≡ n = r.filling (ltb→lt n 8 filling) in
      rw same (push_filling x a b c d e f g h p t n (ltb→lt n 8 filling))
  | inr full ↦
      let eight : n ≡ 8 = ground (arith, r.count_le) in
      rw eight (push_full x a b c d e f g h p t m r.next_lt)
]
push_ring x l n m p t r = absurd (omega (arith, r.room))

-- A new interval is remembered as the newest, and the oldest of eight is forgotten.
pub push-ordered : (x : ℕ) (w : Intervals) → IsRing w → ordered (push x w) ≡ remember (ordered w) x
push-ordered x w r =
    push_ring x w.intervals_ns w.count w.next w.prev_timestamp w.has_prev_timestamp r

pub push_all : List ℕ → Intervals → Intervals
push_all [] w = w
push_all (x ∷ xs) w = push_all xs (push x w)

push_all-IsRing : (xs : List ℕ) (w : Intervals) → IsRing w → IsRing (push_all xs w)
unfolding push_all
push_all-IsRing [] w r = r
push_all-IsRing (x ∷ xs) w r = push_all-IsRing xs (push x w) (push-IsRing x w r)

push_all-remember :
    (xs : List ℕ) (w : Intervals)
    → IsRing w
    → ordered (push_all xs w) ≡ foldl remember (ordered w) xs
unfolding push_all
push_all-remember [] w r = refl
push_all-remember (x ∷ xs) w r =
    push_all-remember xs (push x w) (push-IsRing x w r)
    ∙ ap (λ l. foldl remember l xs) (push-ordered x w r)

foldl-remember :
    (xs l : List ℕ) → length l ≤ 8 → foldl remember l xs ≡ drop (length l + length xs - 8) (l ++ xs)
unfolding remember
foldl-remember [] l h =
    let none_left : length l + 0 - 8 ≡ 0 = omega arith in rw none_left (sym (append-nil l))
foldl-remember (x ∷ xs) l h =
    let grown = l ++ x ∷ [] in
    let cut = length l + 1 - 8 in
    let more = length l + length (x ∷ xs) - 8 - cut in
    let size : length grown ≡ length l + 1 = omega (arith, length-append l (x ∷ [])) in
    let size' : length (drop cut grown) ≡ length grown - cut = length-drop cut grown in
    let rest : length (drop cut grown) + length xs - 8 ≡ more = omega arith in
    foldl remember (remember l x) xs
    ≡⟨ foldl-remember xs (drop cut grown) (omega arith) ⟩
      drop (length (drop cut grown) + length xs - 8) (drop cut grown ++ xs)
    ≡⟨ (rw (rest, drop-append cut grown xs (omega arith)) refl) ⟩ drop more (drop cut (grown ++ xs))
    ≡⟨ drop-drop more cut (length l + length (x ∷ xs) - 8) (grown ++ xs) (omega arith) ⟩
      drop (length l + length (x ∷ xs) - 8) (grown ++ xs)
    ≡⟨ (rw append_assoc refl) ⟩ drop (length l + length (x ∷ xs) - 8) (l ++ x ∷ xs) ∎

-- After any number of intervals the ring holds the last eight of them, in order.
pub push_all-ordered : (xs : List ℕ) → ordered (push_all xs no_intervals) ≡ drop (length xs - 8) xs
push_all-ordered xs =
    push_all-remember xs no_intervals no_intervals-IsRing
    ∙ rw nothing (foldl-remember xs [] (omega arith) ∙ rw size)
  where
    nothing : ordered no_intervals ≡ []
    nothing = unfold ordered no_intervals in refl

    size : 0 + length xs ≡ length xs
    size = omega arith

foldl-add64 : (l : List ℕ) (acc : ℕ) → acc < 2 ^ 64 → foldl add64 acc l ≡ (acc + sum l) % 2 ^ 64
unfolding add64
foldl-add64 [] acc h = omega arith
foldl-add64 (x ∷ xs) acc h = omega (arith, foldl-add64 xs ((acc + x) % 2 ^ 64) (omega arith))

-- In a well-formed ring, the loop of the code adds the remembered intervals, modulo 2^64, in whatever position they stand.
pub sum_intervals-ordered : (w : Intervals) → IsRing w → sum_intervals w ≡ sum (ordered w) % 2 ^ 64
unfolding sum_intervals ordered
sum_intervals-ordered w r =
    let live = take w.count w.intervals_ns in
    omega (
      arith,
      foldl-add64 live 0 (omega arith),
      sum-append (drop w.next live) (take w.next w.intervals_ns),
      ap sum (take-take w.next w.count w.intervals_ns r.next_le),
      sum-append (take w.next live) (drop w.next live),
      ap sum (take-append-drop w.next live),
    )
