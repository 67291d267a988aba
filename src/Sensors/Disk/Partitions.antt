-- ===== src/Sensors/Disk/Partitions.antt =====
-- Which names `is_partition_device` of src/sensors/disk.cpp takes for partitions.
use hw_agent.Prelude.{
  ℕ, ◌≡◌, ◌∙◌, refl, ap, true, false, not, ◌&&◌, ◌||◌, ◌==◌, arith, Text, [], ◌∷◌, ◌++◌, All, some,
}
use hw_agent.Core.Text.{is_digit}
use hw_agent.Sensors.Disk.{
  is_alpha, stem, has_digit, last_two, has_trailing_digit, is_partition_device, keep_stem,
}

abbrev pub IsDigit : ℕ → Type 0
IsDigit c = is_digit c ≡ true

abbrev pub IsLetter : ℕ → Type 0
IsLetter c = is_alpha c ≡ true

stem-digits : (ds : Text) → All IsDigit ds → stem ds ≡ []
unfolding stem
stem-digits [] h = refl
stem-digits (d ∷ ds) (h, hs) = rw (stem-digits ds hs, h) refl

stem-append :
    (base : Text) (m : ℕ) (ds : Text)
    → is_digit m ≡ false
    → All IsDigit ds
    → stem (base ++ m ∷ ds) ≡ base ++ m ∷ []
unfolding stem
stem-append [] m ds h hs = rw (stem-digits ds hs, h) refl
stem-append (b ∷ []) m ds h hs = ap (keep_stem b) (stem-append [] m ds h hs)
stem-append (b ∷ c ∷ base) m ds h hs = ap (keep_stem b) (stem-append (c ∷ base) m ds h hs)

stem-name :
    (base : Text) (b m : ℕ) (ds : Text)
    → is_digit m ≡ false
    → All IsDigit ds
    → stem (base ++ b ∷ m ∷ ds) ≡ base ++ b ∷ m ∷ []
unfolding stem
stem-name [] b m ds h hs = ap (keep_stem b) (stem-append [] m ds h hs)
stem-name (x ∷ []) b m ds h hs = ap (keep_stem x) (stem-name [] b m ds h hs)
stem-name (x ∷ y ∷ base) b m ds h hs = ap (keep_stem x) (stem-name (y ∷ base) b m ds h hs)

last_two-append : (base : Text) (b m : ℕ) → last_two (base ++ b ∷ m ∷ []) ≡ some (some b, m)
unfolding last_two
last_two-append [] b m = refl
last_two-append (x ∷ []) b m = refl
last_two-append (x ∷ y ∷ []) b m = refl
last_two-append (x ∷ y ∷ z ∷ base) b m = last_two-append (y ∷ z ∷ base) b m

-- only the last byte counts
trailing_digit-cons :
    (x y : ℕ) (ys : Text) → has_trailing_digit (x ∷ y ∷ ys) ≡ has_trailing_digit (y ∷ ys)
unfolding has_trailing_digit last_two
trailing_digit-cons x y [] = refl
trailing_digit-cons x y (z ∷ zs) = refl

trailing_digit-append :
    (base : Text) (x : ℕ) (xs : Text)
    → has_trailing_digit (base ++ x ∷ xs) ≡ has_trailing_digit (x ∷ xs)
trailing_digit-append [] x xs = refl
trailing_digit-append (b ∷ []) x xs = trailing_digit-cons b x xs
trailing_digit-append (b ∷ c ∷ base) x xs =
    trailing_digit-cons b c (base ++ x ∷ xs) ∙ trailing_digit-append (c ∷ base) x xs

trailing_digit-digits :
    (d : ℕ) (ds : Text) → All IsDigit (d ∷ ds) → has_trailing_digit (d ∷ ds) ≡ true
unfolding has_trailing_digit last_two
trailing_digit-digits d [] (h, hs) = h
trailing_digit-digits d (e ∷ ds) (h, hs) =
    trailing_digit-cons d e ds ∙ trailing_digit-digits e ds hs

trailing_digit-name :
    (base : Text) (b m d : ℕ) (ds : Text)
    → All IsDigit (d ∷ ds)
    → has_trailing_digit (base ++ b ∷ m ∷ d ∷ ds) ≡ true
trailing_digit-name base b m d ds h =
    trailing_digit-append base b (m ∷ d ∷ ds)
    ∙ trailing_digit-cons b m (d ∷ ds)
    ∙ trailing_digit-cons m d ds
    ∙ trailing_digit-digits d ds h

-- A name that ends in digits, behind at least two other bytes of which the last, the marker, is no
-- digit: it is a partition if the marker is a `p` behind a digit, or if the marker is a letter and
-- there is no digit before the trailing ones.
pub partition_name :
    (base : Text) (b m d : ℕ) (ds : Text)
    → is_digit m ≡ false
    → All IsDigit (d ∷ ds)
    → is_partition_device (base ++ b ∷ m ∷ d ∷ ds)
      ≡ ((m == b'p' && is_digit b) || (not (has_digit (base ++ b ∷ m ∷ [])) && is_alpha m))
unfolding is_partition_device
partition_name base b m d ds h hs =
    let name = stem-name base b m (d ∷ ds) h hs in
    rw (is_partition_device, name, last_two-append base b m, trailing_digit-name base b m d ds hs)
      (ap (λ (t : Text). (m == b'p' && is_digit b) || (not (has_digit t) && is_alpha m)) name)

digit_before_letter : (m : ℕ) → IsLetter m → is_digit m ≡ false
unfolding is_alpha is_digit
digit_before_letter m h = ground arith

no_digit-letters : (xs : Text) → All IsLetter xs → has_digit xs ≡ false
unfolding has_digit
no_digit-letters [] h = refl
no_digit-letters (x ∷ xs) (h, hs) = rw (digit_before_letter x h, no_digit-letters xs hs) refl

digit-inside : (base : Text) (d m : ℕ) → IsDigit d → has_digit (base ++ d ∷ m ∷ []) ≡ true
unfolding has_digit
digit-inside [] d m h = rw h refl
digit-inside (x ∷ base) d m h = ground (arith, digit-inside base d m h)

letters-append :
    (base : Text) (b m : ℕ)
    → All IsLetter base
    → IsLetter b
    → IsLetter m
    → All IsLetter (base ++ b ∷ m ∷ [])
letters-append [] b m h hb hm = (hb, (hm, tt))
letters-append (x ∷ base) b m (h, hs) hb hm = (h, letters-append base b m hs hb hm)

-- Two letters or more with a number behind them, such as sda1, are a partition.
pub partition-letters :
    (base : Text) (b m d : ℕ) (ds : Text)
    → All IsLetter base
    → IsLetter b
    → IsLetter m
    → All IsDigit (d ∷ ds)
    → is_partition_device (base ++ b ∷ m ∷ d ∷ ds) ≡ true
partition-letters base b m d ds h hb hm hs = ground (
  arith,
  partition_name base b m d ds (digit_before_letter m hm) hs,
  no_digit-letters (base ++ b ∷ m ∷ []) (letters-append base b m h hb hm),
)

-- A name with a number, a `p` and a number at its end, such as nvme0n1p2, is a partition; with another
-- letter for the `p`, such as nvme0n1, it is not.
pub partition-numbered :
    (base : Text) (b m d : ℕ) (ds : Text)
    → IsDigit b
    → IsLetter m
    → All IsDigit (d ∷ ds)
    → is_partition_device (base ++ b ∷ m ∷ d ∷ ds) ≡ (m == b'p')
partition-numbered base b m d ds hb hm hs =
    ground
      (arith, partition_name base b m d ds (digit_before_letter m hm) hs, digit-inside base b m hb)
