-- ===== src/Sensors/Softirqs/Scanner.antt =====
-- The scanner of src/sensors/softirqs.cpp: buffers and numbers.
use hw_agent.Prelude.{
  ℕ, ◌+◌, ◌-◌, ◌*◌, ◌≤◌, ◌≡◌, ◌≢◌, ◌∙◌, refl, ap, sym, Bool, true, false, arith, Text, List, [],
  ◌∷◌, ◌++◌, All, ltb, if◌then◌else◌, add64, foldl,
}
use hw_agent.Core.Text.{is_digit}
use hw_agent.Sensors.Softirqs.{Scan, scan, append_digit, read_all, max_value}

-- The bytes of the buffers.
abbrev pub joined : List Text → Text
joined [] = []
joined (b ∷ bs) = b ++ joined bs

abbrev pub IsFilled : Text → Type 0
IsFilled b = b ≢ []

foldl-append : (s : Scan) (xs ys : Text) → foldl scan s (xs ++ ys) ≡ foldl scan (foldl scan s xs) ys
foldl-append s [] ys = refl
foldl-append s (x ∷ xs) ys = foldl-append (scan s x) xs ys

-- Where fread cuts the file does not matter: buffers that are not empty are scanned as their bytes in
-- one piece.
pub read_all-joined :
    (buffers : List Text) (s : Scan) (saw : Bool)
    → All IsFilled buffers
    → (read_all buffers s saw).0 ≡ foldl scan s (joined buffers)
unfolding read_all
read_all-joined [] s saw h = refl
read_all-joined ([] ∷ rest) s saw h = absurd (h.0 refl)
read_all-joined ((c ∷ cs) ∷ rest) s saw h =
    read_all-joined rest (foldl scan s (c ∷ cs)) true h.1
    ∙ sym (foldl-append s (c ∷ cs) (joined rest))

-- A number as 64 bits hold it: at most the largest.
unfoldable pub clip : ℕ → ℕ
clip v = if ltb max_value v then max_value else v

-- The number that digits stand for, after `v`.
unfoldable pub value_of : ℕ → Text → ℕ
value_of v [] = v
value_of v (c ∷ cs) = value_of (v * 10 + (c - b'0')) cs

abbrev pub IsDigit : ℕ → Type 0
IsDigit c = is_digit c ≡ true

append_digit-clip : (v d : ℕ) → d ≤ 9 → append_digit (clip v) d ≡ clip (v * 10 + d)
unfolding append_digit clip
append_digit-clip v d h = ground arith

digit_le : (c : ℕ) → IsDigit c → c - b'0' ≤ 9
unfolding is_digit
digit_le c h = ground arith

-- in a number whose digits so far are `v`
abbrev within : ℕ → ℕ → Scan
within total v = record {
  parse_values = true;
  in_number = true;
  current_value = clip v;
  total_softirqs = total;
}

scan_digit :
    (total v c : ℕ) → IsDigit c → scan (within total v) c ≡ within total (v * 10 + (c - b'0'))
unfolding scan is_digit
scan_digit total v c h = ground (arith, append_digit-clip v (c - b'0') (digit_le c h))

scan_digits :
    (total v : ℕ) (cs : Text)
    → All IsDigit cs
    → foldl scan (within total v) cs ≡ within total (value_of v cs)
unfolding value_of
scan_digits total v [] h = refl
scan_digits total v (c ∷ cs) (h, hs) =
    ap (λ s. foldl scan s cs) (scan_digit total v c h)
    ∙ scan_digits total (v * 10 + (c - b'0')) cs hs

-- between two numbers of a line
abbrev pub between : ℕ → Scan
between total = record {
  parse_values = true;
  in_number = false;
  current_value = 0;
  total_softirqs = total;
}

first_digit :
    (total c : ℕ) → IsDigit c → scan (between total) c ≡ within total (0 * 10 + (c - b'0'))
unfolding scan clip is_digit
first_digit total c h = ground arith

end_of_number : (total v : ℕ) → scan (within total v) b' ' ≡ between (add64 total (clip v))
unfolding scan is_digit
end_of_number total v = refl

-- A number and the space behind it add that number to the total, modulo 2^64; a number that does not
-- fit in 64 bits counts as the largest that does.
pub scan-number :
    (total d : ℕ) (ds : Text)
    → All IsDigit (d ∷ ds)
    → foldl scan (between total) ((d ∷ ds) ++ b' ' ∷ [])
      ≡ between (add64 total (clip (value_of 0 (d ∷ ds))))
unfolding value_of
scan-number total d ds (h, hs) =
    foldl-append (scan (between total) d) ds (b' ' ∷ [])
    ∙ ap (λ s. scan (foldl scan s ds) b' ') (first_digit total d h)
    ∙ ap (λ s. scan s b' ') (scan_digits total (0 * 10 + (d - b'0')) ds hs)
    ∙ end_of_number total (value_of (0 * 10 + (d - b'0')) ds)
