-- ===== src/Sensors/Tegrastats/Lines.antt =====
-- The loop of `TegraStatsSensor::sample` over the lines of its buffer.
use hw_agent.Prelude.{
  ◌||◌, ◌≡◌, refl, sym, ap, ◌∙◌, ◌⊎◌, inl, inr, ℕ, zero, suc, ◌≤◌, ◌<◌, Bool, Text, Option, none,
  some, [], ◌∷◌, ◌++◌, length, Option-cases, arith,
}
use hw_agent.Float.{Float}
use hw_agent.Core.Text.{split_at}
use hw_agent.Sensors.Tegrastats.{RawFields, Regexes, parse_line, parse_lines}

-- A text without a line feed.
abbrev pub HasNoLine : Text → Type 0
HasNoLine buffer = split_at 10 buffer ≡ none

split_at-length :
    (c : ℕ) (buffer line rest : Text)
    → split_at c buffer ≡ some (line, rest)
    → length rest < length buffer
unfolding split_at
split_at-length c [] line rest h = ground arith
split_at-length c (x ∷ xs) line rest h = elim (Option-cases (split_at c xs)) [
  | inl absent ↦ ground arith
  | inr ((before, after), found) ↦ ground (arith, split_at-length c xs before after found)
]

split_at-append :
    (c : ℕ) (buffer more line rest : Text)
    → split_at c buffer ≡ some (line, rest)
    → split_at c (buffer ++ more) ≡ some (line, rest ++ more)
unfolding split_at
split_at-append c [] more line rest h = ground arith
split_at-append c (x ∷ xs) more line rest h = elim (Option-cases (split_at c xs)) [
  | inl absent ↦ ground arith
  | inr ((before, after), found) ↦ ground (arith, split_at-append c xs more before after found)
]

-- The results of `parse_lines`.
abbrev pub Loop : Type 0 → Type 0
Loop F = RawFields F × Text × Option Bool

module _ {F : Type 0} ⦃f : Float F⦄ (strtof : Text → Option F) (regexes : Regexes) where
  -- More bytes behind the rest of the buffer, after the loop over the lines.
  abbrev pub resume : Loop F → Text → Loop F
  resume (raw, rest, none) more = (raw, rest ++ more, none)
  resume (raw, rest, some parsed) more =
      parse_lines strtof regexes (length (rest ++ more)) (rest ++ more) raw parsed

  -- With no less fuel than bytes the result does not depend on the fuel.
  parse_lines-enough :
      (n m : ℕ) (buffer : Text) (raw : RawFields F) (parsed : Bool)
      → length buffer ≤ n
      → length buffer ≤ m
      → parse_lines strtof regexes n buffer raw parsed
        ≡ parse_lines strtof regexes m buffer raw parsed
  unfolding parse_lines
  parse_lines-enough zero zero buffer raw parsed hn hm = refl
  parse_lines-enough zero (suc m) [] raw parsed hn hm = refl
  parse_lines-enough zero (suc m) (x ∷ xs) raw parsed hn hm = absurd (omega arith)
  parse_lines-enough (suc n) zero [] raw parsed hn hm = refl
  parse_lines-enough (suc n) zero (x ∷ xs) raw parsed hn hm = absurd (omega arith)
  parse_lines-enough (suc n) (suc m) buffer raw parsed hn hm =
      elim (Option-cases (split_at 10 buffer)) [
        | inl last ↦ rw (parse_lines, last) refl
        | inr ((line, rest), next) ↦ elim (Option-cases (parse_line strtof regexes line raw).1) [
          | inl thrown ↦ rw (parse_lines, next, thrown) refl
          | inr (found, given) ↦
              let shorter = split_at-length 10 buffer line rest next in
              rw (parse_lines, next, given)
                (parse_lines-enough n m rest _ _ (omega (arith, shorter, hn))
                  (omega (arith, shorter, hm)))
        ]
      ]

  lines_last :
      (n : ℕ) (buffer : Text) (raw : RawFields F) (parsed : Bool)
      → split_at 10 buffer ≡ none
      → parse_lines strtof regexes (suc n) buffer raw parsed ≡ (raw, buffer, some parsed)
  unfolding parse_lines
  lines_last n buffer raw parsed h = rw (parse_lines, h) refl

  pub lines_quiet :
      (n : ℕ) (buffer : Text) (raw : RawFields F) (parsed : Bool)
      → HasNoLine buffer
      → parse_lines strtof regexes n buffer raw parsed ≡ (raw, buffer, some parsed)
  unfolding parse_lines
  lines_quiet zero buffer raw parsed h = refl
  lines_quiet (suc n) buffer raw parsed h = lines_last n buffer raw parsed h

  lines_thrown :
      (n : ℕ) (buffer line rest : Text) (raw : RawFields F) (parsed : Bool)
      → split_at 10 buffer ≡ some (line, rest)
      → (parse_line strtof regexes line raw).1 ≡ none
      → parse_lines strtof regexes (suc n) buffer raw parsed
        ≡ ((parse_line strtof regexes line raw).0, rest, none)
  unfolding parse_lines
  lines_thrown n buffer line rest raw parsed h thrown = rw (parse_lines, h, thrown) refl

  lines_next :
      (n : ℕ) (buffer line rest : Text) (raw : RawFields F) (parsed found : Bool)
      → split_at 10 buffer ≡ some (line, rest)
      → (parse_line strtof regexes line raw).1 ≡ some found
      → parse_lines strtof regexes (suc n) buffer raw parsed
        ≡ parse_lines strtof regexes n rest (parse_line strtof regexes line raw).0 (found || parsed)
  unfolding parse_lines
  lines_next n buffer line rest raw parsed found h given = rw (parse_lines, h, given) refl

  -- Bytes that come later do not change what the lines before give.
  pub parse_lines-append :
      (n m : ℕ) (buffer more : Text) (raw : RawFields F) (parsed : Bool)
      → length buffer ≤ n
      → length (buffer ++ more) ≤ m
      → parse_lines strtof regexes m (buffer ++ more) raw parsed
        ≡ resume (parse_lines strtof regexes n buffer raw parsed) more
  unfolding parse_lines
  parse_lines-append zero m [] more raw parsed hn hm =
      parse_lines-enough m _ more raw parsed hm (omega arith)
  parse_lines-append zero m (x ∷ xs) more raw parsed hn hm = absurd (omega arith)
  parse_lines-append (suc n) zero [] [] raw parsed hn hm = refl
  parse_lines-append (suc n) zero [] (y ∷ more) raw parsed hn hm = absurd (omega arith)
  parse_lines-append (suc n) zero (x ∷ xs) more raw parsed hn hm = absurd (omega arith)
  parse_lines-append (suc n) (suc m) buffer more raw parsed hn hm =
      elim (Option-cases (split_at 10 buffer)) [
        | inl last ↦
            parse_lines-enough (suc m) (length (buffer ++ more)) (buffer ++ more) raw parsed hm
              (omega arith)
            ∙ sym (ap (λ r. resume r more) (lines_last n buffer raw parsed last))
        | inr ((line, rest), next) ↦ elim (Option-cases (parse_line strtof regexes line raw).1) [
          | inl thrown ↦
              lines_thrown m (buffer ++ more) line (rest ++ more) raw parsed
                (split_at-append 10 buffer more line rest next) thrown
              ∙ sym
                  (ap (λ r. resume r more) (lines_thrown n buffer line rest raw parsed next thrown))
          | inr (found, given) ↦
              let shorter = split_at-length 10 buffer line rest next in
              let later = split_at-append 10 buffer more line rest next in
              let shorter' = split_at-length 10 (buffer ++ more) line (rest ++ more) later in
              lines_next m (buffer ++ more) line (rest ++ more) raw parsed found later given
              ∙ parse_lines-append n m rest more _ (found || parsed) (omega (arith, shorter, hn))
                  (omega (arith, shorter', hm))
              ∙ sym (
                  ap (λ r. resume r more)
                    (lines_next n buffer line rest raw parsed found next given))
        ]
      ]

  -- With no less fuel than bytes, the loop ends at an exception or with no line left.
  pub parse_lines-HasNoLine :
      (n : ℕ) (buffer : Text) (raw : RawFields F) (parsed : Bool)
      → length buffer ≤ n
      → let (raw', rest, result) = parse_lines strtof regexes n buffer raw parsed in
        (result ≡ none) ⊎ HasNoLine rest
  unfolding parse_lines
  parse_lines-HasNoLine zero [] raw parsed h = inr refl
  parse_lines-HasNoLine zero (x ∷ xs) raw parsed h = absurd (omega arith)
  parse_lines-HasNoLine (suc n) buffer raw parsed h = elim (Option-cases (split_at 10 buffer)) [
    | inl last ↦ rw (parse_lines, last) (inr last)
    | inr ((line, rest), next) ↦ elim (Option-cases (parse_line strtof regexes line raw).1) [
      | inl thrown ↦ rw (parse_lines, next, thrown) (inl refl)
      | inr (found, given) ↦
          let shorter = split_at-length 10 buffer line rest next in
          rw (parse_lines, next, given)
            (parse_lines-HasNoLine n rest _ _ (omega (arith, shorter, h)))
    ]
  ]
