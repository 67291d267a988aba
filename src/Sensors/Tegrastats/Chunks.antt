-- ===== src/Sensors/Tegrastats/Chunks.antt =====
-- The loops of `TegraStatsSensor::sample` over the chunks that it reads.
use hw_agent.Prelude.{
  ◌≡◌, refl, sym, ap, subst, ◌⊎◌, inl, inr, Bool, Text, Option, none, some, List, [], ◌∷◌, ◌++◌,
  append-nil, append_assoc, length, Option-cases, arith,
}
use hw_agent.Float.{Float}
use hw_agent.Sensors.Tegrastats.{RawFields, Regexes, parse_lines, read_chunks}
use hw_agent.Sensors.Tegrastats.Lines.{
  HasNoLine, Loop, resume, lines_quiet, parse_lines-append, parse_lines-HasNoLine,
}

-- The same fields and the same outcome, and the same rest where there was no exception.
abbrev pub Agrees : {F : Type 0} → Loop F → Loop F → Type 0
Agrees one other = (one.0 ≡ other.0) × (one.2 ≡ other.2) × ((one.2 ≡ none) ⊎ (one.1 ≡ other.1))

abbrev pub join : List Text → Text
join [] = []
join (chunk ∷ chunks) = chunk ++ join chunks

module _ {F : Type 0} ⦃f : Float F⦄ (strtof : Text → Option F) (regexes : Regexes) where
  resume_thrown :
      (loop : Loop F) (more : Text)
      → loop.2 ≡ none
      → resume strtof regexes loop more ≡ (loop.0, loop.1 ++ more, none)
  resume_thrown (raw, rest, none) more h = refl
  resume_thrown (raw, rest, some parsed) more h = absurd (ground (arith, h))

  resume_given :
      (loop : Loop F) (more : Text) (found : Bool)
      → loop.2 ≡ some found
      → resume strtof regexes loop more
        ≡ parse_lines strtof regexes (length (loop.1 ++ more)) (loop.1 ++ more) loop.0 found
  resume_given (raw, rest, none) more found h = absurd (ground (arith, h))
  resume_given (raw, rest, some parsed) more found h = ground (arith, h)

  read_chunks-lines :
      (chunks : List Text) (buffer : Text) (raw : RawFields F) (parsed : Bool)
      → HasNoLine buffer
      → Agrees (read_chunks strtof regexes chunks buffer raw parsed) (
          parse_lines strtof regexes
            (length (buffer ++ join chunks))
            (buffer ++ join chunks)
            raw
            parsed)
  unfolding read_chunks
  read_chunks-lines [] buffer raw parsed h =
      rw (append-nil buffer, lines_quiet strtof regexes (length buffer) buffer raw parsed h)
        (refl, refl, inr refl)
  read_chunks-lines (chunk ∷ chunks) buffer raw parsed h =
      let first =
        parse_lines strtof regexes (length (buffer ++ chunk)) (buffer ++ chunk) raw parsed in
      let clean =
        parse_lines-HasNoLine strtof regexes (length (buffer ++ chunk)) (buffer ++ chunk) raw parsed
          (omega arith) in
      let joined =
        parse_lines-append strtof regexes (length (buffer ++ chunk))
          (length ((buffer ++ chunk) ++ join chunks)) (buffer ++ chunk) (join chunks) raw parsed
          (omega arith) (omega arith) in
      elim (Option-cases first.2) [
        | inl thrown ↦
            rw
              (
                read_chunks,
                sym (append_assoc buffer chunk (join chunks)),
                joined,
                resume_thrown first (join chunks) thrown,
                thrown,
              )
              (refl, refl, inl refl)
        | inr (found, given) ↦
            let none_left : HasNoLine first.1 = ground (arith, clean, given) in
            rw
              (
                read_chunks,
                sym (append_assoc buffer chunk (join chunks)),
                joined,
                resume_given first (join chunks) found given,
                given,
              )
              (read_chunks-lines chunks first.1 first.0 found none_left)
      ]

  read_chunks_one :
      (chunk buffer : Text) (raw : RawFields F) (parsed : Bool)
      → read_chunks strtof regexes (chunk ∷ []) buffer raw parsed
        ≡ parse_lines strtof regexes (length (buffer ++ chunk)) (buffer ++ chunk) raw parsed
  unfolding read_chunks
  read_chunks_one chunk buffer raw parsed =
      let loop =
        parse_lines strtof regexes (length (buffer ++ chunk)) (buffer ++ chunk) raw parsed in
      elim (Option-cases loop.2) [
        | inl thrown ↦ rw (read_chunks, thrown) (ap (λ o. (loop.0, loop.1, o)) (sym thrown))
        | inr (found, given) ↦ rw (read_chunks, given) (ap (λ o. (loop.0, loop.1, o)) (sym given))
      ]

  -- However the output of the child is cut into chunks, a sample that starts without a line in its
  -- buffer gets the same fields and the same outcome, and the same rest in the buffer unless a regular
  -- expression throws.
  pub read_chunks-joined :
      (chunks : List Text) (buffer : Text) (raw : RawFields F) (parsed : Bool)
      → HasNoLine buffer
      → Agrees
          (read_chunks strtof regexes chunks buffer raw parsed)
          (read_chunks strtof regexes (join chunks ∷ []) buffer raw parsed)
  unfolding read_chunks
  read_chunks-joined chunks buffer raw parsed h =
      subst (λ l. Agrees (read_chunks strtof regexes chunks buffer raw parsed) l)
        (sym (read_chunks_one (join chunks) buffer raw parsed))
        (read_chunks-lines chunks buffer raw parsed h)
