-- ===== src/Sensors/Tegrastats.antt =====
-- `TegraStatsSensor` of src/sensors/tegrastats.cpp: the lines that a child process writes. Process has
-- the child and `sample`.
pub mod Process
pub mod Lines
pub mod Chunks
pub mod Lifetime
pub mod Released
pub mod Strays
pub mod Child
use hw_agent.Prelude.{
  ℕ, zero, suc, ◌+◌, ◌-◌, ◌*◌, ◌^◌, Bool, true, false, ◌||◌, Text, codes, text_eq, Option, none,
  some, List, [], ◌∷◌, ◌++◌, length, ◌==◌, ltb, if◌then◌else◌,
}
use hw_agent.Float.{Float}
use hw_agent.Frame.{SignalFrame}
use hw_agent.Core.Text.{split_at}
use hw_agent.Core.Numbers.{digits}
use hw_agent.Sensors.Thermal.{of_signed}

-- `RawFields`, its maps as lists of entries.
pub record RawFields (F : Type 0) : Type 0 where
  pub gpu_util_pct : F
  pub emc_util_pct : F
  pub total_rail_power_mw : F
  pub rail_power_mw : List (Text × F)
  pub temperatures_c : List (Text × F)

-- `read_fd_ >= 0`, `child_pid_ > 0`, `enabled_`, `read_buffer_` and `raw_`.
pub record TegraStats (F : Type 0) : Type 0 where
  pub reading : Bool
  pub has_child : Bool
  pub enabled : Bool
  pub read_buffer : Text
  pub raw : RawFields F

-- What the regular expressions find in a line: the first group of the first match, and the first two
-- groups of all matches. none and false are an exception, for `all` after these matches.
pub record Regexes : Type 0 where
  pub gpu : Text → Option (Option Text)
  pub emc : Text → Option (Option Text)
  pub rails : Text → List (Text × Text) × Bool
  pub temps : Text → List (Text × Text) × Bool

-- map[name] = value
unfoldable pub assign {ℓ} : {A : Type ℓ} → Text → A → List (Text × A) → List (Text × A)
assign name value [] = (name, value) ∷ []
assign name value ((key, old) ∷ rest) =
    let later = assign name value rest in
    if text_eq key name then (name, value) ∷ rest else (key, old) ∷ later

-- `find`
unfoldable pub lookup {ℓ} : {A : Type ℓ} → Text → List (Text × A) → Option A
lookup name [] = none
lookup name ((key, value) ∷ rest) =
    let later = lookup name rest in if text_eq key name then some value else later

-- The sign that std::from_chars takes, and the rest.
abbrev minus : Text → Bool × Text
minus [] = (false, [])
minus (c ∷ cs) = if c == b'-' then (true, cs) else (false, c ∷ cs)

-- `parse_int_or_zero`: sign and size
unfoldable pub parse_int_or_zero : Text → Bool × ℕ
unfolding digits
parse_int_or_zero text =
    let (negative, body) = minus text in
    let (value, count, rest) = digits 0 0 body in
    if count == 0
    then (false, 0)
    else if ltb (if negative then 2 ^ 31 else 2 ^ 31 - 1) value
    then (false, 0)
    else (negative, value)

abbrev is_cons {ℓ} : {A : Type ℓ} → List A → Bool
is_cons [] = false
is_cons (x ∷ xs) = true

-- std::strtof: none where it reads nothing.
module _ {F : Type 0} ⦃f : Float F⦄ (strtof : Text → Option F) (regexes : Regexes) where
  unfoldable pub parse_float : Text → F
  parse_float value = elim (strtof value) [
    | none ↦ f.lit 0 1
    | some parsed ↦ if f.is_finite parsed then parsed else f.lit 0 1
  ]

  -- The rails of a line, and `rail_sum`.
  unfoldable pub add_rails : List (Text × Text) → List (Text × F) → F → List (Text × F) × F
  unfolding assign parse_int_or_zero of_signed
  add_rails [] rails rail_sum = (rails, rail_sum)
  add_rails ((name, instantaneous) ∷ rest) rails rail_sum =
      let (negative, size) = parse_int_or_zero instantaneous in
      let rail_power = of_signed negative size in
      add_rails rest (assign name rail_power rails) (f.add rail_sum rail_power)

  unfoldable pub add_temps : List (Text × Text) → List (Text × F) → List (Text × F)
  unfolding assign parse_float
  add_temps [] temps = temps
  add_temps ((name, temp) ∷ rest) temps = add_temps rest (assign name (parse_float temp) temps)

  -- A percentage of a match.
  unfoldable pub percent : Option Text → F → Bool × F
  unfolding parse_int_or_zero of_signed
  percent none old = (false, old)
  percent (some text) old =
      let (negative, size) = parse_int_or_zero text in (true, of_signed negative size)

  -- `parse_line` up to the search for rails, and whether it matched.
  unfoldable pub parse_percents : Text → RawFields F → RawFields F × Option Bool
  unfolding percent
  parse_percents line raw = elim (regexes.gpu line) [
    | none ↦ (raw, none)
    | some gpu ↦
        (let (gpu_found, gpu_util_pct) = percent gpu raw.gpu_util_pct in
          let raw₁ : RawFields F = record raw { gpu_util_pct = gpu_util_pct } in
          elim (regexes.emc line) [
            | none ↦ (raw₁, none)
            | some emc ↦
                (let (emc_found, emc_util_pct) = percent emc raw.emc_util_pct in
                  (record raw₁ { emc_util_pct = emc_util_pct }, some (emc_found || gpu_found)))
          ])
  ]

  -- The rest of `parse_line`, from `parsed_any`. none is an exception, which leaves the fields as they
  -- are by then.
  unfoldable pub parse_lists : Text → Bool → RawFields F → RawFields F × Option Bool
  unfolding add_rails add_temps
  parse_lists line parsed_any raw =
      let (rails, rails_end) = regexes.rails line in
      let (rail_power_mw, rail_sum) = add_rails rails raw.rail_power_mw (f.lit 0 1) in
      let raw₁ : RawFields F = record raw { rail_power_mw = rail_power_mw } in
      let raw₂ : RawFields F =
        if is_cons rails then record raw₁ { total_rail_power_mw = rail_sum } else raw₁ in
      let (temps, temps_end) = regexes.temps line in
      let raw₃ : RawFields F = record raw₂ {
        temperatures_c = add_temps temps raw₂.temperatures_c;
      } in
      if rails_end
      then if temps_end
        then (raw₃, some (parsed_any || is_cons rails || is_cons temps))
        else (raw₃, none)
      else (raw₁, none)

  unfoldable pub parse_line : Text → RawFields F → RawFields F × Option Bool
  unfolding parse_percents parse_lists
  parse_line line raw =
      let (raw', parsed) = parse_percents line raw in
      elim parsed [ none ↦ (raw', none) | some parsed_any ↦ parse_lists line parsed_any raw' ]

  -- The loop over the lines of the buffer: the fields, the rest of the buffer, and
  -- `parsed_at_least_one_line`, none after an exception. The first argument bounds the lines.
  unfoldable pub parse_lines : ℕ → Text → RawFields F → Bool → RawFields F × Text × Option Bool
  unfolding split_at parse_line
  parse_lines zero buffer raw parsed = (raw, buffer, some parsed)
  parse_lines (suc fuel) buffer raw parsed = elim (split_at 10 buffer) [
    | none ↦ (raw, buffer, some parsed)
    | some (line, rest) ↦
        (let (raw', result) = parse_line line raw in
          elim result [
            | none ↦ (raw', rest, none)
            | some found ↦ parse_lines fuel rest raw' (found || parsed)
          ])
  ]

  -- The loop over the chunks that ::read returns.
  unfoldable pub read_chunks :
      List Text → Text → RawFields F → Bool → RawFields F × Text × Option Bool
  unfolding parse_lines
  read_chunks [] buffer raw parsed = (raw, buffer, some parsed)
  read_chunks (chunk ∷ chunks) buffer raw parsed =
      let (raw', rest, result) =
        parse_lines (length (buffer ++ chunk)) (buffer ++ chunk) raw parsed in
      elim result [
        | none ↦ (raw', rest, none)
        | some parsed' ↦ read_chunks chunks rest raw' parsed'
      ]
