-- ===== src/Core/Config/Load.antt =====
-- `load_agent_config` of src/core/config.cpp: indented sections and their keys.
use hw_agent.Prelude.{
  ℕ, ◌/◌, Text, Option, none, some, List, [], ◌∷◌, ◌++◌, length, take, ◌==◌, ltb, text_eq,
  if◌then◌else◌,
}
use hw_agent.Float.{Float}
use hw_agent.Core.Text.{trim, split_at, before, indent}
use hw_agent.Core.Config.{
  AgentConfig, Outcome, returns, throws, ◌>>=◌, cannot_open, out_of_bounds, defaults,
  apply_key_value,
}

-- the sections that are not empty, each with a dot behind it, and the key
unfoldable pub full_key : List Text → Text → Text
full_key [] key = key
full_key (s ∷ ss) key = if text_eq s [] then full_key ss key else s ++ (b'.' ∷ full_key ss key)

-- `sections` after a line `key:` at a depth. `sections[depth] = key` is reached only with fewer than
-- `depth` sections: then it writes out of bounds.
unfoldable pub open_section : List Text → ℕ → Text → Outcome (List Text)
open_section sections depth key =
    if length sections == depth then returns (sections ++ key ∷ []) else throws out_of_bounds

abbrev pub cut : List Text → ℕ → List Text
cut sections depth = if ltb depth (length sections) then take depth sections else sections

module _ {F : Type 0} ⦃f : Float F⦄ (stof : Text → Outcome F) where
  -- The keys and values of a line that holds something, split at its first colon.
  unfoldable pub enter :
      List Text → AgentConfig F → ℕ → Text → Text → Outcome (List Text × AgentConfig F)
  enter sections config depth key value =
      let kept = cut sections depth in
      if text_eq value []
      then (open_section kept depth key >>= λ opened. returns (opened, config))
      else (apply_key_value stof config (full_key kept key) value >>= λ c. returns (kept, c))

  -- the body of the loop over the lines
  unfoldable pub read_line : List Text → AgentConfig F → Text → Outcome (List Text × AgentConfig F)
  read_line sections config line =
      let text = before b'#' line in
      let stripped = trim text in
      if text_eq stripped [] then returns (sections, config) else elim (split_at b':' stripped) [
        | none ↦ returns (sections, config)
        | some (key, value) ↦ enter sections config (indent text / 2) (trim key) (trim value)
      ]

  unfoldable pub read_lines : List Text → AgentConfig F → List Text → Outcome (AgentConfig F)
  read_lines sections config [] = returns config
  read_lines sections config (line ∷ rest) =
      read_line sections config line >>= λ s. read_lines s.0 s.1 rest

  -- The file as its lines, if it can be opened.
  unfoldable pub load_agent_config : Option (List Text) → Outcome (AgentConfig F)
  load_agent_config none = throws cannot_open
  load_agent_config (some lines) = read_lines [] (defaults stof) lines
