-- ===== src/Mcp/Loop.antt =====
-- `Server::run` of tools/hw-agent-mcp/src/server.cpp over all lines of the input.
use hw_agent.Prelude.{
  ◌≡◌, refl, sym, ◌⊎◌, inl, inr, ℕ, ◌+◌, Bool, true, false, Text, Option, none, some, List, [], ◌∷◌,
  length, if◌then◌else◌, Option-cases, arith,
}
use hw_agent.Mcp.Json.{Json, is_some}
use hw_agent.Mcp.Attempt.{other_exception, Attempt, raises, undefined, gives}
use hw_agent.Mcp.JsonRpc.{JsonRpcRequest, parse_request}
use hw_agent.Mcp.Answer.{Answer, silent, replies, escapes, is_undefined, internal_error, write}
use hw_agent.Mcp.Server.{Tool, handle_parsed, handle_request, process_parsed, process_line, run}
use hw_agent.Mcp.Defined.{
  IsDefined, IsDefinedRequest, Any, handle_parsed-IsDefined, parse_request-IsDefined,
}

-- A line that is answered: all but the empty ones and the valid notifications.
abbrev pub expects : {J : Type 0} → Attempt (JsonRpcRequest J) → Bool
expects (raises exception) = true
expects undefined = true
expects (gives request) = is_some request.id

abbrev pub expects_parsed : {J : Type 0} ⦃j : Json J⦄ → Option J → Bool
expects_parsed none = true
expects_parsed (some request) = expects (parse_request request)

abbrev pub expects_reply : (J : Type 0) ⦃j : Json J⦄ → Text → Bool
expects_reply value ⦃j = j⦄ [] = false
expects_reply value ⦃j = j⦄ (c ∷ line) = expects_parsed (j.parse (c ∷ line))

module _ {J W : Type 0} ⦃j : Json J⦄ where
  handle_parsed-should_respond :
      (tools : List (Text × Tool J W)) (parsed : Attempt (JsonRpcRequest J)) (w : W)
      → (handle_parsed tools parsed w).0.0 ≡ expects parsed
  unfolding handle_parsed
  handle_parsed-should_respond tools (raises exception) w = refl
  handle_parsed-should_respond tools undefined w = refl
  handle_parsed-should_respond tools (gives request) w = elim (Option-cases request.id) [
    | inl absent ↦ rw absent refl
    | inr (id, given) ↦ rw given refl
  ]

-- How many lines are answered.
abbrev pub count : (J : Type 0) ⦃j : Json J⦄ → List Text → ℕ
count value ⦃j = j⦄ [] = 0
count value ⦃j = j⦄ (line ∷ lines) =
    if expects_reply value line then count value lines + 1 else count value lines

module _ {J W : Type 0} ⦃j : Json J⦄ where
  abbrev IsDefinedParsed : List (Text × Tool J W) → Option J → W → Type 0
  IsDefinedParsed tools none w = Unit
  IsDefinedParsed tools (some request) w = IsDefinedRequest tools (parse_request request) w

  abbrev IsDefinedLine : List (Text × Tool J W) → Text → W → Type 0
  IsDefinedLine tools [] w = Unit
  IsDefinedLine tools (c ∷ line) w = IsDefinedParsed tools (j.parse (c ∷ line)) w

  -- No integer overflows in the tools that these lines call, each in the state that the lines before it
  -- leave.
  abbrev pub IsDefinedRun : List (Text × Tool J W) → List Text → W → Type 0
  IsDefinedRun tools [] w = Unit
  IsDefinedRun tools (line ∷ lines) w =
      IsDefinedLine tools line w × IsDefinedRun tools lines (process_line tools line w).1

-- A reply where one is expected, and silence elsewhere.
abbrev Matches : Bool → Answer → Type 0
Matches true (replies text) = Unit
Matches false silent = Unit
Matches _ _ = ⊥

Matches-cases :
    (b : Bool) (answer : Answer)
    → Matches b answer
    → ((b ≡ true) × ((text : Text) × (answer ≡ replies text))) ⊎ ((b ≡ false) × (answer ≡ silent))
Matches-cases true silent h = absurd h
Matches-cases true (replies text) h = inl (refl, (text, refl))
Matches-cases true escapes h = absurd h
Matches-cases true is_undefined h = absurd h
Matches-cases false silent h = inr (refl, refl)
Matches-cases false (replies text) h = absurd h
Matches-cases false escapes h = absurd h
Matches-cases false is_undefined h = absurd h

module _ {J : Type 0} ⦃j : Json J⦄ where
  module _ (internal : Text) (dumped : internal_error J ≡ replies internal) where
    write-Matches :
        (b : Bool) (response : Attempt J) → IsDefined Any response → Matches b (write b response)
    unfolding write
    write-Matches b undefined h = absurd h
    write-Matches true (raises exception) h = rw dumped tt
    write-Matches false (raises exception) h = tt
    write-Matches false (gives response) h = tt
    write-Matches true (gives response) h = elim (Option-cases (j.dump response)) [
      | inl failed ↦ rw (failed, dumped) tt
      | inr (text, written) ↦ rw written tt
    ]

    process_parsed-Matches :
        {W : Type 0} (tools : List (Text × Tool J W)) (parsed : Option J) (w : W)
        → IsDefinedParsed tools parsed w
        → Matches (expects_parsed parsed) (process_parsed tools parsed w).0
    unfolding process_parsed handle_request
    process_parsed-Matches tools none w h = write-Matches true (raises (other_exception [])) tt
    process_parsed-Matches tools (some request) w h =
        let parse = parse_request request in
        let fine = handle_parsed-IsDefined tools parse w h (parse_request-IsDefined request) in
        rw (sym (handle_parsed-should_respond tools parse w))
          (write-Matches _ (handle_parsed tools parse w).0.1 fine)

    process_line-Matches :
        {W : Type 0} (tools : List (Text × Tool J W)) (line : Text) (w : W)
        → IsDefinedLine tools line w
        → Matches (expects_reply J line) (process_line tools line w).0
    unfolding process_line
    process_line-Matches tools [] w h = tt
    process_line-Matches tools (c ∷ line) w h =
        process_parsed-Matches tools (j.parse (c ∷ line)) w h

    -- Where the reply "internal error" can be printed and no tool that the input calls overflows an
    -- integer in that call, the server stops for no input, and writes one line for each line that is
    -- not empty and not a valid notification.
    pub run-length :
        {W : Type 0} (tools : List (Text × Tool J W)) (lines : List Text) (w : W)
        → IsDefinedRun tools lines w
        → ((run tools lines w).0.0 ≡ true) × (length (run tools lines w).0.1 ≡ count J lines)
    unfolding run
    run-length tools [] w h = (refl, refl)
    run-length tools (line ∷ lines) w h =
        let first = process_line-Matches tools line w h.0 in
        let later = run-length tools lines (process_line tools line w).1 h.1 in
        elim (Matches-cases _ _ first) [
          | inl (expected, (text, reply)) ↦
              rw (run, expected, reply) (later.0, ground (arith, later.1))
          | inr (unexpected, quiet) ↦ rw (run, unexpected, quiet) later
        ]
