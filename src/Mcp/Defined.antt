-- ===== src/Mcp/Defined.antt =====
-- The methods of tools/hw-agent-mcp/src/server.cpp and the overflow of integers in tools.
use hw_agent.Prelude.{
  ◌≡◌, String, inl, inr, Bool, true, false, Text, codes, text_eq, Option, none, some, List, [], ◌∷◌,
  Option-cases, arith,
}
use hw_agent.Mcp.Json.{Json}
use hw_agent.Mcp.Attempt.{
  invalid_argument, other_exception, Attempt, raises, undefined, gives, ◌>>=◌, require,
  require_some,
}
use hw_agent.Mcp.JsonRpc.{JsonRpcRequest, checked_params, checked_id, parse_request}
use hw_agent.Mcp.Resources.{handle_initialize, handle_resources_read, resource_contents}
use hw_agent.Mcp.Answer.{respond}
use hw_agent.Mcp.Server.{Tool, find_tool, call, handle_tools_call, call_method, handle_parsed}

-- No signed integer overflows, and a value has the property.
abbrev pub IsDefined {ℓ} : {Value : Type ℓ} → (Value → Type 0) → Attempt Value → Type 0
IsDefined P (raises exception) = Unit
IsDefined P undefined = ⊥
IsDefined P (gives value) = P value

abbrev pub Any {ℓ} : {Value : Type ℓ} → Value → Type 0
Any value = Unit

>>=-IsDefined {ℓ κ} :
    {A : Type ℓ} {B : Type κ} (P : A → Type 0) (Q : B → Type 0) (m : Attempt A) (k : A → Attempt B)
    → IsDefined P m
    → ((a : A) → P a → IsDefined Q (k a))
    → IsDefined Q (m >>= k)
>>=-IsDefined P Q (raises exception) k h hk = tt
>>=-IsDefined P Q undefined k h hk = absurd h
>>=-IsDefined P Q (gives a) k h hk = hk a h

require-IsDefined : (b : Bool) (message : String) → IsDefined Any (require b message)
require-IsDefined true message = tt
require-IsDefined false message = tt

require_some-IsDefined {ℓ} :
    {A : Type ℓ} (o : Option A) (message : String) → IsDefined Any (require_some o message)
require_some-IsDefined none message = tt
require_some-IsDefined (some a) message = tt

module _ {J : Type 0} ⦃j : Json J⦄ where
  checked_params-IsDefined : (o : Option J) → IsDefined Any (checked_params o)
  unfolding checked_params
  checked_params-IsDefined none = tt
  checked_params-IsDefined (some p) = ground arith

  checked_id-IsDefined : (o : Option J) → IsDefined Any (checked_id o)
  unfolding checked_id
  checked_id-IsDefined none = tt
  checked_id-IsDefined (some id) = ground arith

  pub parse_request-IsDefined : (request : J) → IsDefined Any (parse_request request)
  unfolding parse_request
  parse_request-IsDefined request = ground arith

  handle_initialize-IsDefined : (params : J) → IsDefined Any (handle_initialize params)
  unfolding handle_initialize
  handle_initialize-IsDefined params = ground arith

  handle_resources_read-IsDefined : (params : J) → IsDefined Any (handle_resources_read params)
  unfolding handle_resources_read resource_contents
  handle_resources_read-IsDefined params = ground arith

  abbrev IsDefinedResult : Option (Attempt J) → Type 0
  IsDefinedResult none = Unit
  IsDefinedResult (some result) = IsDefined Any result

  respond-IsDefined :
      (b : Bool) (id : J) (result : Option (Attempt J))
      → IsDefinedResult result
      → IsDefined Any (respond b id result)
  unfolding respond
  respond-IsDefined b id none h = tt
  respond-IsDefined b id (some undefined) h = absurd h
  respond-IsDefined b id (some (gives result)) h = tt
  respond-IsDefined b id (some (raises (other_exception message))) h = tt
  respond-IsDefined true id (some (raises (invalid_argument message))) h = tt
  respond-IsDefined false id (some (raises (invalid_argument message))) h = tt

module _ {J W : Type 0} ⦃j : Json J⦄ where
  -- No integer overflows in the tool that is found, with its arguments in this state.
  abbrev IsDefinedCall : Attempt (Tool J W × J) → W → Type 0
  IsDefinedCall found w = IsDefined (λ r. IsDefined Any (r.0.handler r.1 w).0) found

  -- No integer overflows in the tool that the request calls, if it calls one.
  abbrev pub IsDefinedRequest : List (Text × Tool J W) → Attempt (JsonRpcRequest J) → W → Type 0
  IsDefinedRequest tools (raises exception) w = Unit
  IsDefinedRequest tools undefined w = Unit
  IsDefinedRequest tools (gives request) w =
      text_eq request.method (codes "tools/call") ≡ true
      → IsDefinedCall (find_tool tools request.params) w

  call-IsDefined :
      (found : Attempt (Tool J W × J)) (w : W)
      → IsDefinedCall found w
      → IsDefined Any (call found w).0
  unfolding call
  call-IsDefined (raises exception) w h = tt
  call-IsDefined undefined w h = absurd h
  call-IsDefined (gives (tool, args)) w h =
      >>=-IsDefined Any Any (tool.handler args w).0
        (λ c. gives (j.object ((codes "content", c) ∷ []))) h (λ _ _. tt)

  call_method-IsDefined :
      (tools : List (Text × Tool J W)) (request : JsonRpcRequest J) (w : W)
      → IsDefinedRequest tools (gives request) w
      → IsDefinedResult (call_method tools request w).0
  unfolding call_method handle_tools_call
  call_method-IsDefined tools request w h =
      let called : text_eq request.method (codes "tools/call") ≡ true
          → IsDefined Any (call (find_tool tools request.params) w).0 =
        λ same. call-IsDefined (find_tool tools request.params) w (h same) in
      ground (
        arith,
        called,
        handle_initialize-IsDefined request.params,
        handle_resources_read-IsDefined request.params,
      )

  pub handle_parsed-IsDefined :
      (tools : List (Text × Tool J W)) (parsed : Attempt (JsonRpcRequest J)) (w : W)
      → IsDefinedRequest tools parsed w
      → IsDefined Any parsed
      → IsDefined Any (handle_parsed tools parsed w).0.1
  unfolding handle_parsed
  handle_parsed-IsDefined tools (raises exception) w h d =
      respond-IsDefined true j.null (some (raises exception)) tt
  handle_parsed-IsDefined tools undefined w h d = absurd d
  handle_parsed-IsDefined tools (gives request) w h d =
      let fine = call_method-IsDefined tools request w h in
      elim (Option-cases request.id) [
        | inl absent ↦ rw absent (respond-IsDefined false j.null _ fine)
        | inr (id, given) ↦ rw given (respond-IsDefined true id _ fine)
      ]
