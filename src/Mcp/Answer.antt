-- ===== src/Mcp/Answer.antt =====
-- What tools/hw-agent-mcp/src/server.cpp writes for the result of a method.
use hw_agent.Prelude.{Bool, true, ℕ, Text, codes, Option, none, some, if◌then◌else◌}
use hw_agent.Mcp.Json.{Json, Signed}
use hw_agent.Mcp.Attempt.{invalid_argument, other_exception, Attempt, raises, undefined, gives}
use hw_agent.Mcp.JsonRpc.{make_result_response, make_error_response}

abbrev negated : ℕ → Signed
negated n = record { negative = true; size = n }

-- What one line of the input does: nothing, or a reply of one line; an exception that leaves `run`, or
-- undefined behaviour.
pub data Answer : Type 0 where
  silent : Answer
  replies : Text → Answer
  escapes : Answer
  is_undefined : Answer

module _ {J : Type 0} ⦃j : Json J⦄ where
  -- What handle_request makes of the result; `should_respond` and `id` are those of the request.
  unfoldable pub respond : Bool → J → Option (Attempt J) → Attempt J
  unfolding make_result_response make_error_response
  respond should_respond id none =
      gives (
        make_error_response id
          (record { code = negated 32601; message = codes "method not found" }))
  respond should_respond id (some (gives result)) = gives (make_result_response id result)
  respond should_respond id (some undefined) = undefined
  respond should_respond id (some (raises (other_exception message))) =
      raises (other_exception message)
  respond should_respond id (some (raises (invalid_argument message))) =
      if should_respond
      then gives (make_error_response id (record { code = negated 32602; message = message }))
      else gives j.null

-- The reply to a request that ends in an exception.
abbrev pub internal_error : (J : Type 0) ⦃j : Json J⦄ → Answer
internal_error value ⦃j = j⦄ =
    elim (j.dump (
      make_error_response j.null
        (record { code = negated 32603; message = codes "internal error" }))) [
          | none ↦ escapes
          | some text ↦ replies text
        ]

module _ {J : Type 0} ⦃j : Json J⦄ where
  -- The try block and its handler, after handle_request.
  unfoldable pub write : Bool → Attempt J → Answer
  unfolding make_error_response
  write should_respond undefined = is_undefined
  write should_respond (raises exception) = if should_respond then internal_error J else silent
  write should_respond (gives response) =
      if should_respond
      then elim (j.dump response) [ none ↦ internal_error J | some text ↦ replies text ]
      else silent
