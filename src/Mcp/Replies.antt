-- ===== src/Mcp/Replies.antt =====
-- Requests and replies of tools/hw-agent-mcp/src/server.cpp.
use hw_agent.Prelude.{
  ◌≡◌, refl, ◌⊎◌, inl, inr, true, false, not, Text, codes, Option, none, some, List, Option-cases,
}
use hw_agent.Mcp.Json.{Json, IsJson, is_some}
use hw_agent.Mcp.Attempt.{invalid_argument, other_exception, Attempt, raises, undefined, gives}
use hw_agent.Mcp.JsonRpc.{
  JsonRpcError, JsonRpcRequest, parse_request, make_result_response, make_error_response,
}
use hw_agent.Mcp.Answer.{respond}
use hw_agent.Mcp.Server.{Tool, handle_parsed, handle_request}

module _ {J : Type 0} ⦃j : Json J⦄ where
  -- A response of JSON-RPC 2.0 to the request with that id.
  abbrev pub IsReplyTo : J → J → Type 0
  IsReplyTo id response =
      (j.find (codes "jsonrpc") response ≡ some (j.of_text (codes "2.0")))
      × (j.find (codes "id") response ≡ some id)
      × (is_some (j.find (codes "error") response)
          ≡ not (is_some (j.find (codes "result") response)))

  -- A reply to the request, or what a tool has raised.
  abbrev pub IsAnswered : J → Attempt J → Type 0
  IsAnswered id (gives response) = IsReplyTo id response
  IsAnswered id undefined = Unit
  IsAnswered id (raises (other_exception message)) = Unit
  IsAnswered id (raises (invalid_argument message)) = true ≡ false

  -- The id to answer with: null where there is none or the request is refused.
  abbrev pub id_of : Attempt (JsonRpcRequest J) → J
  id_of (gives request) = elim request.id [ none ↦ j.null | some id ↦ id ]
  id_of undefined = j.null
  id_of (raises exception) = j.null

  -- A notification: a valid request without an id.
  abbrev pub IsNotification : Attempt (JsonRpcRequest J) → Type 0
  IsNotification (gives request) = request.id ≡ none
  IsNotification undefined = ⊥
  IsNotification (raises exception) = ⊥

  module _ (laws : IsJson J) where
    result-IsReplyTo : (id result : J) → IsReplyTo id (make_result_response id result)
    unfolding make_result_response
    result-IsReplyTo id result = (
      laws.find-object _ _,
      laws.find-object _ _,
      rw
          (
            make_result_response,
            laws.find-object (codes "error") _,
            laws.find-object (codes "result") _,
          )
          refl,
    )

    error-IsReplyTo : (id : J) (error : JsonRpcError) → IsReplyTo id (make_error_response id error)
    unfolding make_error_response
    error-IsReplyTo id error = (
      laws.find-object _ _,
      laws.find-object _ _,
      rw
          (
            make_error_response,
            laws.find-object (codes "error") _,
            laws.find-object (codes "result") _,
          )
          refl,
    )

    respond-IsAnswered :
        (id : J) (result : Option (Attempt J)) → IsAnswered id (respond true id result)
    unfolding respond
    respond-IsAnswered id none = error-IsReplyTo id _
    respond-IsAnswered id (some (gives result)) = result-IsReplyTo id result
    respond-IsAnswered id (some undefined) = tt
    respond-IsAnswered id (some (raises (other_exception message))) = tt
    respond-IsAnswered id (some (raises (invalid_argument message))) = error-IsReplyTo id _

    handle_parsed-IsAnswered :
        {W : Type 0} (tools : List (Text × Tool J W)) (parsed : Attempt (JsonRpcRequest J)) (w : W)
        → let ((should_respond, response), _) = handle_parsed tools parsed w in
          ((should_respond ≡ false) × IsNotification parsed)
          ⊎ ((should_respond ≡ true) × IsAnswered (id_of parsed) response)
    unfolding handle_parsed
    handle_parsed-IsAnswered tools (raises exception) w =
        inr (refl, respond-IsAnswered j.null (some (raises exception)))
    handle_parsed-IsAnswered tools undefined w = inr (refl, tt)
    handle_parsed-IsAnswered tools (gives request) w = elim (Option-cases request.id) [
      | inl none_given ↦ inl (rw none_given refl, none_given)
      | inr (id, given) ↦ inr (rw given (refl, respond-IsAnswered id _))
    ]

    -- A response is asked for unless the request is a notification, valid and without an id. It is one
    -- of JSON-RPC 2.0 with the id of the request (null for a request that is refused) and either a
    -- result or an error, unless a tool raises an exception other than std::invalid_argument or
    -- overflows.
    pub handle_request-IsAnswered :
        {W : Type 0} (tools : List (Text × Tool J W)) (request : J) (w : W)
        → let ((should_respond, response), _) = handle_request tools request w in
          ((should_respond ≡ false) × IsNotification (parse_request request))
          ⊎ ((should_respond ≡ true) × IsAnswered (id_of (parse_request request)) response)
    unfolding handle_request
    handle_request-IsAnswered tools request w =
        handle_parsed-IsAnswered tools (parse_request request) w
