-- ===== src/Mcp/JsonRpc.antt =====
-- tools/hw-agent-mcp/src/jsonrpc.cpp: requests and responses.
use hw_agent.Prelude.{Bool, false, ◌||◌, Text, codes, text_eq, Option, none, some, [], ◌∷◌}
use hw_agent.Mcp.Json.{Json, Signed, is_some}
use hw_agent.Mcp.Attempt.{Attempt, gives, ◌>>=◌, ◌>>◌, require, require_some}

pub record JsonRpcError : Type 0 where
  pub code : Signed
  pub message : Text

pub record JsonRpcRequest (J : Type 0) : Type 0 where
  pub method : Text
  pub params : J
  pub id : Option J

module _ {J : Type 0} ⦃j : Json J⦄ where
  -- Whether `validate_id` returns.
  unfoldable pub is_id : J → Bool
  is_id id = j.is_null id || is_some (j.as_text id) || j.is_integer id

  -- `it != end() && it->is_string() && *it == expected`
  unfoldable pub is_text : Text → Option J → Bool
  is_text expected none = false
  is_text expected (some value) = elim (j.as_text value) [
    | none ↦ false
    | some text ↦ text_eq text expected
  ]

  -- The string at an iterator of `find`.
  unfoldable pub text_at : Option J → Option Text
  text_at none = none
  text_at (some value) = j.as_text value

  unfoldable pub checked_params : Option J → Attempt J
  checked_params none = gives (j.object [])
  checked_params (some params) =
      require (j.is_object params || is_some (j.as_list params))
        "params must be an object or an array"
      >>= λ _. gives params

  unfoldable pub checked_id : Option J → Attempt (Option J)
  unfolding is_id
  checked_id none = gives none
  checked_id (some id) =
      require (is_id id) "JSON-RPC id must be string, integer, or null" >>= λ _. gives (some id)

  unfoldable pub parse_request : J → Attempt (JsonRpcRequest J)
  unfolding is_text text_at checked_params checked_id
  parse_request request = do
    require (j.is_object request) "Request must be a JSON object"
    require (is_text (codes "2.0") (j.find (codes "jsonrpc") request)) "jsonrpc must be \"2.0\""
    method ← require_some (text_at (j.find (codes "method") request)) "method must be a string"
    params ← checked_params (j.find (codes "params") request)
    id ← checked_id (j.find (codes "id") request)
    gives (record { method = method; params = params; id = id })

  unfoldable pub make_result_response : J → J → J
  make_result_response id result = j.object (
      (codes "jsonrpc", j.of_text (codes "2.0")) ∷ (codes "id", id) ∷ (codes "result", result) ∷ [])

  unfoldable pub make_error_response : J → JsonRpcError → J
  make_error_response id error =
      let body = j.object (
        (codes "code", j.of_integer error.code)
        ∷ (codes "message", j.of_text error.message)
        ∷ []) in
      j.object
        ((codes "jsonrpc", j.of_text (codes "2.0")) ∷ (codes "id", id) ∷ (codes "error", body) ∷ [])
