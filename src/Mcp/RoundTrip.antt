-- ===== src/Mcp/RoundTrip.antt =====
-- Requests as a client sends them, and `parse_request` of tools/hw-agent-mcp/src/jsonrpc.cpp.
use hw_agent.Prelude.{
  ◌≡◌, refl, true, ◌||◌, Text, codes, text_eq_iff, Option, none, some, List, [], ◌∷◌,
}
use hw_agent.Mcp.Json.{Json, IsJson, is_some}
use hw_agent.Mcp.Attempt.{gives}
use hw_agent.Mcp.JsonRpc.{
  JsonRpcRequest, is_id, is_text, text_at, checked_params, checked_id, parse_request,
}

module _ {J : Type 0} ⦃j : Json J⦄ where
  -- The member `id`, which a notification does not have.
  abbrev pub id_member : Option J → List (Text × J)
  id_member none = []
  id_member (some id) = (codes "id", id) ∷ []

  -- A request as tools/hw-agent-mcp/README.md shows them.
  abbrev pub to_json : JsonRpcRequest J → J
  to_json request = j.object (
      (codes "jsonrpc", j.of_text (codes "2.0"))
      ∷ (codes "method", j.of_text request.method)
      ∷ (codes "params", request.params)
      ∷ id_member request.id)

  abbrev pub IsSendableId : Option J → Type 0
  IsSendableId none = Unit
  IsSendableId (some id) = is_id id ≡ true

  abbrev pub IsSendable : JsonRpcRequest J → Type 0
  IsSendable request =
      ((j.is_object request.params || is_some (j.as_list request.params)) ≡ true)
      × IsSendableId request.id

  module _ (laws : IsJson J) where
    is_text-of_text : (t : Text) → is_text t (some (j.of_text t)) ≡ true
    unfolding is_text
    is_text-of_text t = rw (is_text, laws.as_text-of_text t) ((text_eq_iff t t).1 refl)

    find-id :
        (version method params : J) (id : Option J)
        → j.find (codes "id") (
            j.object (
              (codes "jsonrpc", version)
              ∷ (codes "method", method)
              ∷ (codes "params", params)
              ∷ id_member id))
          ≡ id
    find-id version method params none = laws.find-object _ _
    find-id version method params (some id) = laws.find-object _ _

    checked_id-eq : (id : Option J) → IsSendableId id → checked_id id ≡ gives id
    unfolding checked_id
    checked_id-eq none h = refl
    checked_id-eq (some i) h = rw h refl

    -- A request whose parameters are an object or an array and whose id, if it has one, is a string,
    -- an integer or null, is read as it was sent.
    pub parse_request-to_json :
        (request : JsonRpcRequest J)
        → IsSendable request
        → parse_request (to_json request) ≡ gives request
    unfolding parse_request text_at checked_params
    parse_request-to_json request (ok, known) =
        let sent = to_json request in
        let version : j.find (codes "jsonrpc") sent ≡ some (j.of_text (codes "2.0")) =
          laws.find-object _ _ in
        let method : j.find (codes "method") sent ≡ some (j.of_text request.method) =
          laws.find-object _ _ in
        let params : j.find (codes "params") sent ≡ some request.params = laws.find-object _ _ in
        rw
          (
            laws.object-IsObject _,
            version,
            is_text-of_text (codes "2.0"),
            method,
            laws.as_text-of_text request.method,
            params,
            ok,
            find-id _ _ _ request.id,
            checked_id-eq request.id known,
          )
          refl
