-- ===== src/Mcp/Resources.antt =====
-- The methods of tools/hw-agent-mcp/src/server.cpp that call no tool.
use hw_agent.Prelude.{String, Text, codes, text_eq, List, [], ◌∷◌, map, if◌then◌else◌}
use hw_agent.Mcp.Json.{Json}
use hw_agent.Mcp.Attempt.{Attempt, gives, invalid, ◌>>=◌, ◌>>◌, require, require_some}
use hw_agent.Mcp.JsonRpc.{text_at}

module _ {J : Type 0} ⦃j : Json J⦄ where
  unfoldable pub handle_initialize : J → Attempt J
  handle_initialize params = do
    require (j.is_object params) "params must be an object"
    gives (
        j.object (
          (
            codes "serverInfo",
            j.object (
                (codes "name", j.of_text (codes "hw-agent-mcp"))
                ∷ (codes "version", j.of_text (codes "0.1.0"))
                ∷ []),
          )
          ∷ (
            codes "capabilities",
            j.object ((codes "tools", j.object []) ∷ (codes "resources", j.object []) ∷ []),
          )
          ∷ []))

  unfoldable pub resource : String → String → String → J
  resource uri name description = j.object (
      (codes "uri", j.of_text (codes uri))
      ∷ (codes "name", j.of_text (codes name))
      ∷ (codes "description", j.of_text (codes description))
      ∷ [])

  unfoldable pub handle_resources_list : J
  unfolding resource
  handle_resources_list =
      let catalog =
        resource "redis://metrics/catalog" "Metrics Catalog" "Stub metrics catalog resource" in
      let schema = resource "redis://schema/labels" "Label Schema" "Stub labels schema resource" in
      j.object ((codes "resources", j.of_list (catalog ∷ schema ∷ [])) ∷ [])

  unfoldable pub contents : Text → String → List String → J
  contents uri name values =
      let listed = j.of_list (map (λ value. j.of_text (codes value)) values) in
      j.object (
        (codes "uri", j.of_text uri)
        ∷ (codes "contents", j.object ((codes name, listed) ∷ []))
        ∷ [])

  unfoldable pub resource_contents : Text → Attempt J
  unfolding contents
  resource_contents uri =
      if text_eq uri (codes "redis://metrics/catalog")
      then gives (contents uri "metrics" ("cpu.usage" ∷ "memory.used" ∷ "thermal.celsius" ∷ []))
      else if text_eq uri (codes "redis://schema/labels")
      then gives (contents uri "labels" ("host" ∷ "cpu" ∷ "gpu" ∷ "sensor" ∷ []))
      else invalid "unknown resource uri"

  unfoldable pub handle_resources_read : J → Attempt J
  unfolding text_at resource_contents
  handle_resources_read params = do
    require (j.is_object params) "params must be an object"
    uri ← require_some (text_at (j.find (codes "uri") params)) "uri must be a string"
    resource_contents uri
