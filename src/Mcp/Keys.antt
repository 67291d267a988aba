-- ===== src/Mcp/Keys.antt =====
-- The keys that tools/hw-agent-mcp/src/tools/metrics_summary.cpp finds in Redis, and `select_keys`.
use hw_agent.Prelude.{
  Bool, true, false, Text, codes, Option, none, some, List, [], ◌∷◌, ◌++◌, if◌then◌else◌,
}
use hw_agent.Core.Text.{strip_prefix}
use hw_agent.Mcp.Attempt.{gives}
use hw_agent.Mcp.Action.{Action, ◌>>=◌, attempt}
use hw_agent.Mcp.Redis.{
  Redis, RedisConfig, Element, error_reply, array_reply, string_reply, other_reply, command,
  failure,
}

-- The strings of the elements that are strings.
unfoldable pub strings : List (Option Element) → List Text
strings [] = []
strings (none ∷ rest) = strings rest
strings (some element ∷ rest) =
    let keys = strings rest in
    elim element.type [
      | string_reply ↦ elim element.str [ none ↦ keys | some key ↦ key ∷ keys ]
      | error_reply ↦ keys
      | array_reply ↦ keys
      | other_reply ↦ keys
    ]

unfoldable pub list_metric_keys : {W : Type 0} → Redis W → RedisConfig → Action W (List Text)
unfolding command strings
list_metric_keys redis config =
    command redis (codes "KEYS" ∷ (config.key_prefix ++ codes ":*") ∷ []) >>= λ reply.
    attempt (elim reply.type [
      | error_reply ↦ failure "failed to list metric keys"
      | array_reply ↦ gives (strings reply.elements)
      | string_reply ↦ failure "unexpected response from KEYS"
      | other_reply ↦ failure "unexpected response from KEYS"
    ])

-- key.find(filter) != npos
unfoldable pub contains : Text → Text → Bool
unfolding strip_prefix
contains filter [] = elim (strip_prefix filter []) [ none ↦ false | some _ ↦ true ]
contains filter (c ∷ cs) = elim (strip_prefix filter (c ∷ cs)) [
  | none ↦ contains filter cs
  | some _ ↦ true
]

-- The loop over the filters, up to its `break`.
unfoldable pub is_selected : List Text → Text → Bool
unfolding contains
is_selected [] key = false
is_selected (filter ∷ filters) key =
    let later = is_selected filters key in if contains filter key then true else later

unfoldable pub select_keys : List Text → List Text → List Text
unfolding is_selected
select_keys [] filters = []
select_keys (key ∷ all_keys) filters =
    let selected = select_keys all_keys filters in
    if is_selected filters key then key ∷ selected else selected
