-- ===== src/Mcp/Server.antt =====
-- `Server` of tools/hw-agent-mcp/src/server.cpp. The registry of tools, an unordered_map there, is a list
-- of names and tools in the order in which the map is traversed.
use hw_agent.Prelude.{
  Bool, true, false, Text, codes, text_eq, Option, none, some, List, [], ◌∷◌, map, if◌then◌else◌,
}
use hw_agent.Mcp.Json.{Json, member}
use hw_agent.Mcp.Attempt.{
  other_exception, Attempt, raises, undefined, gives, ◌>>=◌, ◌>>◌, require, require_some,
}
use hw_agent.Mcp.Resources.{handle_initialize, handle_resources_list, handle_resources_read}
use hw_agent.Mcp.Answer.{Answer, silent, replies, escapes, is_undefined, respond, write}
use hw_agent.Mcp.JsonRpc.{JsonRpcRequest, text_at, parse_request}

-- `Tool`. The handler acts on a world.
pub record Tool (J W : Type 0) : Type 0 where
  pub name : Text
  pub description : Text
  pub input_schema : J
  pub handler : J → W → Attempt J × W

module _ {J W : Type 0} ⦃j : Json J⦄ where
  unfoldable pub describe : Tool J W → J
  describe tool = j.object (
      (codes "name", j.of_text tool.name)
      ∷ (codes "description", j.of_text tool.description)
      ∷ (codes "inputSchema", tool.input_schema)
      ∷ [])

  unfoldable pub handle_tools_list : List (Text × Tool J W) → J
  unfolding describe
  handle_tools_list tools =
      j.object ((codes "tools", j.of_list (map (λ entry. describe entry.1) tools)) ∷ [])

  -- The tool and its arguments.
  unfoldable pub find_tool : List (Text × Tool J W) → J → Attempt (Tool J W × J)
  unfolding text_at
  find_tool tools params = do
    require (j.is_object params) "params must be an object"
    name ← require_some (text_at (j.find (codes "name") params)) "name must be a string"
    args ← require_some (j.find (codes "arguments") params) "arguments must be an object"
    require (j.is_object args) "arguments must be an object"
    tool ← require_some (member name tools) "unknown tool"
    gives (tool, args)

  unfoldable pub call : Attempt (Tool J W × J) → W → Attempt J × W
  call (raises exception) w = (raises exception, w)
  call undefined w = (undefined, w)
  call (gives (tool, args)) w =
      let (content, w') = tool.handler args w in
      (content >>= (λ c. gives (j.object ((codes "content", c) ∷ []))), w')

  unfoldable pub handle_tools_call : List (Text × Tool J W) → J → W → Attempt J × W
  unfolding find_tool call
  handle_tools_call tools params w = call (find_tool tools params) w

  -- The result of the method, none where there is no such method.
  unfoldable pub call_method :
      List (Text × Tool J W) → JsonRpcRequest J → W → Option (Attempt J) × W
  unfolding handle_initialize handle_tools_list handle_tools_call handle_resources_list
      handle_resources_read
  call_method tools request w =
      let (called, w') = handle_tools_call tools request.params w in
      if text_eq request.method (codes "initialize")
      then (some (handle_initialize request.params), w)
      else if text_eq request.method (codes "tools/list")
      then (some (gives (handle_tools_list tools)), w)
      else if text_eq request.method (codes "tools/call")
      then (some called, w')
      else if text_eq request.method (codes "resources/list")
      then (some (gives handle_resources_list), w)
      else if text_eq request.method (codes "resources/read")
      then (some (handle_resources_read request.params), w)
      else (none, w)

  -- `should_respond`, and the response.
  unfoldable pub handle_parsed :
      List (Text × Tool J W) → Attempt (JsonRpcRequest J) → W → (Bool × Attempt J) × W
  unfolding call_method respond
  handle_parsed tools (raises exception) w =
      ((true, respond true j.null (some (raises exception))), w)
  handle_parsed tools undefined w = ((true, undefined), w)
  handle_parsed tools (gives request) w =
      let (result, w') = call_method tools request w in
      elim request.id [
        | none ↦ ((false, respond false j.null result), w')
        | some id ↦ ((true, respond true id result), w')
      ]

  unfoldable pub handle_request : List (Text × Tool J W) → J → W → (Bool × Attempt J) × W
  unfolding handle_parsed parse_request
  handle_request tools request w = handle_parsed tools (parse_request request) w

  -- The rest of the body of the loop, after the call of json::parse.
  unfoldable pub process_parsed : List (Text × Tool J W) → Option J → W → Answer × W
  unfolding handle_request write
  process_parsed tools none w = (write {J = J} true (raises (other_exception [])), w)
  process_parsed tools (some request) w =
      let ((should_respond, response), w') = handle_request tools request w in
      (write should_respond response, w')

  -- The body of the loop.
  unfoldable pub process_line : List (Text × Tool J W) → Text → W → Answer × W
  unfolding process_parsed
  process_line tools [] w = (silent, w)
  process_line tools (c ∷ line) w = process_parsed tools (j.parse (c ∷ line)) w

  -- Whether `run` returns, which it does not where an exception leaves it or the behaviour is
  -- undefined, and the lines that it writes.
  unfoldable pub run : List (Text × Tool J W) → List Text → W → (Bool × List Text) × W
  unfolding process_line
  run tools [] w = ((true, []), w)
  run tools (line ∷ lines) w =
      let (answer, w') = process_line tools line w in
      let ((returned, out), w'') = run tools lines w' in
      elim answer [
        | silent ↦ ((returned, out), w'')
        | replies text ↦ ((returned, text ∷ out), w'')
        | escapes ↦ ((false, []), w')
        | is_undefined ↦ ((false, []), w')
      ]
