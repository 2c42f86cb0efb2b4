-- ===== src/Validate/Nodes.antt =====
-- backend/src/flows/flows.service.ts: `validateNodesConfig`.
use callytics.Flow.{FlowNode, find_type}
use callytics.Js.{Value, bool, num, Fields, end, field, get}
use callytics.Validate.{
  node_message, throw_if, first_error, one_of, is_absent, parse_timeout_ms, raw_flow_default,
  get_flow_default_timeout_ms, timeout_max_ms,
}
use callytics.Validate.NodeChecks.{validate_node_config}
use callytics.Prelude.{
  String, Bool, false, not, ◌&&◌, Option, none, some, List, [], ◌∷◌, ◌==◌, if◌then◌else◌, or_else,
  is_some,
}

abbrev timeout_capable_node_types : List String
timeout_capable_node_types =
    "get_digits" ∷ "menu" ∷ "transfer" ∷ "webhook" ∷ "queue_login" ∷ "callback" ∷ []

-- An optional time, which must be valid where it is given.
abbrev time_check : Value → String → Option String
time_check raw message =
    throw_if (not (is_absent raw) && not (is_some (parse_timeout_ms raw))) message

abbrev is_false : Value → Bool
is_false (bool b) = not b
is_false v = false

unfoldable pub timeout_check : FlowNode → Option String
timeout_check node =
    let own = get node.config "input_timeout_ms" in
    if not (one_of node.type timeout_capable_node_types)
    then none
    else if node.type == "queue_login"
    then if not (is_false (get node.config "use_flow_default_timeout"))
      then time_check own
          (node_message node.node_key "input_timeout_ms must be between 1000 and 120000")
      else throw_if (not (is_some (parse_timeout_ms own))) (
          node_message node.node_key
            "input_timeout_ms must be between 1000 and 120000 when not using flow default timeout")
    else time_check (get node.config "timeout_ms")
        (node_message node.node_key "timeout_ms must be between 1000 and 120000")

-- What `validateNodesConfig` checks of each node.
unfoldable pub node_check : (String → Option String) → FlowNode → Option String
node_check url_protocol node = or_else (validate_node_config url_protocol node) (timeout_check node)

-- `config[key] = value`
pub put : String → Value → Fields → Fields
put k v end = field k v end
put k v (field j w fs) = if j == k then field k v fs else field j w (put k v fs)

-- The start node gets the longest time where it has none.
fill_default : FlowNode → FlowNode
unfolding put
fill_default start =
    if is_absent (raw_flow_default start)
    then record start { config = put "flow_default_timeout_ms" (num timeout_max_ms) start.config }
    else start

pub fill_start : List FlowNode → List FlowNode
unfolding fill_default
fill_start [] = []
fill_start (n ∷ ns) = if n.type == "start" then fill_default n ∷ ns else n ∷ fill_start ns

pub data Validated : Type 0 where
  accepted : List FlowNode → Validated
  bad_request : String → Validated

abbrev pub verdict : List FlowNode → Option String → Validated
verdict nodes none = accepted nodes
verdict nodes (some e) = bad_request e

-- The nodes as they are saved, or the error.
unfoldable pub validate_nodes_config : (String → Option String) → Bool → List FlowNode → Validated
unfolding fill_start
validate_nodes_config url_protocol is_subflow nodes = elim (find_type "start" nodes) [
  | none ↦ bad_request "Flow requires a start node"
  | some start ↦
      let filled = if is_subflow then nodes else fill_start nodes in
      verdict filled (
        or_else
          (throw_if (not is_subflow && not (is_some (get_flow_default_timeout_ms filled)))
            "Start node: flow_default_timeout_ms is required and must be between 1000 and 120000")
          (first_error (node_check url_protocol) filled))
]
