-- ===== src/Validate/Edges.antt =====
-- backend/src/flows/flows.service.ts: `validateEdgesConfig`.
use callytics.Flow.{FlowNode, FlowEdge}
use callytics.Validate.{
  throw_if, when, first_error, one_of, is_valid_menu_branch_value, is_valid_digit_condition_value,
}
use callytics.Prelude.{
  String, not, ◌&&◌, Option, none, some, List, [], ◌∷◌, ◌==◌, if◌then◌else◌, or_else, trim,
  is_empty, concat,
}

abbrev pub terminal_node_types : List String
terminal_node_types = "hangup" ∷ "transfer" ∷ "voicemail" ∷ "callback" ∷ "queue_login" ∷ []

abbrev pub start_allowed_target_types : List String
start_allowed_target_types =
    "play_audio" ∷ "menu" ∷ "business_hours" ∷ "transfer" ∷ "hunt" ∷ "queue" ∷ "queue_login"
    ∷ "hangup" ∷ "conference" ∷ "webhook" ∷ "callback" ∷ "voicemail" ∷ []

abbrev pub get_digits_allowed_source_types : List String
get_digits_allowed_source_types =
    "start" ∷ "play_audio" ∷ "menu" ∷ "business_hours" ∷ "webhook" ∷ []

abbrev pub queue_login_allowed_source_types : List String
queue_login_allowed_source_types = "start" ∷ "menu" ∷ "play_audio" ∷ "get_digits" ∷ []

abbrev pub voicemail_blocked_source_types : List String
voicemail_blocked_source_types = "queue_login" ∷ "hunt" ∷ "transfer" ∷ "queue" ∷ []

-- `nodeTypeMap.get(key)`: the last node with a key counts, and an empty type is refused like none.
unfoldable pub type_of : List FlowNode → String → Option String
type_of [] key = none
type_of (n ∷ ns) key = or_else (type_of ns key) (if n.node_key == key then some n.type else none)

abbrev pub known_type : List FlowNode → String → Option String
known_type nodes key = elim (type_of nodes key) [
  | none ↦ none
  | some t ↦ if is_empty t then none else some t
]

abbrev from_message : FlowEdge → String → String
from_message e text = concat "Edge from " (concat e.source_node_key (concat ": " text))

abbrev pub between_message : FlowEdge → String → String
between_message e text =
    concat "Edge from "
      (concat e.source_node_key (concat " to " (concat e.target_node_key (concat ": " text))))

abbrev to_message : FlowEdge → String → String
to_message e text = concat "Edge to " (concat e.target_node_key (concat ": " text))

-- `edge.condition` as a text; a missing condition is blank.
abbrev pub condition_text : FlowEdge → String
condition_text e = elim e.condition [ none ↦ "" | some c ↦ c ]

-- The condition of an edge that leaves a menu or a `get_digits` node.
unfoldable pub condition_check : FlowEdge → String → Option String
condition_check e source =
    or_else
      (throw_if (is_empty (trim (condition_text e)))
        (between_message e (concat "condition is required for " (concat source " source nodes"))))
      (or_else
        (throw_if
          (source == "menu"
            && not (condition_text e == "complete")
            && not (is_valid_menu_branch_value (condition_text e)))
          (between_message e "menu conditions must be 1-2 digits, *, or #"))
        (throw_if
          (source == "get_digits" && not (is_valid_digit_condition_value (condition_text e)))
          (between_message e
            "get_digits conditions must be 1-2 digits, *, #, timeout, invalid, or default")))

-- The checks of an edge between nodes of these types.
unfoldable pub types_check : FlowEdge → String → String → Option String
types_check e source target =
    if target == "webhook"
    then none
    else or_else
        (throw_if (one_of source terminal_node_types)
          (from_message e (concat source " nodes cannot have outgoing edges")))
        (or_else
          (throw_if (source == "start" && not (one_of target start_allowed_target_types))
            (between_message e (concat "start cannot connect to " target)))
          (or_else
            (throw_if
              (target == "get_digits" && not (one_of source get_digits_allowed_source_types))
              (to_message e
                "get_digits can only receive from start, play_audio, menu, business_hours, or webhook"))
            (or_else
              (throw_if
                (target == "queue_login" && not (one_of source queue_login_allowed_source_types))
                (to_message e
                  "queue_login can only receive from start, menu, play_audio, or get_digits"))
              (or_else
                (throw_if (target == "voicemail" && one_of source voicemail_blocked_source_types)
                  (to_message e (concat "voicemail cannot receive from " source)))
                (when (one_of source ("get_digits" ∷ "menu" ∷ [])) (condition_check e source))))))

unfoldable pub edge_check : List FlowNode → FlowEdge → Option String
unfolding type_of
edge_check nodes e =
    let missing = some (between_message e "nodes must exist") in
    elim (known_type nodes e.source_node_key) [
      | none ↦ missing
      | some source ↦ elim (known_type nodes e.target_node_key) [
        | none ↦ missing
        | some target ↦ types_check e source target
      ]
    ]

unfoldable pub validate_edges_config : List FlowEdge → List FlowNode → Option String
validate_edges_config edges nodes = first_error (edge_check nodes) edges
