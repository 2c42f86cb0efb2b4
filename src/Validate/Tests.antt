-- ===== src/Validate/Tests.antt =====
-- A small flow that the editor accepts (backend/src/flows/flows.service.ts).
use callytics.Flow.{Flow, FlowNode, FlowEdge}
use callytics.Js.{Items, Fields, end, field, num, str, arr, Value}
use callytics.Session.{CallSession, create_session}
use callytics.Menu.{dtmf, run_attempt, start_attempt}
use callytics.Timeouts.{resolve_node_timeout_ms, parse_valid_timeout_ms}
use callytics.Validate.{parse_timeout_ms}
use callytics.Validate.Nodes.{Validated, accepted, validate_nodes_config}
use callytics.Validate.Edges.{validate_edges_config}
use callytics.Validate.Times.{parse_timeout_ms-parse_valid, accepted-no_fallback}
use callytics.Validate.Menus.{is_key, accepted-attempt_key}
use callytics.Validate.Ends.{IsLegal, validate_edges_config-IsLegal}
use callytics.Prelude.{
  String, ◌≡◌, refl, ◌⊎◌, inl, inr, true, false, Option, none, some, List, [], ◌∷◌, All, trim,
}

abbrev https : String → Option String
https url = some "https:"

abbrev start : Fields → FlowNode
start config = record { node_key = "s"; type = "start"; label = ""; config = config }

abbrev menu : FlowNode
menu = record {
  node_key = "m";
  type = "menu";
  label = "";
  config =
      field "prompt_audio_file_id" (num 4)
        (field "branches" (arr (Items.cons (str "1") (Items.cons (str "*") Items.nil))) end);
}

abbrev hangup : FlowNode
hangup = record { node_key = "h"; type = "hangup"; label = ""; config = end }

abbrev drawn : List FlowNode
drawn = start end ∷ menu ∷ hangup ∷ []

-- The start node has been given the longest time.
abbrev saved : List FlowNode
saved = start (field "flow_default_timeout_ms" (num 120000) end) ∷ menu ∷ hangup ∷ []

abbrev flow : Flow
flow = record { id = 1; name = "Menu"; version_id = 1; nodes = saved; edges = [] }

abbrev call : CallSession
call = create_session "chan" "100" flow "s" 0

abbrev edge : String → String → Option String → FlowEdge
edge source target condition = record {
  source_node_key = source;
  target_node_key = target;
  branch_key = "default";
  condition = condition;
}

abbrev drawn_edges : List FlowEdge
drawn_edges = edge "s" "m" none ∷ edge "m" "h" (some "1") ∷ []

drawn-accepted : validate_nodes_config https false drawn ≡ accepted saved
unfolding validate_nodes_config callytics.Validate.get_flow_default_timeout_ms callytics.Js.get
    callytics.Js.to_number callytics.Validate.first_error callytics.Validate.Nodes.node_check
    callytics.Validate.NodeChecks.validate_node_config callytics.Validate.Nodes.timeout_check
    callytics.Validate.NodeChecks.menu_check callytics.Validate.is_positive_id callytics.Js.items
    callytics.Validate.is_valid_menu_branch_value callytics.Menu.is_one_digit
    callytics.Menu.is_two_digits callytics.Js.text_of trim
drawn-accepted = refl

parse_timeout_ms-parse_valid_example :
    parse_timeout_ms (str "2500") ≡ parse_valid_timeout_ms (str "2500")
parse_timeout_ms-parse_valid_example = parse_timeout_ms-parse_valid (str "2500")

accepted-no_fallback_example :
    resolve_node_timeout_ms menu call 5000 ≡ resolve_node_timeout_ms menu call 9000
unfolding create_session
accepted-no_fallback_example = accepted-no_fallback https drawn call drawn-accepted menu 5000 9000

abbrev pressed : String
pressed = "1"

accepted-attempt_key_example :
    (pressed ≡ "hangup") ⊎ (pressed ≡ "timeout") ⊎ (pressed ≡ "invalid") ⊎ (is_key pressed ≡ true)
unfolding run_attempt callytics.Menu.on_signal start_attempt
    callytics.Menu.has_double_digit_menu_branch callytics.Menu.configured_branches trim
    callytics.Menu.is_two_digits callytics.Menu.resolve_menu_digit
accepted-attempt_key_example =
    accepted-attempt_key https false drawn saved menu drawn-accepted (inr (inl refl)) refl true
      (dtmf true "1" ∷ []) "1" refl

validate_edges_config-IsLegal_example : All (IsLegal saved) drawn_edges
unfolding validate_edges_config callytics.Validate.first_error callytics.Validate.Edges.edge_check
    callytics.Validate.Edges.types_check callytics.Validate.Edges.condition_check trim
    callytics.Validate.is_valid_menu_branch_value callytics.Menu.is_one_digit
validate_edges_config-IsLegal_example = validate_edges_config-IsLegal drawn_edges saved refl
