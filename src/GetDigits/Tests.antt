-- ===== src/GetDigits/Tests.antt =====
-- Runs of a node that stores its digits under `pin`, with conditions of one and of two digits
-- (stasis/src/nodes/index.ts).
use callytics.Flow.{Flow, FlowNode, FlowEdge}
use callytics.Js.{Fields, field, str}
use callytics.GetDigits.{
  Collection, Event, key, channel_gone, timeout_fires, inter_digit_fires, prompt_fails, resolved,
  listen, has_double_digit_condition, execute_get_digits, on_event,
}
use callytics.GetDigits.Results.{
  Outcome, execute_get_digits-Outcome, timeout_fires-settles, two_digits-settle,
}
use callytics.Prelude.{String, ◌≡◌, refl, true, false, some, List, [], ◌∷◌, is_some, trim}

abbrev node : FlowNode
node = record {
  node_key = "d";
  type = "get_digits";
  label = "";
  config = field "variable_name" (str " pin ") Fields.end;
}

abbrev edge : String → FlowEdge
edge condition = record {
  source_node_key = "d";
  target_node_key = "x";
  branch_key = condition;
  condition = some condition;
}

abbrev flow : String → Flow
flow condition = record {
  id = 1;
  name = "Digits";
  version_id = 1;
  nodes = node ∷ [];
  edges = edge condition ∷ [];
}

-- One key, the pause behind it, and the end of the call.
abbrev events : List Event
events = key false "9" ∷ key true "1" ∷ inter_digit_fires ∷ channel_gone true ∷ []

stored_digit :
    (execute_get_digits (flow "12") node events (listen [])).variables ≡ (("pin", "1") ∷ [])
unfolding execute_get_digits listen trim has_double_digit_condition callytics.Menu.is_two_digits
    callytics.Menu.push_digit callytics.GetDigits.store_digits callytics.GetDigits.variable_name
    callytics.Js.text_of callytics.Js.get callytics.GetDigits.is_digits callytics.Session.insert
stored_digit = refl

star_not_stored :
    (execute_get_digits (flow "1") node (key true "*" ∷ []) (listen [])).variables ≡ []
unfolding execute_get_digits listen trim has_double_digit_condition callytics.Menu.is_two_digits
    callytics.GetDigits.store_digits callytics.GetDigits.variable_name callytics.Js.text_of
    callytics.Js.get callytics.GetDigits.is_digits
star_not_stored = refl

execute_get_digits-Outcome_example :
    Outcome (flow "12") node events [] (execute_get_digits (flow "12") node events (listen []))
execute_get_digits-Outcome_example = execute_get_digits-Outcome (flow "12") node events []

timeout_fires-settles_example :
    let c =
      on_event
        (flow "1")
        node
        timeout_fires
        (execute_get_digits (flow "1") node (prompt_fails ∷ []) (listen [])) in
    (c.finished ≡ true) × (is_some c.promise ≡ true)
timeout_fires-settles_example = timeout_fires-settles (flow "1") node (prompt_fails ∷ []) []

two_digits-settle_example :
    (execute_get_digits
      (flow "12")
      node
      (key true "1" ∷ key true "1" ∷ timeout_fires ∷ [])
      (listen [])).promise
    ≡ some (resolved "11")
unfolding has_double_digit_condition callytics.Menu.is_two_digits
two_digits-settle_example =
    two_digits-settle (flow "12") node "1" "1" (timeout_fires ∷ []) [] refl refl refl
