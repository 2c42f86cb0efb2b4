-- ===== src/Timeouts/Tests.antt =====
-- A node without a time of its own, in a flow whose start node has one
-- (stasis/src/timeoutResolver.ts).
use callytics.Flow.{Flow, FlowNode}
use callytics.Js.{Fields, field, str, num, get}
use callytics.Session.{CallSession, create_session}
use callytics.Timeouts.{
  min_timeout_ms, max_timeout_ms, parse_valid_timeout_ms, resolve_flow_default_timeout_ms,
  resolve_node_timeout_ms, resolve_node_timeout_ms_range,
}
use callytics.Prelude.{◌≤◌, ◌≡◌, ◌⊎◌, none, some, [], ◌∷◌, arith}

abbrev flow : Flow
flow = record {
  id = 1;
  name = "Patient";
  version_id = 1;
  nodes =
      record {
        node_key = "s";
        type = "start";
        label = "";
        config = field "flow_default_timeout_ms" (str "8000") Fields.end;
      }
      ∷ [];
  edges = [];
}

abbrev asks : FlowNode
asks = record {
  node_key = "d";
  type = "get_digits";
  label = "";
  config = field "timeout_ms" (num 200) Fields.end;
}

abbrev call : CallSession
call = create_session "chan" "100" flow "s" 0

resolve_node_timeout_ms_range_example :
    (min_timeout_ms ≤ resolve_node_timeout_ms asks call 5000)
    × (resolve_node_timeout_ms asks call 5000 ≤ max_timeout_ms)
    × ((parse_valid_timeout_ms (get asks.config "timeout_ms")
          ≡ some (resolve_node_timeout_ms asks call 5000))
        ⊎ ((parse_valid_timeout_ms (get asks.config "timeout_ms") ≡ none)
            × ((resolve_flow_default_timeout_ms call
                  ≡ some (resolve_node_timeout_ms asks call 5000))
                ⊎ ((resolve_flow_default_timeout_ms call ≡ none)
                    × (resolve_node_timeout_ms asks call 5000 ≡ 5000)))))
resolve_node_timeout_ms_range_example =
    resolve_node_timeout_ms_range asks call 5000 (omega arith) (omega arith)
