-- ===== src/Runtime.antt =====
-- stasis/src/runtime.ts: `runFlow`, the loop that walks a call through its flow. A round of the
-- loop is a function from the loop's variables to their next value or to the end; the loop runs on
-- fuel, and `none` means that the fuel ran out. Writes of the node log are taken to succeed.
mod State
pub mod Moves
pub mod Turns
pub mod Frames
pub mod Outcomes
pub mod Log
pub mod Termination
mod Tests
use callytics.Edges.{resolve_next_edge}
use callytics.Flow.{Flow, FlowNode, FlowEdge, find_node}
use callytics.Flow.Load.{Database, load_flow_by_id}
use callytics.NodeExec.{Env, execute_node, last_node_error}
use mathlib.Core.List.{reverse}
use mathlib.Core.Option
use callytics.Routing.{
  find_entry_node, routing_edges_excluding_webhook_targets, resolve_webhook_edge,
  webhook_target_node, webhook_side_effects, is_post_completion_routable_node,
  menu_subflow_target_node_key, menu_branch_subflow_id, menu_subflow_id,
  menu_branch_subflow_id_from_parent_link,
}
use callytics.Session.{CallSession, Variables, mark_call_ended, lookup, remove}
use callytics.Prelude.{
  ℕ, zero, suc, ◌+◌, ◌-◌, ◌*◌, ◌/◌, ◌%◌, ◌≤◌, ◌<◌, String, ◌≡◌, refl, sym, ap, ◌∙◌, ◌≢◌, ◌↔◌, ◌⊎◌,
  inl, inr, Bool, true, false, not, ◌&&◌, ◌||◌, Option, none, some, List, [], ◌∷◌, ◌++◌, map, arith,
  ◌==◌, eq_iff, eq_refl, ltb, leb, eqb, if◌then◌else◌, Bool-cases, Option-cases, or_else, is_some,
  if-holds, option-holds, length, find?, filter, any, all, All, length-append, find?-test, In,
  find?-In, find?-none, In-filter, filter-In, All-In, codes, is_space, trim_start, trim_end, trim,
  drop_prefix, is_empty, is_digit, digits_value, show_ℕ, digits_value-show_ℕ, all_digits,
  show_ℕ-digits, trim-digits, show_ℕ-not_empty, concat, concat-cancel,
}
unfoldable pub use State.*

module _ (env : Env) where
  open env use {World, database, hangup, stasis_end}

  pub hang_up : Run World → Run World
  hang_up r = record r { world = hangup r.world; events = hung_up ∷ r.events }

  pub end_session : CallSession → Option ℕ → CallSession
  unfolding mark_call_ended
  end_session s none = s
  end_session s (some at) = mark_call_ended s at

  hangup_and_wait : Run World → Run World
  unfolding hang_up end_session
  hangup_and_wait r = record (hang_up r) {
    session = end_session r.session (stasis_end (hangup r.world));
  }

  -- The log row, the execution, the error that the node left, and the row's end.
  pub run_node : FlowNode → Run World → String × Run World
  unfolding update_node_log consume_node_error
  run_node node r =
      let row : NodeLog = record {
        flow_id = r.session.flow.id;
        node_key = node.node_key;
        node_type = node.type;
        exit = none;
      } in
      let (result, vars, w) = execute_node env node r.session r.world in
      let (error, vars') = consume_node_error vars in
      (
        result,
        record r {
          session = record r.session { variables = vars' };
          world = w;
          node_log =
              update_node_log r.session.flow.id node.node_key result error (row ∷ r.node_log);
        },
      )

  -- `done` or `hangup` with no further edge.
  pub finish : Run World → Next World
  unfolding hang_up
  finish r = return_or (λ x. x) (hang_up r)

  abbrev pub to_target : Flow → FlowEdge → (Run World → Next World) → Run World → Next World
  to_target flow e missing r = elim (find_node e.target_node_key flow.nodes) [
    | none ↦ missing r
    | some n ↦ more (at_node n.node_key r)
  ]

  -- `done` of a voicemail, callback, transfer or hunt node.
  pub route_completed : FlowNode → String → Run World → Next World
  unfolding hangup_and_wait finish at_node fail
  route_completed node result r =
      let flow = r.session.flow in
      let edges = routing_edges_excluding_webhook_targets node.node_key flow in
      let webhook =
        webhook_target_node (resolve_webhook_edge node.node_key node.type result flow) flow in
      elim (resolve_next_edge node.node_key node.type result edges) [
        | some e ↦ to_target flow e (λ x. over (fail (target_node_not_found e.target_node_key) x)) r
        | none ↦ elim webhook [
          | some w ↦
              let ended = hangup_and_wait r in
              over (record ended { events = webhook_fired w.node_key node.node_key ∷ ended.events })
          | none ↦ finish r
        ]
      ]

  -- A menu's branch that has a flow of its own.
  pub enter_branch_flow : FlowNode → ℕ → Run World → Next World
  unfolding fail enter_subflow
  enter_branch_flow node id r = elim (load_flow_by_id (database r.world) id) [
    | none ↦ over (fail (subflow_load_failure id) r)
    | some sub ↦ elim (find_entry_node sub) [
      | none ↦ over (fail (subflow_missing_entry id) r)
      | some key ↦ enter_subflow node sub key r
    ]
  ]

  -- A menu's branch that names a node of the menu's one sub-flow.
  pub enter_submenu : FlowNode → String → Run World → Next World
  unfolding fail enter_subflow
  enter_submenu node target r =
      elim (menu_subflow_id (database r.world) r.session.flow.version_id node.node_key) [
        | none ↦ over (fail (submenu_missing_id node.node_key) r)
        | some id ↦ elim (load_flow_by_id (database r.world) id) [
          | none ↦ over (fail (subflow_load_failure id) r)
          | some sub ↦ elim (find_node target sub.nodes) [
            | none ↦ over (fail (subflow_missing_target id target) r)
            | some n ↦ enter_subflow node sub n.node_key r
          ]
        ]
      ]

  -- No edge, and no sub-flow either.
  pub dead_end : FlowNode → String → Run World → Next World
  unfolding hang_up fail
  dead_end node result r =
      if node.type == "queue_login" && result == "authenticated"
      then over r
      else if node.type == "play_audio"
      then over (hang_up r)
      else return_or (fail (no_edge node.node_key node.type result)) r

  pub without_edge : FlowNode → String → Run World → Next World
  unfolding enter_branch_flow enter_submenu dead_end
  without_edge node result r =
      if node.type == "menu"
      then elim (or_else (menu_branch_subflow_id node.config result) (
          menu_branch_subflow_id_from_parent_link (database r.world) r.session.flow.id node.node_key
            result)) [
              | some id ↦ enter_branch_flow node id r
              | none ↦ elim (menu_subflow_target_node_key node.config result) [
                | some target ↦ enter_submenu node target r
                | none ↦ dead_end node result r
              ]
            ]
      else dead_end node result r

  abbrev key_of : Option FlowNode → Option String
  key_of none = none
  key_of (some n) = if is_empty n.node_key then none else some n.node_key

  abbrev or_text : Option String → String → String
  or_text none t = t
  or_text (some s) t = s

  -- The edge's target is no node of this flow.
  pub target_elsewhere : FlowNode → FlowEdge → Run World → Next World
  unfolding fail enter_subflow
  target_elsewhere node e r =
      let id =
        if node.type == "menu"
        then menu_subflow_id (database r.world) r.session.flow.version_id node.node_key
        else none in
      elim id [
        | none ↦ return_or (fail (target_node_not_found e.target_node_key)) r
        | some id ↦ elim (load_flow_by_id (database r.world) id) [
          | none ↦ return_or (fail (subflow_load_failure id)) r
          | some sub ↦
              let key =
                or_text
                  (or_else (key_of (find_node e.target_node_key sub.nodes)) (find_entry_node sub))
                  e.target_node_key in
              enter_subflow node sub key r
        ]
      ]

  -- The edge of an ordinary result, behind the webhooks that it fires.
  pub follow_edge : FlowNode → String → Run World → Next World
  unfolding without_edge target_elsewhere at_node
  follow_edge node result r =
      let flow = r.session.flow in
      let key = r.session.current_node_key in
      let fired = record r {
        events =
            reverse (map (λ t. webhook_fired t key) (webhook_side_effects key flow)) ++ r.events;
      } in
      elim (resolve_next_edge key node.type result
        (routing_edges_excluding_webhook_targets key flow)) [
          | none ↦ without_edge node result fired
          | some e ↦ to_target flow e (target_elsewhere node e) fired
        ]

  -- What follows the result of a node.
  pub after_node : FlowNode → String × Run World → Next World
  unfolding route_completed finish follow_edge at_node
  after_node node (result, r) =
      if result == "done" && is_post_completion_routable_node node.type
      then route_completed node result r
      else if result == "done" || result == "hangup"
      then finish r
      else elim (drop_prefix "route:" result) [
        | some key ↦ more (at_node key r)
        | none ↦ follow_edge node result r
      ]

  -- One round of the loop.
  pub step : Run World → Next World
  unfolding run_node after_node return_or fail
  step r =
      let key = r.session.current_node_key in
      let r' = record r { last_node_key = key } in
      elim (find_node key r.session.flow.nodes) [
        | none ↦ return_or (fail (node_not_found key)) r'
        | some node ↦ after_node node (run_node node r')
      ]

  pub run_loop : ℕ → Run World → Option (Run World)
  run_loop zero r = none
  run_loop (suc fuel) r = elim (step r) [ more r' ↦ run_loop fuel r' | over r' ↦ some r' ]

  abbrev pub reason_of : Option Reason → Reason
  reason_of none = no_entry_node
  reason_of (some x) = x

  -- The last event of the call.
  pub publish : Run World → Run World
  publish r = elim r.status [
    | failed ↦ record r {
      events =
          call_failed r.session.flow.id (some r.last_node_key) (reason_of r.failure) ∷ r.events;
    }
    | completed ↦ record r { events = call_ended r.session.flow.id ∷ r.events }
  ]

  pub start_run : CallSession → World → String → Run World
  start_run s w key = record {
    session = record s { current_node_key = key };
    stack = [];
    status = completed;
    failure = none;
    last_node_key = key;
    world = w;
    node_log = [];
    events = [];
  }

  pub run_flow : ℕ → CallSession → World → Option (Run World)
  unfolding start_run fail publish run_loop
  run_flow fuel s w = elim (find_entry_node s.flow) [
    | none ↦
        let r = start_run s w s.current_node_key in
        some
          (record (fail no_entry_node r) { events = call_failed s.flow.id none no_entry_node ∷ [] })
    | some key ↦ Option.map publish (run_loop fuel (start_run s w key))
  ]
