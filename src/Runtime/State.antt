-- ===== src/Runtime/State.antt =====
-- stasis/src/runtime.ts: the variables of the loop of `runFlow`, the node log, and the ways into a
-- sub-flow and back to its parent.
use callytics.Edges.{resolve_next_edge}
use callytics.Flow.{Flow, FlowNode}
use callytics.NodeExec.{last_node_error}
use callytics.Session.{CallSession, Variables, lookup, remove}
use callytics.Prelude.{
  ℕ, String, Bool, true, false, not, ◌&&◌, Option, none, some, List, [], ◌∷◌, ◌==◌, eqb,
  if◌then◌else◌, is_some, trim, is_empty,
}

pub record FlowStackFrame : Type 0 where
  pub flow : Flow
  pub menu_node_key : String

pub data Status : Type 0 where
  completed failed : Status

-- The texts of `failureReason`, by what they name.
pub data Reason : Type 0 where
  no_entry_node : Reason
  node_not_found : String → Reason
  target_node_not_found : String → Reason
  subflow_load_failure : ℕ → Reason
  subflow_missing_entry : ℕ → Reason
  submenu_missing_id : String → Reason
  subflow_missing_target : ℕ → String → Reason
  no_edge : String → String → String → Reason

-- A row of `call_node_logs`; `exit` holds the branch and the error once the node is left.
pub record NodeLog : Type 0 where
  pub flow_id : ℕ
  pub node_key : String
  pub node_type : String
  pub exit : Option (String × Option String)

pub data Event : Type 0 where
  webhook_fired : String → String → Event
  hung_up : Event
  call_failed : ℕ → Option String → Reason → Event
  call_ended : ℕ → Event

-- The variables of the loop, with what it has written; the newest entry comes first.
pub record Run (World : Type 0) : Type 0 where
  pub session : CallSession
  pub stack : List FlowStackFrame
  pub status : Status
  pub failure : Option Reason
  pub last_node_key : String
  pub world : World
  pub node_log : List NodeLog
  pub events : List Event

pub data Next (World : Type 0) : Type 0 where
  more over : Run World → Next World

-- The newest open row of the flow and the node is closed.
unfoldable pub update_node_log : ℕ → String → String → Option String → List NodeLog → List NodeLog
update_node_log flow key branch error [] = []
update_node_log flow key branch error (row ∷ rows) =
    if eqb row.flow_id flow && row.node_key == key && not (is_some row.exit)
    then record row { exit = some (branch, error) } ∷ rows
    else row ∷ update_node_log flow key branch error rows

unfoldable pub consume_node_error : Variables → Option String × Variables
consume_node_error vars = elim (lookup last_node_error vars) [
  | none ↦ (none, vars)
  | some raw ↦
      if is_empty (trim raw) then (none, vars) else (some (trim raw), remove last_node_error vars)
]

-- False leaves the frame popped and its flow in place, as the code does.
unfoldable pub return_to_parent_flow :
    CallSession → List FlowStackFrame → Bool × CallSession × List FlowStackFrame
return_to_parent_flow s [] = (false, s, [])
return_to_parent_flow s (frame ∷ stack) =
    let s' = record s { flow = frame.flow } in
    elim (resolve_next_edge frame.menu_node_key "menu" "complete" frame.flow.edges) [
      | none ↦ (false, s', stack)
      | some e ↦ (true, record s' { current_node_key = e.target_node_key }, stack)
    ]

module _ {World : Type 0} where
  unfoldable pub at_node : String → Run World → Run World
  at_node key r = record r { session = record r.session { current_node_key = key } }

  unfoldable pub fail : Reason → Run World → Run World
  fail reason r = record r { status = failed; failure = some reason }

  abbrev pub parent_or :
      (Run World → Run World) → Run World → Bool × CallSession × List FlowStackFrame → Next World
  parent_or otherwise r (true, s, stack) = more (record r { session = s; stack = stack })
  parent_or otherwise r (false, s, stack) =
      over (otherwise (record r { session = s; stack = stack }))

  -- Back to the parent flow where there is one, and the end of the loop where not.
  unfoldable pub return_or : (Run World → Run World) → Run World → Next World
  unfolding return_to_parent_flow
  return_or otherwise r = parent_or otherwise r (return_to_parent_flow r.session r.stack)

  -- A sub-flow is entered at a node; the menu is remembered.
  unfoldable pub enter_subflow : FlowNode → Flow → String → Run World → Next World
  enter_subflow menu sub key r = more (record r {
    session = record r.session { flow = sub; current_node_key = key };
    stack = record { flow = r.session.flow; menu_node_key = menu.node_key } ∷ r.stack;
  })
