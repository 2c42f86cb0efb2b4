-- ===== src/NodeExec.antt =====
-- stasis/src/nodes/index.ts: the dispatch of a node to its executor, `executeNode`. The executors
-- that talk to Asterisk, Redis and the database are a parameter; those that only compute stand here.
use callytics.Flow.{FlowNode}
use callytics.Flow.Load.{Database}
use callytics.Js.{get, text_of}
use callytics.Session.{CallSession, Variables, insert}
use callytics.Prelude.{
  ℕ, String, ◌≡◌, ap, ◌||◌, Option, List, [], ◌∷◌, ◌==◌, if◌then◌else◌, any, is_empty,
}

-- An asynchronous call that returns or throws; a thrown value is known by its message.
pub data Outcome : Type 0 where
  returned : String → Outcome
  raised : String → Outcome

-- What is outside of the model: the telephone network, Redis, and executors that wait for events.
-- An executor may write variables; none assigns the session's flow or its current node.
pub record Env : Type 1 where
  pub World : Type 0
  pub database : World → Database
  pub executor : FlowNode → CallSession → World → Outcome × Variables × World
  pub hangup : World → World
  -- The time at which the channel leaves within the second that the code waits for it.
  pub stasis_end : World → Option ℕ

-- The keys of `executorMap` whose executors are parameters.
unfoldable pub external_types : List String
external_types =
    "play_audio" ∷ "get_digits" ∷ "menu" ∷ "business_hours" ∷ "transfer" ∷ "hunt" ∷ "voicemail"
    ∷ "queue_login" ∷ "queue" ∷ "conference" ∷ "callback" ∷ []

execute_set_variable : FlowNode → Variables → Variables
unfolding text_of get
execute_set_variable node vars =
    let name = text_of (get node.config "variable_name") in
    if is_empty name then vars else insert name (text_of (get node.config "variable_value")) vars

abbrev pub last_node_error : String
last_node_error = "__last_node_error__"

module _ (env : Env) where
  open env use {World, executor, hangup}

  unfoldable pub run_executor : FlowNode → CallSession → World → Outcome × Variables × World
  unfolding external_types execute_set_variable
  run_executor node s w =
      if node.type == "start" || node.type == "branch"
      then (returned "default", s.variables, w)
      else if node.type == "hangup"
      then (returned "done", s.variables, hangup w)
      else if node.type == "set_variable"
      then (returned "default", execute_set_variable node s.variables, w)
      else if any external_types (λ t. node.type == t)
      then executor node s w
      else (returned "default", s.variables, w)

  -- The `catch` of `executeNode`: the message goes to a variable, and the result is `hangup`.
  unfoldable pub settle_outcome : Outcome × Variables × World → String × Variables × World
  settle_outcome (returned r, vars, w) = (r, vars, w)
  settle_outcome (raised message, vars, w) = ("hangup", insert last_node_error message vars, w)

  unfoldable pub execute_node : FlowNode → CallSession → World → String × Variables × World
  unfolding run_executor settle_outcome
  execute_node node s w = settle_outcome (run_executor node s w)

  -- Whatever an executor throws, the node's result is `hangup`, and its message is in the variable.
  pub execute_node_raised :
      (node : FlowNode) (s : CallSession) (w : World) (message : String) (vars : Variables)
      (v : World)
      → run_executor node s w ≡ (raised message, vars, v)
      → execute_node node s w ≡ ("hangup", insert last_node_error message vars, v)
  unfolding execute_node
  execute_node_raised node s w message vars v e = ap settle_outcome e
