-- ===== src/Runtime/Outcomes.antt =====
-- How a call ends when the executor of a node throws (stasis/src/runtime.ts, nodes/index.ts).
use callytics.Flow.{FlowNode, find_node}
use callytics.NodeExec.{Env, execute_node_raised, run_executor, raised, last_node_error}
use callytics.Routing.{find_entry_node}
use callytics.Runtime.Turns.{
  Turn, goes, ends, fails, returns, returns_or_fails, enters, after_node-Turn,
}
use callytics.Runtime.{
  Run, Next, NodeLog, FlowStackFrame, completed, more, over, step, after_node, run_node, run_loop,
  run_flow, publish, start_run, finish, hang_up, hung_up, return_or, parent_or,
  return_to_parent_flow, call_ended, update_node_log, consume_node_error, at_node, enter_subflow,
  fail, node_not_found,
}
use callytics.Session.{CallSession, Variables, lookup, insert, remove, lookup-insert, lookup-remove}
use mathlib.Core.List.{head?}
use mathlib.Core.Option
use mathlib.Core.Path.{subst}
use callytics.Prelude.{
  ℕ, suc, ◌+◌, String, ◌≡◌, refl, ap, ◌∙◌, Bool, true, false, none, some, List, [], ◌∷◌, arith,
  eq_refl, option-holds, eqb-true, trim, is_empty,
}

module _ (env : Env) where
  open env use {World}

  -- The loop has come from one run to another in a number of rounds.
  pub data Reaches (start : Run World) : ℕ → Run World → Type 0 where
    here : Reaches start 0 start
    round :
        (n : ℕ) (x y : Run World)
        → Reaches start n x
        → step env x ≡ more y
        → Reaches start (suc n) y

  run_loop-Reaches :
      (start x : Run World) (n fuel : ℕ)
      → Reaches start n x
      → run_loop env (n + fuel) start ≡ run_loop env fuel x
  unfolding run_loop
  run_loop-Reaches start x n fuel here = ap (λ k. run_loop env k start) (omega arith)
  run_loop-Reaches start _ n fuel (round m x y before e) =
      ap (λ k. run_loop env k start) (omega arith)
      ∙ run_loop-Reaches start x m (suc fuel) before
      ∙ rw (e, run_loop) refl

  -- A call that goes on has not failed.
  module _ (r : Run World) where
    abbrev GoesOn : Next World → Type 0
    GoesOn (more x) = (x.status ≡ r.status) × (x.failure ≡ r.failure)
    GoesOn (over x) = Unit

    return_or-GoesOn :
        (k : Run World → Run World) (x : Run World)
        → x.status ≡ r.status
        → x.failure ≡ r.failure
        → GoesOn (return_or k x)
    unfolding return_or
    return_or-GoesOn k x st f = by_parent (return_to_parent_flow x.session x.stack)
      where
        by_parent : (p : Bool × CallSession × List FlowStackFrame) → GoesOn (parent_or k x p)
        by_parent (true, s, stack) = (st, f)
        by_parent (false, s, stack) = tt

    Turn-GoesOn :
        (n : FlowNode) {x : Run World} {next : Next World}
        → x.status ≡ r.status
        → x.failure ≡ r.failure
        → Turn env.database n x next
        → GoesOn next
    unfolding at_node enter_subflow
    Turn-GoesOn n st f (goes key y u) = (u.status ∙ st, u.failure ∙ f)
    Turn-GoesOn n st f (ends y u) = tt
    Turn-GoesOn n st f (fails reason y u) = tt
    Turn-GoesOn n st f (returns y u) = return_or-GoesOn (λ z. z) y (u.status ∙ st) (u.failure ∙ f)
    Turn-GoesOn n st f (returns_or_fails reason y u) =
        return_or-GoesOn (fail reason) y (u.status ∙ st) (u.failure ∙ f)
    Turn-GoesOn n st f (enters sub key y menu entry u) = (u.status ∙ st, u.failure ∙ f)

    step-GoesOn : GoesOn (step env r)
    unfolding step run_node
    step-GoesOn =
        let key = r.session.current_node_key in
        let r' = record r { last_node_key = key } in
        option-holds GoesOn (find_node key r.session.flow.nodes)
          (λ _. return_or-GoesOn (fail (node_not_found key)) r' refl refl)
          (λ n _.
            Turn-GoesOn n refl refl
              (after_node-Turn env n (run_node env n r').0 (run_node env n r').1))

  Reaches-completed :
      (start x : Run World) (n : ℕ)
      → Reaches start n x
      → start.status ≡ completed
      → start.failure ≡ none
      → (x.status ≡ completed) × (x.failure ≡ none)
  Reaches-completed start x n here st f = (st, f)
  Reaches-completed start _ n (round m x y before e) st f =
      let (s, g) = Reaches-completed start x m before st f in
      let (t, h) : GoesOn x (more y) = subst (GoesOn x) e (step-GoesOn x) in (t ∙ s, h ∙ g)

  -- The log row of a node whose executor has thrown.
  abbrev pub raised_row : ℕ → FlowNode → String → NodeLog
  raised_row flow node message = record {
    flow_id = flow;
    node_key = node.node_key;
    node_type = node.type;
    exit = some ("hangup", some (trim message));
  }

  raised_run : FlowNode → String → Variables → World → Run World → Run World
  raised_run node message vars v r = record r {
    session = record r.session {
      variables = remove last_node_error (insert last_node_error message vars);
    };
    world = v;
    node_log = raised_row r.session.flow.id node message ∷ r.node_log;
  }

  consume-raised :
      (message : String) (vars : Variables)
      → is_empty (trim message) ≡ false
      → consume_node_error (insert last_node_error message vars)
        ≡ (some (trim message), remove last_node_error (insert last_node_error message vars))
  unfolding consume_node_error
  consume-raised message vars full =
      let kept : lookup last_node_error (insert last_node_error message vars) ≡ some message =
        lookup-insert last_node_error last_node_error message vars in
      rw (kept, consume_node_error) (rw full refl)

  run_node_raised :
      (r : Run World) (node : FlowNode) (message : String) (vars : Variables) (v : World)
      → run_executor env node r.session r.world ≡ (raised message, vars, v)
      → is_empty (trim message) ≡ false
      → run_node env node r ≡ ("hangup", raised_run node message vars v r)
  unfolding run_node update_node_log raised_run
  run_node_raised r node message vars v threw full =
      let settled = execute_node_raised env node r.session r.world message vars v threw in
      let consumed = consume-raised message vars full in
      rw settled (
        rw consumed (
          rw (eqb-true r.session.flow.id r.session.flow.id refl) (rw (eq_refl node.node_key) refl)))

  -- The run after the round in which the executor has thrown.
  hung_run : FlowNode → String → Variables → World → Run World → Run World
  hung_run node message vars v r =
      hang_up env
        (raised_run node message vars v (record r { last_node_key = r.session.current_node_key }))

  step_raised :
      (r : Run World) (node : FlowNode) (message : String) (vars : Variables) (v : World)
      → r.stack ≡ []
      → find_node r.session.current_node_key r.session.flow.nodes ≡ some node
      → run_executor env node r.session r.world ≡ (raised message, vars, v)
      → is_empty (trim message) ≡ false
      → step env r ≡ over (record (hung_run node message vars v r) { stack = [] })
  unfolding step after_node finish return_or return_to_parent_flow hung_run raised_run hang_up
  step_raised r node message vars v alone found threw full =
      let r' = record r { last_node_key = r.session.current_node_key } in
      let entered : step env r ≡ after_node env node (run_node env node r') =
        rw (found, step) refl in
      entered
      ∙ ap (after_node env node) (run_node_raised r' node message vars v threw full)
      ∙ rw (alone, return_to_parent_flow) refl

  -- If the executor of any node that a call reaches outside of sub-flows throws an error with a
  -- message, the call ends in that round and counts as completed: it is hung up, the last event says
  -- that it ended, and the message is in the node's row of the log and no longer in the variables.
  pub run_flow_raised :
      (n fuel : ℕ) (s : CallSession) (w : World) (key : String) (r : Run World) (node : FlowNode)
      (message : String) (vars : Variables) (v : World)
      → find_entry_node s.flow ≡ some key
      → Reaches (start_run env s w key) n r
      → r.stack ≡ []
      → find_node r.session.current_node_key r.session.flow.nodes ≡ some node
      → run_executor env node r.session r.world ≡ (raised message, vars, v)
      → is_empty (trim message) ≡ false
      → (x : Run World) × (run_flow env (n + suc fuel) s w ≡ some x)
        × (x.status ≡ completed)
        × (x.failure ≡ none)
        × (x.events ≡ call_ended r.session.flow.id ∷ hung_up ∷ r.events)
        × (head? x.node_log ≡ some (raised_row r.session.flow.id node message))
        × (lookup last_node_error x.session.variables ≡ none)
  unfolding run_flow run_loop start_run publish hung_run raised_run hang_up
  run_flow_raised n fuel s w key r node message vars v entry before alone found threw full =
      let x = record (hung_run node message vars v r) { stack = [] } in
      let stepped = step_raised r node message vars v alone found threw full in
      let (status, failure) = Reaches-completed (start_run env s w key) r n before refl refl in
      let looped : run_loop env (n + suc fuel) (start_run env s w key) ≡ some x =
        run_loop-Reaches (start_run env s w key) r n (suc fuel) before
        ∙ rw (stepped, run_loop) refl in
      (
        publish env x,
        rw (entry, run_flow) (ap (Option.map (publish env)) looped),
        rw (status, publish) status,
        rw (status, publish) failure,
        rw (status, publish) refl,
        rw (status, publish) refl,
        rw (status, publish)
            (lookup-remove last_node_error last_node_error (insert last_node_error message vars)),
      )
