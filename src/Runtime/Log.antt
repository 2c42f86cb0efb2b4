-- ===== src/Runtime/Log.antt =====
-- The node log and the final event of a call (stasis/src/runtime.ts).
use mathlib.Core.Option
use callytics.Flow.{FlowNode, find_node}
use callytics.NodeExec.{Env}
use callytics.Routing.{find_entry_node}
use callytics.Session.{CallSession}
use callytics.Runtime.Turns.{
  Turn, Touched, goes, ends, fails, returns, returns_or_fails, enters, after_node-Turn, finals,
}
use callytics.Runtime.{
  Run, Next, NodeLog, FlowStackFrame, Status, Reason, completed, failed, more, over, step, run_node,
  run_loop, run_flow, publish, start_run, update_node_log, fail, return_or, return_to_parent_flow,
  enter_subflow, at_node, node_not_found, parent_or,
}
use mathlib.Core.Path.{subst}
use callytics.Prelude.{
  ℕ, zero, suc, String, ◌≡◌, refl, sym, ap, ◌∙◌, Bool, true, false, Option, none, some, List, ◌∷◌,
  arith, eq_iff, is_some, option-holds, all,
}

-- Every node that was entered was left.
abbrev pub all_exited : List NodeLog → Bool
all_exited rows = all rows (λ row. is_some row.exit)

-- What the loop keeps true between two rounds: the log has no open row, no final event was
-- written, and there is a reason for a failure exactly when the call counts as failed.
abbrev pub status_of : Option Reason → Status
status_of none = completed
status_of (some x) = failed

pub record IsTidy {W : Type 0} (r : Run W) : Type 0 where
  pub exited : all_exited r.node_log ≡ true
  pub open_call : finals r.events ≡ 0
  pub reasoned : r.status ≡ status_of r.failure

update_node_log-closes :
    (flow : ℕ) (key type branch : String) (error : Option String) (rows : List NodeLog)
    → all_exited rows ≡ true
    → all_exited (
        update_node_log flow key branch error
          (record { flow_id = flow; node_key = key; node_type = type; exit = none } ∷ rows))
      ≡ true
unfolding update_node_log
update_node_log-closes flow key type branch error rows h = ground (arith, eq_iff key key)

module _ (env : Env) where
  open env use {World}

  run_node-IsTidy : (n : FlowNode) (r : Run World) → IsTidy r → IsTidy (run_node env n r).1
  unfolding run_node
  run_node-IsTidy n r t = record {
    exited = update_node_log-closes _ n.node_key n.type _ _ r.node_log t.exited;
    open_call = t.open_call;
    reasoned = t.reasoned;
  }

  Touched-IsTidy : {r x : Run World} → Touched r x → IsTidy r → IsTidy x
  Touched-IsTidy {r} {x} u t = record {
    exited = ap all_exited u.node_log ∙ t.exited;
    open_call = u.open_call ∙ t.open_call;
    reasoned = u.status ∙ t.reasoned ∙ sym (ap status_of u.failure);
  }

  abbrev NextIsTidy : Next World → Type 0
  NextIsTidy (more x) = IsTidy x
  NextIsTidy (over x) = IsTidy x

  fail-IsTidy : (reason : Reason) {x : Run World} → IsTidy x → IsTidy (fail reason x)
  unfolding fail
  fail-IsTidy reason t = record { exited = t.exited; open_call = t.open_call; reasoned = refl }

  return_or-IsTidy :
      (k : Run World → Run World)
      → ((y : Run World) → IsTidy y → IsTidy (k y))
      → (x : Run World) → IsTidy x
      → NextIsTidy (return_or k x)
  unfolding return_or return_to_parent_flow
  return_or-IsTidy k keep x t = by_parent (return_to_parent_flow x.session x.stack)
    where
      moved :
          (s : CallSession) (st : List FlowStackFrame)
          → IsTidy (record x { session = s; stack = st })
      moved s st = record { exited = t.exited; open_call = t.open_call; reasoned = t.reasoned }

      by_parent : (p : Bool × CallSession × List FlowStackFrame) → NextIsTidy (parent_or k x p)
      by_parent (true, s, st) = moved s st
      by_parent (false, s, st) = keep _ (moved s st)

  Turn-IsTidy :
      (n : FlowNode) {r : Run World} {next : Next World}
      → Turn env.database n r next
      → IsTidy r
      → NextIsTidy next
  unfolding at_node enter_subflow
  Turn-IsTidy n (goes key x u) t = record {
    exited = (Touched-IsTidy u t).exited;
    open_call = (Touched-IsTidy u t).open_call;
    reasoned = (Touched-IsTidy u t).reasoned;
  }
  Turn-IsTidy n (ends x u) t = Touched-IsTidy u t
  Turn-IsTidy n (fails reason x u) t = fail-IsTidy reason (Touched-IsTidy u t)
  Turn-IsTidy n (returns x u) t = return_or-IsTidy (λ y. y) (λ y h. h) x (Touched-IsTidy u t)
  Turn-IsTidy n (returns_or_fails reason x u) t =
      return_or-IsTidy (fail reason) (λ y. fail-IsTidy reason) x (Touched-IsTidy u t)
  Turn-IsTidy n (enters sub key x menu entry u) t = record {
    exited = (Touched-IsTidy u t).exited;
    open_call = (Touched-IsTidy u t).open_call;
    reasoned = (Touched-IsTidy u t).reasoned;
  }

  step-IsTidy : (r : Run World) → IsTidy r → NextIsTidy (step env r)
  unfolding step
  step-IsTidy r t =
      let key = r.session.current_node_key in
      let r' = record r { last_node_key = key } in
      option-holds NextIsTidy (find_node key r.session.flow.nodes)
        (λ _.
          return_or-IsTidy (fail (node_not_found key)) (λ y. fail-IsTidy (node_not_found key)) r'
            again)
        (λ n _.
          Turn-IsTidy n (after_node-Turn env n (run_node env n r').0 (run_node env n r').1)
            (run_node-IsTidy n r' again))
    where
      again : IsTidy (record r { last_node_key = r.session.current_node_key })
      again = record { exited = t.exited; open_call = t.open_call; reasoned = t.reasoned }

  run_loop-IsTidy :
      (fuel : ℕ) (r x : Run World) → IsTidy r → run_loop env fuel r ≡ some x → IsTidy x
  unfolding run_loop
  run_loop-IsTidy zero r x t h = cc
  run_loop-IsTidy (suc fuel) r x t h =
      by_next (step env r) (step-IsTidy r t) (run_loop-IsTidy fuel) h
    where
      by_next :
          (n : Next World)
          → NextIsTidy n
          → ((y z : Run World) → IsTidy y → run_loop env fuel y ≡ some z → IsTidy z)
          → (elim n [ more y ↦ run_loop env fuel y | over y ↦ some y ]) ≡ some x
          → IsTidy x
      by_next (more y) u rec e = rec y x u e
      by_next (over y) u rec e = let same : y ≡ x = cc in subst IsTidy same u

  abbrev Closed : Run World → Type 0
  Closed r =
      (all_exited r.node_log ≡ true) × (finals r.events ≡ 1) × (r.status ≡ status_of r.failure)

  publish-Closed : (x : Run World) → IsTidy x → Closed (publish env x)
  unfolding publish
  publish-Closed x t = by_status x.status refl
    where
      by_status : (st : Status) → x.status ≡ st → Closed (publish env x)
      by_status failed e = rw (e, publish) (t.exited, ap suc t.open_call, t.reasoned)
      by_status completed e = rw (e, publish) (t.exited, ap suc t.open_call, t.reasoned)

  abbrev SomeClosed : Option (Run World) → Type 0
  SomeClosed none = Unit
  SomeClosed (some r) = Closed r

  publish-SomeClosed :
      (o : Option (Run World))
      → ((x : Run World) → o ≡ some x → IsTidy x)
      → SomeClosed (Option.map (publish env) o)
  publish-SomeClosed none h = tt
  publish-SomeClosed (some x) h = publish-Closed x (h x refl)

  -- When a flow has run, every node that it entered was left in the log, exactly one event closes
  -- the call, and the call counts as failed exactly when there is a reason.
  pub run_flow-closed :
      (fuel : ℕ) (s : CallSession) (w : World) (r : Run World)
      → run_flow env fuel s w ≡ some r
      → (all_exited r.node_log ≡ true) × (finals r.events ≡ 1) × (r.status ≡ status_of r.failure)
  unfolding run_flow start_run fail
  run_flow-closed fuel s w r h = subst SomeClosed h flow_closed
    where
      flow_closed : SomeClosed (run_flow env fuel s w)
      flow_closed =
          option-holds SomeClosed (find_entry_node s.flow) (λ _. (refl, refl, refl))
            (λ key _. publish-SomeClosed (run_loop env fuel (start_run env s w key)) (λ x.
              run_loop-IsTidy fuel (start_run env s w key) x
                (record { exited = refl; open_call = refl; reasoned = refl })))
