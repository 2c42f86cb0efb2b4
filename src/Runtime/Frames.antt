-- ===== src/Runtime/Frames.antt =====
-- The stack of menus that wait for a sub-flow (stasis/src/runtime.ts).
use callytics.Flow.{Flow, FlowNode, find_node}
use callytics.Flow.Load.{Database}
use callytics.NodeExec.{Env}
use callytics.Edges.{resolve_next_edge}
use callytics.Runtime.Turns.{
  Turn, IsEntry, goes, ends, fails, returns, returns_or_fails, enters, after_node-Turn,
}
use callytics.Runtime.{
  Run, Next, FlowStackFrame, more, over, step, run_node, fail, return_or, parent_or,
  return_to_parent_flow, enter_subflow, at_node, node_not_found, run_loop,
}
use mathlib.Core.Path.{subst}
use callytics.Prelude.{
  ℕ, zero, suc, ◌≡◌, refl, sym, ap, ◌∙◌, inl, inr, true, some, List, [], ◌∷◌, ◌==◌, Option-cases,
  option-holds, All, In, find?-In,
}

-- A frame names a menu node of its flow.
abbrev pub IsMenuFrame : FlowStackFrame → Type 0
IsMenuFrame f =
    (n : FlowNode) × In n f.flow.nodes
    × (n.node_key ≡ f.menu_node_key)
    × ((n.type == "menu") ≡ true)

-- How a round moves the stack: it stays; or a frame for the current flow is put on it, and the
-- current flow and node become a loaded flow and a node to enter it at; or its top is taken off and
-- the flow of that frame is the current one again.
pub data StackMove {W : Type 0} (db : W → Database) (r : Run W) (x : Run W) : Type 0 where
  same : x.stack ≡ r.stack → x.session.flow ≡ r.session.flow → StackMove db r x
  push :
      (f : FlowStackFrame)
      → IsMenuFrame f
      → f.flow ≡ r.session.flow
      → x.stack ≡ f ∷ r.stack
      → IsEntry (db x.world) r.session.flow x.session.flow x.session.current_node_key
      → StackMove db r x
  pop : (f : FlowStackFrame) → r.stack ≡ f ∷ x.stack → x.session.flow ≡ f.flow → StackMove db r x

module _ (env : Env) where
  open env use {World}

  abbrev pub NextMove : Run World → Next World → Type 0
  NextMove r (more x) = StackMove env.database r x
  NextMove r (over x) = StackMove env.database r x

  module _ (r : Run World) where
    return_or-StackMove :
        (k : Run World → Run World)
        → ((y : Run World) → (k y).stack ≡ y.stack)
        → ((y : Run World) → (k y).session.flow ≡ y.session.flow)
        → (x : Run World) → x.stack ≡ r.stack
        → x.session.flow ≡ r.session.flow
        → NextMove r (return_or k x)
    unfolding return_or return_to_parent_flow
    return_or-StackMove k ks kf x s f = by_stack x.stack refl
      where
        by_stack :
            (st : List FlowStackFrame)
            → x.stack ≡ st
            → NextMove r (parent_or k x (return_to_parent_flow x.session st))
        by_stack [] e = same (ks _ ∙ sym e ∙ s) (kf _ ∙ f)
        by_stack (g ∷ st) e =
            elim (Option-cases (resolve_next_edge g.menu_node_key "menu" "complete" g.flow.edges)) [
              | inl n ↦
                  rw (n, return_to_parent_flow)
                    (pop g (sym s ∙ e ∙ ap (λ t. g ∷ t) (sym (ks _))) (kf _))
              | inr (y, n) ↦ rw (n, return_to_parent_flow) (pop g (sym s ∙ e) refl)
            ]

    Turn-StackMove :
        (n : FlowNode)
        → In n r.session.flow.nodes
        → {x : Run World} {next : Next World} → x.stack ≡ r.stack
        → x.session.flow ≡ r.session.flow
        → Turn env.database n x next
        → NextMove r next
    unfolding at_node enter_subflow fail
    Turn-StackMove n m s f (goes key y u) = same (u.stack ∙ s) (u.flow ∙ f)
    Turn-StackMove n m s f (ends y u) = same (u.stack ∙ s) (u.flow ∙ f)
    Turn-StackMove n m s f (fails reason y u) = same (u.stack ∙ s) (u.flow ∙ f)
    Turn-StackMove n m s f (returns y u) =
        return_or-StackMove (λ z. z) (λ _. refl) (λ _. refl) y (u.stack ∙ s) (u.flow ∙ f)
    Turn-StackMove n m s f (returns_or_fails reason y u) =
        return_or-StackMove (fail reason) (λ _. refl) (λ _. refl) y (u.stack ∙ s) (u.flow ∙ f)
    Turn-StackMove n m s f (enters sub key y menu entry u) =
        push (record { flow = y.session.flow; menu_node_key = n.node_key })
          (n, subst (λ (g : Flow). In n g.nodes) (sym (u.flow ∙ f)) m, refl, menu) (u.flow ∙ f)
          (ap (λ t. record { flow = y.session.flow; menu_node_key = n.node_key } ∷ t) (u.stack ∙ s))
          (subst (λ (g : Flow). IsEntry (env.database y.world) g sub key) (u.flow ∙ f) entry)

    -- A round leaves the stack and the flow; or it remembers a menu of the current flow with that
    -- flow, and the current flow becomes one that the database loads, entered at its entry node, at
    -- one of its nodes, or, where it has no entry node, at the target of an edge of the flow it came
    -- from; or it goes back to the flow of the newest frame.
    pub step-StackMove : NextMove r (step env r)
    unfolding step run_node fail
    step-StackMove =
        let key = r.session.current_node_key in
        let r' = record r { last_node_key = key } in
        option-holds (NextMove r) (find_node key r.session.flow.nodes)
          (λ _.
            return_or-StackMove (fail (node_not_found key)) (λ _. refl) (λ _. refl) r' refl refl)
          (λ n found.
            Turn-StackMove n (find?-In _ r.session.flow.nodes found) refl refl
              (after_node-Turn env n (run_node env n r').0 (run_node env n r').1))

  move-IsMenuFrame :
      {r x : Run World}
      → StackMove env.database r x
      → All IsMenuFrame r.stack
      → All IsMenuFrame x.stack
  move-IsMenuFrame (same e _) h = subst (All IsMenuFrame) (sym e) h
  move-IsMenuFrame (push f m _ e _) h = subst (All IsMenuFrame) (sym e) (m, h)
  move-IsMenuFrame (pop f e _) h = (subst (All IsMenuFrame) e h).1

  -- In every run from a stack whose frames name menus of their flows, the stack stays so.
  pub run_loop-IsMenuFrame :
      (fuel : ℕ) (r x : Run World)
      → All IsMenuFrame r.stack
      → run_loop env fuel r ≡ some x
      → All IsMenuFrame x.stack
  unfolding run_loop
  run_loop-IsMenuFrame zero r x h e = cc
  run_loop-IsMenuFrame (suc fuel) r x h e =
      by_next (step env r) (step-StackMove r) (run_loop-IsMenuFrame fuel) e
    where
      by_next :
          (n : Next World)
          → NextMove r n
          → ((y z : Run World)
              → All IsMenuFrame y.stack
              → run_loop env fuel y ≡ some z
              → All IsMenuFrame z.stack)
          → (elim n [ more y ↦ run_loop env fuel y | over y ↦ some y ]) ≡ some x
          → All IsMenuFrame x.stack
      by_next (more y) m rec e' = rec y x (move-IsMenuFrame m h) e'
      by_next (over y) m rec e' =
          let reached : y ≡ x = cc in
          subst (λ (z : Run World). All IsMenuFrame z.stack) reached (move-IsMenuFrame m h)
