-- ===== src/Runtime/Termination.antt =====
-- `runFlow` (stasis/src/runtime.ts) ends in a flow that stands alone and has no cycle.
use callytics.NodeExec.{Env}
use callytics.Runtime.Moves.{IsAlone, Leads, Moves, step-Moves}
use mathlib.Core.Path.{subst}
use callytics.Session.{CallSession}
use callytics.Runtime.{Run, Next, no_edge, more, over, step, run_loop, run_flow, start_run, publish}
use mathlib.Core.Option
use callytics.Routing.{find_entry_node, non_empty}
use callytics.Flow.{Flow, find_node, FlowNode, find_type}
use callytics.Prelude.{
  ℕ, zero, suc, ◌<◌, String, ◌≡◌, refl, sym, ap, ◌∙◌, ◌⊎◌, inl, inr, true, Option, none, some, List,
  [], ◌∷◌, arith, ◌==◌, eq_iff, Option-cases, is_some, In, find?-In, find?-none,
}

-- Every edge, and every choice of a node of the flow by `route:`, leads to a smaller rank.
abbrev pub Falls : Env → (String → ℕ) → Flow → Type 0
Falls env rank flow =
    (source target : String) → Leads env flow source target → rank target < rank source

module _ (env : Env) where
  open env use {World}

  -- The loop ended, and the call failed for nothing but want of an edge.
  abbrev pub Ends : Run World → Option (Run World) → Type 0
  Ends r none = ⊥
  Ends r (some x) =
      (x.failure ≡ r.failure)
      ⊎ ((key : String) × (type : String) × (result : String) × (x.failure
            ≡ some (no_edge key type result)))

  abbrev Stands : Run World → Type 0
  Stands r =
      (r.stack ≡ [])
      × IsAlone env r.session.flow
      × (is_some (find_node r.session.current_node_key r.session.flow.nodes) ≡ true)

  -- After a move the run stands in the same flow, at a node of smaller rank.
  next-Stands :
      (rank : String → ℕ) (r x : Run World)
      → Stands r
      → Falls env rank r.session.flow
      → Moves env r (more x)
      → Stands x
        × Falls env rank x.session.flow
        × (rank x.session.current_node_key < rank r.session.current_node_key)
  next-Stands rank r x (alone, a, here) falls (led, same, s, _) = (
    (
      s,
      subst (IsAlone env) (sym same) a,
      subst (λ (g : Flow). is_some (find_node x.session.current_node_key g.nodes) ≡ true) (sym same)
          (a.closed r.session.current_node_key x.session.current_node_key led),
    ),
    subst (Falls env rank) (sym same) falls,
    falls r.session.current_node_key x.session.current_node_key led,
  )

  run_loop-Ends_from :
      (rank : String → ℕ) (fuel : ℕ) (r : Run World)
      → Stands r
      → Falls env rank r.session.flow
      → rank r.session.current_node_key < fuel
      → Ends r (run_loop env fuel r)
  unfolding run_loop
  run_loop-Ends_from rank zero r st falls low = absurd (omega arith)
  run_loop-Ends_from rank (suc fuel) r st falls low =
      by_next (step env r) (step-Moves env r (st.0) (st.1) (st.2)) (run_loop-Ends_from rank fuel)
    where
      shift : (x : Run World) (o : Option (Run World)) → x.failure ≡ r.failure → Ends x o → Ends r o
      shift x none e h = h
      shift x (some y) e (inl h) = inl (h ∙ e)
      shift x (some y) e (inr h) = inr h

      by_next :
          (n : Next World)
          → Moves env r n
          → ((x : Run World)
              → Stands x
              → Falls env rank x.session.flow
              → rank x.session.current_node_key < fuel
              → Ends x (run_loop env fuel x))
          → Ends r (elim n [ more x ↦ run_loop env fuel x | over x ↦ some x ])
      by_next (over x) m rec = m
      by_next (more x) m rec =
          let (st', falls', lower) = next-Stands rank r x st falls m in
          shift x (run_loop env fuel x) (m.3) (rec x st' falls' (omega arith))

  -- From a node of a flow that stands alone and whose nodes lead to smaller ranks, the loop ends,
  -- with more fuel than the rank of the node; and the only failure that it adds is a missing edge.
  pub run_loop-Ends :
      (rank : String → ℕ) (fuel : ℕ) (r : Run World)
      → IsAlone env r.session.flow
      → Falls env rank r.session.flow
      → r.stack ≡ []
      → is_some (find_node r.session.current_node_key r.session.flow.nodes) ≡ true
      → rank r.session.current_node_key < fuel
      → Ends r (run_loop env fuel r)
  run_loop-Ends rank fuel r a falls alone here low =
      run_loop-Ends_from rank fuel r (alone, a, here) falls low

  find_node-found :
      (key : String) (nodes : List FlowNode) (n : FlowNode)
      → In n nodes
      → n.node_key ≡ key
      → is_some (find_node key nodes) ≡ true
  find_node-found key nodes n m e = elim (Option-cases (find_node key nodes)) [
    | inr (x, f) ↦ ap is_some f
    | inl none_there ↦
        let missed = find?-none (λ y. y.node_key == key) nodes n none_there m in
        ground (arith, missed, eq_iff n.node_key key)
  ]

  non_empty-eq : (t key : String) → non_empty t ≡ some key → t ≡ key
  unfolding non_empty
  non_empty-eq t key h = ground arith

  first-found :
      (nodes : List FlowNode) (key : String)
      → elim nodes [ [] ↦ none | n ∷ _ ↦ non_empty n.node_key ] ≡ some key
      → is_some (find_node key nodes) ≡ true
  first-found [] key e = cc
  first-found (n ∷ ns) key e =
      find_node-found key (n ∷ ns) n (inl refl) (non_empty-eq n.node_key key e)

  -- The entry node is a node of the flow.
  find_entry_node-found :
      (flow : Flow) (key : String)
      → find_entry_node flow ≡ some key
      → is_some (find_node key flow.nodes) ≡ true
  unfolding find_entry_node
  find_entry_node-found flow key e = elim (Option-cases (find_type "start" flow.nodes)) [
    | inl none_there ↦ first-found flow.nodes key (rw none_there at e)
    | inr (n, f) ↦ elim (Option-cases (non_empty n.node_key)) [
      | inl blank ↦ first-found flow.nodes key (rw (f, blank) at e)
      | inr (k, g) ↦
          let chosen : k ≡ key = ground (arith, f, g, e) in
          find_node-found key flow.nodes n (find?-In _ flow.nodes f)
            (non_empty-eq n.node_key k g ∙ chosen)
    ]
  ]

  publish-failure : (x : Run World) → (publish env x).failure ≡ x.failure
  unfolding publish
  publish-failure x = ground arith

  -- A flow that has no menu, whose edges and whose nodes' choices by `route:` stay in the flow and
  -- lead to smaller ranks, runs to its end, with more fuel than the rank of its entry node; and it
  -- can fail for nothing but want of an edge.
  pub run_flow-ends :
      (rank : String → ℕ) (fuel : ℕ) (s : CallSession) (w : World) (key : String)
      → IsAlone env s.flow
      → Falls env rank s.flow
      → find_entry_node s.flow ≡ some key
      → rank key < fuel
      → (x : Run World) × (run_flow env fuel s w ≡ some x)
        × ((x.failure ≡ none)
            ⊎ ((at : String) × (type : String) × (result : String) × (x.failure
                  ≡ some (no_edge at type result))))
  unfolding run_flow start_run
  run_flow-ends rank fuel s w key a falls entry low =
      by_loop (run_loop env fuel r) refl
        (run_loop-Ends rank fuel r a falls refl (find_entry_node-found s.flow key entry) low)
    where
      r : Run World
      r = start_run env s w key

      OnlyNoEdge : Run World → Type 0
      OnlyNoEdge x =
          (x.failure ≡ none)
          ⊎ ((at : String) × (type : String) × (result : String) × (x.failure
                ≡ some (no_edge at type result)))

      by_loop :
          (o : Option (Run World))
          → run_loop env fuel r ≡ o
          → Ends r o
          → (x : Run World) × (run_flow env fuel s w ≡ some x) × OnlyNoEdge x
      by_loop none e h = absurd h
      by_loop (some x) e h = (
        publish env x,
        rw (entry, run_flow) (ap (Option.map (publish env)) e),
        rw (publish-failure x) h,
      )
