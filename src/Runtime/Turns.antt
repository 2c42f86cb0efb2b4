-- ===== src/Runtime/Turns.antt =====
-- The ways in which a round of `runFlow` (stasis/src/runtime.ts) goes on after a node has run.
use callytics.Edges.{resolve_next_edge}
use callytics.Edges.Laws.{resolve_next_edge-In}
use callytics.Flow.Load.{Database, load_flow_by_id}
use callytics.NodeExec.{Env}
use callytics.Session.{mark_call_ended}
use callytics.Runtime.{
  Run, Next, Reason, Event, webhook_fired, hung_up, call_failed, call_ended, more, over, after_node,
  route_completed, finish, follow_edge, target_elsewhere, without_edge, dead_end, return_or,
  at_node, fail, to_target, enter_subflow, enter_branch_flow, enter_submenu, hangup_and_wait,
  hang_up, end_session, target_node_not_found, or_text, key_of,
}
use callytics.Routing.{
  find_entry_node, is_post_completion_routable_node, webhook_target_node,
  menu_subflow_target_node_key, menu_branch_subflow_id, menu_subflow_id,
  menu_branch_subflow_id_from_parent_link, routing_edges_excluding_webhook_targets,
  resolve_webhook_edge, webhook_side_effects,
}
use callytics.Flow.{Flow, FlowNode, FlowEdge, find_node}
use mathlib.Core.List.{reverse, reverse-append}
use callytics.Prelude.{
  ℕ, suc, ◌+◌, String, ◌≡◌, refl, ap, ◌∙◌, ◌⊎◌, inl, inr, Bool, true, false, ◌&&◌, ◌||◌, Option,
  none, some, List, [], ◌∷◌, ◌++◌, map, arith, ◌==◌, if◌then◌else◌, Bool-cases, or_else, if-holds,
  option-holds, In, find?-In, In-filter, drop_prefix, is_empty,
}

-- The events that close a call.
abbrev pub is_final : Event → Bool
is_final (webhook_fired t s) = false
is_final hung_up = false
is_final (call_failed f k r) = true
is_final (call_ended f) = true

abbrev pub finals : List Event → ℕ
finals [] = 0
finals (e ∷ es) = if is_final e then suc (finals es) else finals es

-- What a node's completion leaves alone.
pub record Touched {W : Type 0} (r x : Run W) : Type 0 where
  pub flow : x.session.flow ≡ r.session.flow
  pub stack : x.stack ≡ r.stack
  pub status : x.status ≡ r.status
  pub failure : x.failure ≡ r.failure
  pub node_log : x.node_log ≡ r.node_log
  pub open_call : finals x.events ≡ finals r.events

-- A flow that is loaded by some id, and the node at which it is entered from a flow: its entry
-- node, one of its nodes, or, where it has no entry node, the target of an edge of that flow.
abbrev pub IsEntry : Database → Flow → Flow → String → Type 0
IsEntry db flow sub key =
    ((id : ℕ) × (load_flow_by_id db id ≡ some sub))
    × ((find_entry_node sub ≡ some key)
        ⊎ ((n : FlowNode) × In n sub.nodes × (n.node_key ≡ key))
        ⊎ ((find_entry_node sub ≡ none)
            × ((e : FlowEdge) × In e flow.edges × (e.target_node_key ≡ key))))

pub data Turn {W : Type 0} (db : W → Database) (node : FlowNode) (r : Run W) : Next W → Type 0 where
  goes : (key : String) (x : Run W) → Touched r x → Turn db node r (more (at_node key x))
  ends : (x : Run W) → Touched r x → Turn db node r (over x)
  fails : (reason : Reason) (x : Run W) → Touched r x → Turn db node r (over (fail reason x))
  returns : (x : Run W) → Touched r x → Turn db node r (return_or (λ y. y) x)
  returns_or_fails :
      (reason : Reason) (x : Run W) → Touched r x → Turn db node r (return_or (fail reason) x)
  enters :
      (sub : Flow) (key : String) (x : Run W)
      → (node.type == "menu") ≡ true
      → IsEntry (db x.world) x.session.flow sub key
      → Touched r x
      → Turn db node r (enter_subflow node sub key x)

finals-append : (xs ys : List Event) → finals (xs ++ ys) ≡ finals xs + finals ys
finals-append [] ys = omega arith
finals-append (webhook_fired t s ∷ xs) ys = finals-append xs ys
finals-append (hung_up ∷ xs) ys = finals-append xs ys
finals-append (call_failed f k r ∷ xs) ys = omega (arith, finals-append xs ys)
finals-append (call_ended f ∷ xs) ys = omega (arith, finals-append xs ys)

finals-webhooks :
    (key : String) (ts : List String) → finals (reverse (map (λ t. webhook_fired t key) ts)) ≡ 0
finals-webhooks key [] = refl
finals-webhooks key (t ∷ ts) =
    let front = reverse (map (λ u. webhook_fired u key) ts) in
    ap finals (reverse-append (webhook_fired t key ∷ []) (map (λ u. webhook_fired u key) ts))
    ∙ omega (arith, finals-append front (webhook_fired t key ∷ []), finals-webhooks key ts)

module _ (env : Env) (n : FlowNode) where
  open env use {World}

  module _ (r : Run World) where
    untouched : Touched r r
    untouched = record {
      flow = refl;
      stack = refl;
      status = refl;
      failure = refl;
      node_log = refl;
      open_call = refl;
    }

    hang_up-Touched : (x : Run World) → Touched r x → Touched r (hang_up env x)
    unfolding hang_up
    hang_up-Touched x t = record {
      flow = t.flow;
      stack = t.stack;
      status = t.status;
      failure = t.failure;
      node_log = t.node_log;
      open_call = t.open_call;
    }

    fired-Touched :
        (x : Run World) (key : String) (ts : List String)
        → Touched r x
        → Touched r (record x { events = reverse (map (λ t. webhook_fired t key) ts) ++ x.events })
    fired-Touched x key ts t = record {
      flow = t.flow;
      stack = t.stack;
      status = t.status;
      failure = t.failure;
      node_log = t.node_log;
      open_call = omega (
        arith,
        finals-append (reverse (map (λ (u : String). webhook_fired u key) ts)) x.events,
        finals-webhooks key ts,
        t.open_call,
      );
    }

    hangup_and_wait-Touched : (x : Run World) → Touched r x → Touched r (hangup_and_wait env x)
    unfolding hangup_and_wait mark_call_ended
    hangup_and_wait-Touched x t = record {
      flow = ended (env.stasis_end (env.hangup x.world)) ∙ t.flow;
      stack = t.stack;
      status = t.status;
      failure = t.failure;
      node_log = t.node_log;
      open_call = t.open_call;
    }
      where
        ended : (o : Option ℕ) → (end_session env x.session o).flow ≡ x.session.flow
        ended none = refl
        ended (some at) = refl

    dead_end-Turn :
        (result : String) (x : Run World)
        → Touched r x
        → Turn env.database n r (dead_end env n result x)
    unfolding dead_end
    dead_end-Turn result x t =
        if-holds (Turn env.database n r) (n.type == "queue_login" && result == "authenticated")
          (λ _. ends x t)
          λ _.
            if-holds (Turn env.database n r) (n.type == "play_audio")
              (λ _. ends _ (hang_up-Touched x t)) λ _. returns_or_fails _ x t

    enter_branch_flow-Turn :
        (id : ℕ) (x : Run World)
        → (n.type == "menu") ≡ true
        → Touched r x
        → Turn env.database n r (enter_branch_flow env n id x)
    unfolding enter_branch_flow
    enter_branch_flow-Turn id x menu t =
        option-holds (Turn env.database n r) (load_flow_by_id (env.database x.world) id)
          (λ _. fails _ x t)
          λ sub loaded.
            option-holds (Turn env.database n r) (find_entry_node sub) (λ _. fails _ x t)
              (λ key entry. enters sub key x menu ((id, loaded), inl entry) t)

    enter_submenu-Turn :
        (target : String) (x : Run World)
        → (n.type == "menu") ≡ true
        → Touched r x
        → Turn env.database n r (enter_submenu env n target x)
    unfolding enter_submenu
    enter_submenu-Turn target x menu t =
        option-holds (Turn env.database n r)
          (menu_subflow_id (env.database x.world) x.session.flow.version_id n.node_key)
          (λ _. fails _ x t)
          λ id _.
            option-holds (Turn env.database n r) (load_flow_by_id (env.database x.world) id)
              (λ _. fails _ x t)
              λ sub loaded.
                option-holds (Turn env.database n r) (find_node target sub.nodes) (λ _. fails _ x t)
                  (λ m found.
                    enters sub m.node_key x menu
                      ((id, loaded), inr (inl (m, find?-In _ sub.nodes found, refl))) t)

    without_edge-Turn :
        (result : String) (x : Run World)
        → Touched r x
        → Turn env.database n r (without_edge env n result x)
    unfolding without_edge
    without_edge-Turn result x t =
        if-holds (Turn env.database n r) (n.type == "menu")
          (λ menu.
            option-holds (Turn env.database n r)
              (or_else (menu_branch_subflow_id n.config result) (
                menu_branch_subflow_id_from_parent_link (env.database x.world) x.session.flow.id
                  n.node_key result))
              (λ _.
                option-holds (Turn env.database n r) (menu_subflow_target_node_key n.config result)
                  (λ _. dead_end-Turn result x t) (λ target _. enter_submenu-Turn target x menu t))
              (λ id _. enter_branch_flow-Turn id x menu t))
          (λ _. dead_end-Turn result x t)

    -- The node of a sub-flow that an edge's target names, its entry node, or the target itself.
    target-IsEntry :
        (x : Run World) (e : FlowEdge) (sub : Flow)
        → ((id : ℕ) × (load_flow_by_id (env.database x.world) id ≡ some sub))
        → In e x.session.flow.edges
        → IsEntry (env.database x.world) x.session.flow sub (
            or_text env
              (or_else (key_of env (find_node e.target_node_key sub.nodes)) (find_entry_node sub))
              e.target_node_key)
    target-IsEntry x e sub loaded inside =
        (loaded, by_node (find_node e.target_node_key sub.nodes) refl)
      where
        At : String → Type 0
        At key =
            (find_entry_node sub ≡ some key)
            ⊎ ((m : FlowNode) × In m sub.nodes × (m.node_key ≡ key))
            ⊎ ((find_entry_node sub ≡ none)
                × ((y : FlowEdge) × In y x.session.flow.edges × (y.target_node_key ≡ key)))

        by_entry :
            (o : Option String) → find_entry_node sub ≡ o → At (or_text env o e.target_node_key)
        by_entry none none_there = inr (inr (none_there, (e, inside, refl)))
        by_entry (some key) entry = inl entry

        by_node :
            (o : Option FlowNode)
            → find_node e.target_node_key sub.nodes ≡ o
            → At (or_text env (or_else (key_of env o) (find_entry_node sub)) e.target_node_key)
        by_node none missing = by_entry (find_entry_node sub) refl
        by_node (some m) found = elim (Bool-cases (is_empty m.node_key)) [
          | inl blank ↦ rw blank (by_entry (find_entry_node sub) refl)
          | inr named ↦ rw named (inr (inl (m, find?-In _ sub.nodes found, refl)))
        ]

    target_elsewhere-Turn :
        (e : FlowEdge) (x : Run World)
        → In e x.session.flow.edges
        → Touched r x
        → Turn env.database n r (target_elsewhere env n e x)
    unfolding target_elsewhere
    target_elsewhere-Turn e x inside t = elim (Bool-cases (n.type == "menu")) [
      | inr f ↦ rw (f, target_elsewhere) (returns_or_fails _ x t)
      | inl menu ↦
          rw (menu, target_elsewhere)
            (option-holds (Turn env.database n r)
              (menu_subflow_id (env.database x.world) x.session.flow.version_id n.node_key)
              (λ _. returns_or_fails _ x t)
              λ id _.
                option-holds (Turn env.database n r) (load_flow_by_id (env.database x.world) id)
                  (λ _. returns_or_fails _ x t)
                  (λ sub loaded.
                    enters sub _ x menu (target-IsEntry x e sub (id, loaded) inside) t))
    ]

    to_target-Turn :
        (flow : Flow) (e : FlowEdge) (missing : Run World → Next World) (x : Run World)
        → Touched r x
        → Turn env.database n r (missing x)
        → Turn env.database n r (to_target env flow e missing x)
    to_target-Turn flow e missing x t m =
        option-holds (Turn env.database n r) (find_node e.target_node_key flow.nodes) (λ _. m)
          (λ target _. goes target.node_key x t)

    follow_edge-Turn :
        (result : String) (x : Run World)
        → Touched r x
        → Turn env.database n r (follow_edge env n result x)
    unfolding follow_edge routing_edges_excluding_webhook_targets
    follow_edge-Turn result x t =
        let key = x.session.current_node_key in
        let flow = x.session.flow in
        let t' = fired-Touched x key (webhook_side_effects key flow) t in
        option-holds (Turn env.database n r)
          (resolve_next_edge key n.type result (routing_edges_excluding_webhook_targets key flow))
          (λ _. without_edge-Turn result _ t')
          (λ e chosen.
            let (routed, _) = resolve_next_edge-In key n.type result _ chosen in
            let (inside, _) = In-filter _ flow.edges e routed in
            to_target-Turn flow e (target_elsewhere env n e) _ t'
              (target_elsewhere-Turn e _ inside t'))

    route_completed-Turn :
        (result : String) (x : Run World)
        → Touched r x
        → Turn env.database n r (route_completed env n result x)
    unfolding route_completed finish
    route_completed-Turn result x t =
        option-holds (Turn env.database n r)
          (resolve_next_edge n.node_key n.type result
            (routing_edges_excluding_webhook_targets n.node_key x.session.flow))
          (λ _.
            option-holds (Turn env.database n r)
              (webhook_target_node (resolve_webhook_edge n.node_key n.type result x.session.flow)
                x.session.flow)
              (λ _. returns _ (hang_up-Touched x t))
              (λ w _. ends _ (fired w.node_key (hangup_and_wait-Touched x t))))
          (λ e _.
            to_target-Turn x.session.flow e
              (λ y. over (fail (target_node_not_found e.target_node_key) y)) x t (fails _ x t))
      where
        fired :
            (key : String) {y : Run World}
            → Touched r y
            → Touched r (record y { events = webhook_fired key n.node_key ∷ y.events })
        fired key u = record {
          flow = u.flow;
          stack = u.stack;
          status = u.status;
          failure = u.failure;
          node_log = u.node_log;
          open_call = u.open_call;
        }

  -- Whatever a node returns, the round goes on in one of these ways.
  pub after_node-Turn :
      (result : String) (r : Run World) → Turn env.database n r (after_node env n (result, r))
  unfolding after_node finish
  after_node-Turn result r =
      if-holds (Turn env.database n r) (result == "done" && is_post_completion_routable_node n.type)
        (λ _. route_completed-Turn r result r (untouched r))
        λ _.
          if-holds (Turn env.database n r) (result == "done" || result == "hangup")
            (λ _. returns _ (hang_up-Touched r r (untouched r)))
            λ _.
              option-holds (Turn env.database n r) (drop_prefix "route:" result)
                (λ _. follow_edge-Turn r result r (untouched r)) (λ key _. goes key r (untouched r))
