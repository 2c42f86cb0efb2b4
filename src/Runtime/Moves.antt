-- ===== src/Runtime/Moves.antt =====
-- Rounds of `runFlow` (stasis/src/runtime.ts) in a flow that stands alone: its edges, and the choices
-- of its nodes by `route:`, lead to its own nodes, and it has no menu.
use callytics.Edges.{resolve_next_edge}
use callytics.Edges.Laws.{resolve_next_edge-In}
use callytics.Flow.{Flow, FlowNode, FlowEdge, find_node, find_node-key}
use callytics.NodeExec.{Env, execute_node}
use callytics.Routing.{
  is_post_completion_routable_node, webhook_target_node, routing_edges_excluding_webhook_targets,
}
use callytics.Runtime.{
  target_node_not_found, run_node, step, route_completed, after_node, target_elsewhere, follow_edge,
  without_edge, Run, Next, no_edge, more, over, finish, dead_end, return_or, return_to_parent_flow,
  at_node, fail, to_target,
}
use callytics.Session.{CallSession}
use callytics.Prelude.{
  String, ◌≡◌, refl, sym, ◌⊎◌, inl, inr, true, false, ◌&&◌, ◌||◌, some, [], ◌==◌, Option-cases,
  is_some, if-holds, option-holds, All, In, find?-In, In-filter, All-In, drop_prefix,
}

-- A node of the flow that runs in it may answer with the key of another by `route:`.
pub record Routes (env : Env) (flow : Flow) (source target : String) : Type 0 where
  pub node : FlowNode
  pub inside : In node flow.nodes
  pub own_key : node.node_key ≡ source
  pub session : CallSession
  pub world : env.World
  pub in_flow : session.flow ≡ flow
  pub at_node : session.current_node_key ≡ source
  pub chosen : drop_prefix "route:" (execute_node env node session world).0 ≡ some target

-- One of the flow's nodes leads to another, by an edge or by `route:`.
abbrev pub Leads : Env → Flow → String → String → Type 0
Leads env flow source target =
    ((e : FlowEdge) × In e flow.edges × (e.source_node_key ≡ source) × (e.target_node_key ≡ target))
    ⊎ Routes env flow source target

pub record IsAlone (env : Env) (flow : Flow) : Type 0 where
  pub closed :
      (source target : String)
      → Leads env flow source target
      → is_some (find_node target flow.nodes) ≡ true
  pub no_menu : All (λ n. (n.type == "menu") ≡ false) flow.nodes

module _ (env : Env) where
  open env use {World}

  -- A round either goes where the current node leads, or ends the loop: with the failure that was
  -- there before, or for want of an edge.
  abbrev pub Moves : Run World → Next World → Type 0
  Moves r (more x) =
      Leads env r.session.flow r.session.current_node_key x.session.current_node_key
      × (x.session.flow ≡ r.session.flow)
      × (x.stack ≡ [])
      × (x.failure ≡ r.failure)
  Moves r (over x) =
      (x.failure ≡ r.failure)
      ⊎ ((key : String) × (type : String) × (result : String) × (x.failure
            ≡ some (no_edge key type result)))

  module _ (r : Run World) (alone : r.stack ≡ []) where
    finish-Moves : (x : Run World) → x.stack ≡ [] → x.failure ≡ r.failure → Moves r (finish env x)
    unfolding finish return_or return_to_parent_flow
    finish-Moves x s f = rw (s, return_to_parent_flow) (inl f)

    return-Moves :
        (k : Run World → Run World) (x : Run World)
        → x.stack ≡ []
        → Moves r (over (k (record x { stack = [] })))
        → Moves r (return_or k x)
    unfolding return_or return_to_parent_flow
    return-Moves k x s h = rw (s, return_to_parent_flow) h

    dead_end-Moves :
        (n : FlowNode) (result : String) (x : Run World)
        → x.stack ≡ []
        → x.failure ≡ r.failure
        → Moves r (dead_end env n result x)
    unfolding dead_end return_or return_to_parent_flow fail
    dead_end-Moves n result x s f =
        if-holds (Moves r) (n.type == "queue_login" && result == "authenticated") (λ _. inl f)
          λ _.
            if-holds (Moves r) (n.type == "play_audio") (λ _. inl f)
              λ _.
                return-Moves (fail (no_edge n.node_key n.type result)) x s
                  (inr (n.node_key, n.type, result, refl))

    module _ (a : IsAlone env r.session.flow) (n : FlowNode)
        (found : find_node r.session.current_node_key r.session.flow.nodes ≡ some n) where
      key_of_node : n.node_key ≡ r.session.current_node_key
      key_of_node = find_node-key _ r.session.flow.nodes found

      no_menu_here : (n.type == "menu") ≡ false
      no_menu_here =
          All-In (λ m. (m.type == "menu") ≡ false) r.session.flow.nodes (a.no_menu)
            (find?-In (λ m. m.node_key == r.session.current_node_key) r.session.flow.nodes found)

      -- The target of an edge that routing selects is a node of the flow.
      to_target-Moves :
          (type result : String) (e : FlowEdge) (missing : Run World → Next World) (x : Run World)
          → resolve_next_edge r.session.current_node_key type result
              (routing_edges_excluding_webhook_targets r.session.current_node_key r.session.flow)
            ≡ some e
          → x.session.flow ≡ r.session.flow
          → x.stack ≡ []
          → x.failure ≡ r.failure
          → Moves r (to_target env r.session.flow e missing x)
      unfolding at_node routing_edges_excluding_webhook_targets
      to_target-Moves type result e missing x chosen same s f =
          let out = resolve_next_edge-In r.session.current_node_key type result _ chosen in
          let inside = (In-filter _ r.session.flow.edges e (out.0)).0 in
          let led : Leads env r.session.flow r.session.current_node_key e.target_node_key =
            inl (e, inside, out.1, refl) in
          let there = a.closed r.session.current_node_key e.target_node_key led in
          option-holds (Moves r) (find_node e.target_node_key r.session.flow.nodes)
            (λ none_there. cc)
            (λ m at.
              (inl (e, inside, out.1, sym (find_node-key _ r.session.flow.nodes at)), same, s, f))

      without_edge-Moves :
          (result : String) (x : Run World)
          → x.stack ≡ []
          → x.failure ≡ r.failure
          → Moves r (without_edge env n result x)
      unfolding without_edge
      without_edge-Moves result x s f = rw no_menu_here (dead_end-Moves n result x s f)

      follow_edge-Moves :
          (result : String) (x : Run World)
          → x.session.flow ≡ r.session.flow
          → x.session.current_node_key ≡ r.session.current_node_key
          → x.stack ≡ []
          → x.failure ≡ r.failure
          → Moves r (follow_edge env n result x)
      unfolding follow_edge
      follow_edge-Moves result x same key s f =
          rw (same, key)
            (option-holds (Moves r)
              (resolve_next_edge r.session.current_node_key n.type result
                (routing_edges_excluding_webhook_targets r.session.current_node_key r.session.flow))
              (λ _. without_edge-Moves result _ s f)
              (λ e chosen.
                to_target-Moves n.type result e (target_elsewhere env n e) _ chosen refl s f))

      route_completed-Moves :
          (result : String) (x : Run World)
          → x.session.flow ≡ r.session.flow
          → x.session.current_node_key ≡ r.session.current_node_key
          → x.stack ≡ []
          → x.failure ≡ r.failure
          → Moves r (route_completed env n result x)
      unfolding route_completed fail
      route_completed-Moves result x same key s f =
          rw (same, key_of_node)
            (option-holds (Moves r)
              (resolve_next_edge r.session.current_node_key n.type result
                (routing_edges_excluding_webhook_targets r.session.current_node_key r.session.flow))
              (λ _.
                option-holds (Moves r) (webhook_target_node _ _) (λ _. finish-Moves _ s f)
                  (λ w _. inl f))
              (λ e chosen.
                to_target-Moves n.type result e
                  (λ y. over (fail (target_node_not_found e.target_node_key) y))
                  (record x { session = record x.session { flow = r.session.flow } }) chosen refl s
                  f))

      after_node-Moves :
          (result : String) (x : Run World)
          → ((key : String)
              → drop_prefix "route:" result ≡ some key
              → Routes env r.session.flow r.session.current_node_key key)
          → x.session.flow ≡ r.session.flow
          → x.session.current_node_key ≡ r.session.current_node_key
          → x.stack ≡ []
          → x.failure ≡ r.failure
          → Moves r (after_node env n (result, x))
      unfolding after_node at_node
      after_node-Moves result x routes same key s f =
          if-holds (Moves r) (result == "done" && is_post_completion_routable_node n.type)
            (λ _. route_completed-Moves result x same key s f)
            λ _.
              if-holds (Moves r) (result == "done" || result == "hangup") (λ _. finish-Moves x s f)
                (λ _.
                  option-holds (Moves r) (drop_prefix "route:" result)
                    (λ _. follow_edge-Moves result x same key s f)
                    (λ target e. (inr (routes target e), same, s, f)))

    -- In a flow that stands alone, a round from one of its nodes goes where it leads or ends.
    pub step-Moves :
        IsAlone env r.session.flow
        → is_some (find_node r.session.current_node_key r.session.flow.nodes) ≡ true
        → Moves r (step env r)
    unfolding step run_node
    step-Moves a h =
        elim (Option-cases (find_node r.session.current_node_key r.session.flow.nodes)) [
          | inl e ↦ absurd (cc)
          | inr (n, e) ↦
              let x = run_node env n (record r { last_node_key = r.session.current_node_key }) in
              rw (e, step)
                (after_node-Moves a n e (x.0) (x.1)
                  (λ key chosen. record {
                    node = n;
                    inside = find?-In _ r.session.flow.nodes e;
                    own_key = find_node-key _ r.session.flow.nodes e;
                    session = r.session;
                    world = r.world;
                    in_flow = refl;
                    at_node = refl;
                    chosen = chosen;
                  })
                  refl refl alone refl)
        ]
