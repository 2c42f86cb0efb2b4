-- ===== src/Runtime/Tests.antt =====
-- Runs of a small flow, and the theorems about `runFlow` at concrete calls.
use callytics.NodeExec.{last_node_error}
use callytics.Flow.{find_node, Flow, FlowNode, FlowEdge}
use callytics.Js.{Fields}
use callytics.Edges.{resolve_next_edge}
use mathlib.Core.Option
use callytics.Session.{CallSession, create_session, lookup}
use callytics.Runtime.Moves.{IsAlone, Leads}
use callytics.Runtime.Termination.{Falls, run_flow-ends}
use mathlib.Core.List.{head?}
use callytics.Routing.{
  find_entry_node, routing_edges_excluding_webhook_targets, is_post_completion_routable_node,
}
use callytics.Runtime.{
  run_flow, run_loop, start_run, Run, Next, more, over, hung_up, no_edge, step, completed,
  call_ended,
}
use callytics.NodeExec.{Env, returned, raised, execute_node, run_executor}
use callytics.Runtime.Log.{all_exited, status_of, run_flow-closed}
use callytics.Runtime.Turns.{finals}
use callytics.Runtime.Frames.{IsMenuFrame, NextMove, step-StackMove, run_loop-IsMenuFrame}
use callytics.Runtime.Outcomes.{raised_row, here, round, run_flow_raised}
use callytics.Edges.Laws.{
  resolve_next_edge-In, first_least, edge_rank, resolve_next_edge-first_least,
}
use callytics.Prelude.{
  ℕ, ◌+◌, ◌<◌, String, ◌≡◌, refl, sym, ◌∙◌, ◌⊎◌, inl, inr, true, Option, none, some, List, [], ◌∷◌,
  arith, ◌==◌, if◌then◌else◌, is_some, All, In, All-In, trim, drop_prefix,
}

abbrev node : String → String → FlowNode
node key type = record { node_key = key; type = type; label = ""; config = Fields.end }

abbrev edge : String → String → Option String → FlowEdge
edge source target condition = record {
  source_node_key = source;
  target_node_key = target;
  branch_key = "default";
  condition = condition;
}

-- Start, a prompt, and a hang-up.
abbrev greeting : Flow
greeting = record {
  id = 1;
  name = "Greeting";
  version_id = 3;
  nodes = node "s" "start" ∷ node "p" "play_audio" ∷ node "h" "hangup" ∷ [];
  edges = edge "s" "p" none ∷ edge "p" "h" none ∷ [];
}

abbrev two_edges : List FlowEdge
two_edges = edge "m" "a" (some "1") ∷ edge "m" "b" (some "invalid") ∷ []

-- The world counts hang-ups.
abbrev playing : Env
playing = record {
  World = ℕ;
  database = λ w. record { call_flows = []; flow_nodes = []; flow_edges = [] };
  executor = λ n s w. (returned "default", s.variables, w);
  hangup = λ w. w + 1;
  stasis_end = λ w. none;
}

abbrev breaking : Env
breaking = record {
  World = ℕ;
  database = λ w. record { call_flows = []; flow_nodes = []; flow_edges = [] };
  executor = λ n s w. (raised "no such file", s.variables, w);
  hangup = λ w. w + 1;
  stasis_end = λ w. none;
}

abbrev next_of : Run ℕ → Next ℕ → Run ℕ
next_of r (more x) = x
next_of r (over x) = r

call : CallSession
unfolding create_session
call = create_session "chan" "100" greeting "s" 0

abbrev last_of : Run ℕ → Option (Run ℕ) → Run ℕ
last_of r none = r
last_of r (some x) = x

runs : Option.map (λ r. r.world) (run_flow playing 4 call 0) ≡ some 2
unfolding run_flow call find_entry_node step execute_node resolve_next_edge
    routing_edges_excluding_webhook_targets is_post_completion_routable_node
runs = refl

-- A hunt that nobody answers goes on at the node `h`; the flow has no edge from one to the other.
abbrev hunting : Env
hunting = record {
  World = ℕ;
  database = λ w. record { call_flows = []; flow_nodes = []; flow_edges = [] };
  executor =
      λ n s w. (returned (if n.type == "hunt" then "route:h" else "default"), s.variables, w);
  hangup = λ w. w + 1;
  stasis_end = λ w. none;
}

abbrev hunt_flow : Flow
hunt_flow = record {
  id = 7;
  name = "Hunt";
  version_id = 9;
  nodes = node "s" "start" ∷ node "p" "hunt" ∷ node "h" "hangup" ∷ [];
  edges = edge "s" "p" none ∷ [];
}

hunt_call : CallSession
unfolding create_session
hunt_call = create_session "chan" "100" hunt_flow "s" 0

abbrev OnlyHunt : FlowNode → Type 0
OnlyHunt n =
    (s : CallSession) (w : ℕ) (target : String)
    → drop_prefix "route:" (execute_node hunting n s w).0 ≡ some target
    → (n.node_key ≡ "p") × (target ≡ "h")

hunt_nodes-OnlyHunt : All OnlyHunt hunt_flow.nodes
unfolding execute_node
hunt_nodes-OnlyHunt = (
  (λ s w target e. absurd (cc e)),
  ((λ s w target e. (refl, cc)), ((λ s w target e. absurd (cc e)), tt)),
)

-- The two ways there are in the flow.
abbrev IsWay : String → String → Type 0
IsWay source target = ((source ≡ "s") × (target ≡ "p")) ⊎ ((source ≡ "p") × (target ≡ "h"))

hunt_flow-IsWay :
    (source target : String) → Leads hunting hunt_flow source target → IsWay source target
hunt_flow-IsWay source target (inl (e, inl same, from, to)) = inl (cc, cc)
hunt_flow-IsWay source target (inl (e, inr m, from, to)) = absurd m
hunt_flow-IsWay source target (inr r) =
    let (named, chosen) =
      All-In OnlyHunt hunt_flow.nodes hunt_nodes-OnlyHunt r.inside r.session r.world target
        r.chosen in
    inr (sym r.own_key ∙ named, chosen)

hunt_flow-IsAlone : IsAlone hunting hunt_flow
hunt_flow-IsAlone = record {
  closed = λ source target led. by_way source target (hunt_flow-IsWay source target led);
  no_menu = (refl, (refl, (refl, tt)));
}
  where
    by_way :
        (source target : String)
        → IsWay source target
        → is_some (find_node target hunt_flow.nodes) ≡ true
    by_way source target (inl (s, t)) = rw t refl
    by_way source target (inr (s, t)) = rw t refl

abbrev depth : String → ℕ
depth key = if key == "s" then 2 else if key == "p" then 1 else 0

hunt_flow-Falls : Falls hunting depth hunt_flow
hunt_flow-Falls source target led = by_way (hunt_flow-IsWay source target led)
  where
    by_way : IsWay source target → depth target < depth source
    by_way (inl (s, t)) = rw (s) (rw t (omega arith))
    by_way (inr (s, t)) = rw (s) (rw t (omega arith))

run_flow-ends_example :
    (x : Run ℕ) × (run_flow hunting 3 hunt_call 0 ≡ some x)
    × ((x.failure ≡ none)
        ⊎ ((at : String) × (type : String) × (result : String) × (x.failure
              ≡ some (no_edge at type result))))
unfolding hunt_call find_entry_node
run_flow-ends_example =
    run_flow-ends hunting depth 3 hunt_call 0 "s" hunt_flow-IsAlone hunt_flow-Falls refl
      (omega arith)

-- The run of that call, and what it has written.
ended_run : Run ℕ
unfolding run_flow call find_entry_node step execute_node resolve_next_edge
    routing_edges_excluding_webhook_targets is_post_completion_routable_node
ended_run = last_of (start_run playing call 0 "s") (run_flow playing 4 call 0)

run_flow-closed_example :
    (all_exited ended_run.node_log ≡ true)
    × (finals ended_run.events ≡ 1)
    × (ended_run.status ≡ status_of ended_run.failure)
unfolding ended_run
run_flow-closed_example = run_flow-closed playing 4 call 0 ended_run refl

-- The first round of the greeting goes from the start node to the prompt, whose executor throws.
at_prompt : Run ℕ
unfolding call find_entry_node step execute_node resolve_next_edge
    routing_edges_excluding_webhook_targets is_post_completion_routable_node
at_prompt = next_of (start_run breaking call 0 "s") (step breaking (start_run breaking call 0 "s"))

run_flow_raised_example :
    (x : Run ℕ) × (run_flow breaking 2 call 0 ≡ some x)
    × (x.status ≡ completed)
    × (x.failure ≡ none)
    × (x.events ≡ call_ended 1 ∷ hung_up ∷ [])
    × (head? x.node_log ≡ some (raised_row breaking 1 (node "p" "play_audio") "no such file"))
    × (lookup last_node_error x.session.variables ≡ none)
unfolding call find_entry_node run_executor at_prompt step execute_node resolve_next_edge
    routing_edges_excluding_webhook_targets is_post_completion_routable_node start_run lookup trim
    callytics.Routing.webhook_side_effects
run_flow_raised_example =
    run_flow_raised breaking 1 0 call 0 "s" at_prompt (node "p" "play_audio") "no such file" [] 0
      refl (round 0 _ at_prompt here refl) refl refl refl refl

resolve_next_edge-first_least_example :
    resolve_next_edge "m" "get_digits" "7" two_edges
    ≡ first_least (edge_rank "get_digits" true "7") two_edges
resolve_next_edge-first_least_example = resolve_next_edge-first_least "m" "get_digits" "7" two_edges

resolve_next_edge-In_example :
    In (edge "m" "b" (some "invalid")) two_edges × (◌≡◌ {A = String} "m" "m")
unfolding resolve_next_edge
resolve_next_edge-In_example = resolve_next_edge-In "m" "get_digits" "7" two_edges refl

-- A menu whose branch 2 has a flow of its own.
abbrev menu_flow : Flow
menu_flow = record {
  id = 5;
  name = "Main";
  version_id = 6;
  nodes = node "m" "menu" ∷ [];
  edges = [];
}

menu_run : Run ℕ
menu_run = start_run playing (record call { flow = menu_flow }) 0 "m"

step-StackMove_example : NextMove playing menu_run (step playing menu_run)
step-StackMove_example = step-StackMove playing menu_run

-- The greeting as the menu's sub-flow.
sub_run : Run ℕ
sub_run = record (start_run playing call 0 "s") {
  stack = record { flow = menu_flow; menu_node_key = "m" } ∷ [];
}

sub_end : Run ℕ
unfolding run_loop call sub_run step execute_node resolve_next_edge
    routing_edges_excluding_webhook_targets is_post_completion_routable_node
sub_end = last_of sub_run (run_loop playing 4 sub_run)

run_loop-IsMenuFrame_example : All IsMenuFrame sub_end.stack
unfolding sub_end start_run
run_loop-IsMenuFrame_example =
    run_loop-IsMenuFrame playing 4 sub_run sub_end ((node "m" "menu", inl refl, refl, refl), tt)
      refl
