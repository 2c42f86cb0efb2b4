-- ===== src/Routing.antt =====
-- stasis/src/runtime.ts: the helpers of `runFlow` that look up entry nodes, webhook targets and
-- the sub-flows of menus.
use callytics.Edges.{resolve_next_edge}
use callytics.Flow.{Flow, FlowNode, FlowEdge, find_node, find_type}
use callytics.Flow.Load.{Database}
use callytics.Js.{Fields, obj, get, text_of, positive_id}
use callytics.Prelude.{
  ℕ, String, Bool, false, not, ◌&&◌, ◌||◌, Option, none, some, List, [], ◌∷◌, map, ◌==◌, leb, eqb,
  if◌then◌else◌, or_else, is_some, find?, filter, trim, is_empty,
}

unfoldable pub non_empty : String → Option String
non_empty s = if is_empty s then none else some s

-- `flow.nodes.find(start)?.nodeKey || flow.nodes[0]?.nodeKey || null`
unfoldable pub find_entry_node : Flow → Option String
unfolding non_empty
find_entry_node flow =
    or_else (elim (find_type "start" flow.nodes) [ none ↦ none | some n ↦ non_empty n.node_key ])
      (elim flow.nodes [ [] ↦ none | n ∷ _ ↦ non_empty n.node_key ])

-- `new Map(nodes.map((n) => [n.nodeKey, n])).get(key)`: the last node of a key.
unfoldable pub map_get : String → List FlowNode → Option FlowNode
map_get key [] = none
map_get key (n ∷ ns) = or_else (map_get key ns) (if n.node_key == key then some n else none)

unfoldable pub targets_webhook : Flow → FlowEdge → Bool
unfolding map_get
targets_webhook flow e = elim (map_get e.target_node_key flow.nodes) [
  | none ↦ false
  | some n ↦ n.type == "webhook"
]

unfoldable pub routing_edges_excluding_webhook_targets : String → Flow → List FlowEdge
unfolding targets_webhook
routing_edges_excluding_webhook_targets key flow =
    filter (λ e. e.source_node_key == key && not (targets_webhook flow e)) flow.edges

unfoldable pub resolve_webhook_edge : String → String → String → Flow → Option FlowEdge
unfolding targets_webhook
resolve_webhook_edge key type result flow =
    resolve_next_edge key type result
      (filter (λ e. e.source_node_key == key && targets_webhook flow e) flow.edges)

unfoldable pub webhook_target_node : Option FlowEdge → Flow → Option FlowNode
webhook_target_node none flow = none
webhook_target_node (some e) flow = elim (find_node e.target_node_key flow.nodes) [
  | none ↦ none
  | some n ↦ if n.type == "webhook" then some n else none
]

-- The webhooks that an ordinary completion of a node fires, in the order of the edges.
unfoldable pub webhook_side_effects : String → Flow → List String
unfolding targets_webhook
webhook_side_effects key flow =
    if is_some (map_get key flow.nodes)
    then map (λ e. e.target_node_key)
        (filter (λ e. e.source_node_key == key && targets_webhook flow e) flow.edges)
    else []

unfoldable pub is_post_completion_routable_node : String → Bool
is_post_completion_routable_node type =
    type == "voicemail" || type == "callback" || type == "transfer" || type == "hunt"

-- A menu's `submenu_branch_targets[result]`; an object is what has keys.
unfoldable pub menu_subflow_target_node_key : Fields → String → Option String
unfolding non_empty text_of get trim
menu_subflow_target_node_key config result = elim (get config "submenu_branch_targets") [
  | obj mapping ↦ non_empty (trim (text_of (get mapping result)))
  | _ ↦ none
]

-- A menu's `submenu_branch_flows[result].flowId`.
unfoldable pub menu_branch_subflow_id : Fields → String → Option ℕ
unfolding positive_id get
menu_branch_subflow_id config result = elim (get config "submenu_branch_flows") [
  | obj flows ↦ elim (get flows result) [ obj entry ↦ positive_id (get entry "flowId") | _ ↦ none ]
  | _ ↦ none
]

positive : Option ℕ → Option ℕ
positive none = none
positive (some n) = if eqb n 0 then none else some n

-- The row of `flow_nodes` for a version and a key.
unfoldable pub menu_subflow_id : Database → ℕ → String → Option ℕ
unfolding positive
menu_subflow_id db version key =
    elim (find? (λ r. eqb r.flow_version_id version && r.node_key == key) db.flow_nodes) [
      | none ↦ none
      | some r ↦ positive r.subflow_id
    ]

abbrev is_num : Option ℕ → ℕ → Bool
is_num none n = false
is_num (some m) n = eqb m n

abbrev is_text : Option String → String → Bool
is_text none t = false
is_text (some s) t = s == t

least_id : List ℕ → Option ℕ
least_id [] = none
least_id (n ∷ ns) = elim (least_id ns) [ none ↦ some n | some m ↦ some (if leb n m then n else m) ]

-- The published flow of least id that names the menu's branch as its parent.
unfoldable pub menu_branch_subflow_id_from_parent_link : Database → ℕ → String → String → Option ℕ
unfolding least_id positive
menu_branch_subflow_id_from_parent_link db flow_id key branch = positive (
    least_id (
      map (λ r. r.id)
        (filter
          (λ r.
            r.is_published
            && is_num r.parent_flow_id flow_id
            && is_text r.parent_node_key key
            && is_text r.parent_branch_key branch)
          db.call_flows)))
