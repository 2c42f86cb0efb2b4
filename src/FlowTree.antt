-- ===== src/FlowTree.antt =====
-- backend/src/flows/flows.service.ts: the tree of sub-flows that `parent_flow_id` makes: `remove`,
-- `collectFlowSubtreeForDelete` and `getRootFlowId`.
pub mod Walk
pub mod Subtree
pub mod Removal
pub mod Roots
mod Tests
use callytics.Flow.Load.{order_by}
use callytics.Prelude.{
  ℕ, zero, suc, ◌+◌, ◌-◌, ◌*◌, ◌/◌, ◌%◌, ◌≤◌, ◌<◌, String, ◌≡◌, refl, sym, ap, ◌∙◌, ◌≢◌, ◌↔◌, ◌⊎◌,
  inl, inr, Bool, true, false, not, ◌&&◌, ◌||◌, Option, none, some, List, [], ◌∷◌, ◌++◌, map, arith,
  ◌==◌, eq_iff, eq_refl, ltb, leb, eqb, if◌then◌else◌, Bool-cases, Option-cases, or_else, is_some,
  if-holds, option-holds, length, find?, filter, any, all, All, length-append, find?-test, In,
  find?-In, find?-none, In-filter, filter-In, All-In, codes, is_space, trim_start, trim_end, trim,
  drop_prefix, is_empty, is_digit, digits_value, show_ℕ, digits_value-show_ℕ, all_digits,
  show_ℕ-digits, trim-digits, show_ℕ-not_empty, concat, concat-cancel,
}

-- The columns of `call_flows` that the tree reads.
pub record FlowEntity : Type 0 where
  pub id : ℕ
  pub name : String
  pub parent_flow_id : Option ℕ

pub record VersionEntity : Type 0 where
  pub id : ℕ
  pub flow_id : ℕ

-- A node or an edge of a version, by its key.
pub record PartEntity : Type 0 where
  pub flow_version_id : ℕ
  pub key : String

pub record Store : Type 0 where
  pub flows : List FlowEntity
  pub versions : List VersionEntity
  pub nodes : List PartEntity
  pub edges : List PartEntity
  pub node_logs : List ℕ

abbrev pub has_id : ℕ → List ℕ → Bool
has_id n ns = any ns (λ m. eqb m n)

abbrev pub ids : List FlowEntity → List ℕ
ids fs = map (λ f. f.id) fs

abbrev pub is_child : ℕ → FlowEntity → Bool
is_child id f = elim f.parent_flow_id [ none ↦ false | some p ↦ eqb p id ]

-- `find(CallFlowEntity, { where: { parentFlowId }, order: { id: 'ASC' } })`
unfoldable pub children_of : ℕ → List FlowEntity → List FlowEntity
children_of id flows = order_by (λ (f : FlowEntity). f.id) (filter (is_child id) flows)

unfoldable pub find_flow : ℕ → List FlowEntity → Option FlowEntity
find_flow id flows = find? (λ f. eqb f.id id) flows

-- The loop of `collectFlowSubtreeForDelete`; `ordered` has the newest first, as it is returned.
unfoldable pub collect :
    List FlowEntity → ℕ → List FlowEntity → List ℕ → List FlowEntity → Option (List FlowEntity)
unfolding children_of
collect flows zero queue visited ordered = none
collect flows (suc fuel) [] visited ordered = some ordered
collect flows (suc fuel) (current ∷ queue) visited ordered =
    let seen = current.id ∷ visited in
    let children = filter (λ f. not (has_id f.id seen)) (children_of current.id flows) in
    let skipped = collect flows fuel queue visited ordered in
    let rest = collect flows fuel (queue ++ children) seen (current ∷ ordered) in
    if has_id current.id visited then skipped else rest

-- The loop runs once for each row that it puts into the queue, and once to end.
unfoldable pub collect_flow_subtree_for_delete :
    FlowEntity → List FlowEntity → Option (List FlowEntity)
unfolding collect
collect_flow_subtree_for_delete root flows = collect flows (length flows + 2) (root ∷ []) [] []

-- `DELETE … WHERE … IN`
unfoldable pub delete_flows : List ℕ → Store → Store
delete_flows flow_ids s =
    let versions = filter (λ (v : VersionEntity). has_id v.flow_id flow_ids) s.versions in
    let version_ids = map (λ (v : VersionEntity). v.id) versions in
    record {
      flows = filter (λ f. not (has_id f.id flow_ids)) s.flows;
      versions = filter (λ v. not (has_id v.id version_ids)) s.versions;
      nodes = filter (λ n. not (has_id n.flow_version_id version_ids)) s.nodes;
      edges = filter (λ e. not (has_id e.flow_version_id version_ids)) s.edges;
      node_logs = filter (λ l. not (has_id l flow_ids)) s.node_logs;
    }

-- `none` is the exception for a flow that is not there; the inner `none` stands for a loop that has
-- not ended.
unfoldable pub remove : ℕ → Store → Option (Option Store)
unfolding find_flow collect_flow_subtree_for_delete delete_flows
remove id s = elim (find_flow id s.flows) [
  | none ↦ none
  | some flow ↦ elim (collect_flow_subtree_for_delete flow s.flows) [
    | none ↦ some none
    | some flows ↦ some (some (delete_flows (ids flows) s))
  ]
]

pub data Root : Type 0 where
  root_flow : ℕ → Root
  circular : Root
  not_found : Root

-- The loop of `getRootFlowId`.
unfoldable pub root_loop : List FlowEntity → ℕ → ℕ → List ℕ → Option Root
unfolding find_flow
root_loop flows zero current seen = none
root_loop flows (suc fuel) current seen =
    if has_id current seen then some circular else elim (find_flow current flows) [
      | none ↦ some not_found
      | some flow ↦ elim flow.parent_flow_id [
        | none ↦ some (root_flow flow.id)
        | some parent ↦ root_loop flows fuel parent (current ∷ seen)
      ]
    ]

unfoldable pub get_root_flow_id : List FlowEntity → ℕ → Option Root
unfolding root_loop
get_root_flow_id flows id = root_loop flows (length flows + 2) id []
