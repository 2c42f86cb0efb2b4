-- ===== src/Flow/Load.antt =====
-- stasis/src/flowLoader.ts: `loadFlowById` and `buildFlowFromRow` over the rows of the database.
use callytics.Flow.Defs.{Flow, FlowNode, FlowEdge}
use callytics.Js.{Fields}
use callytics.Prelude.{
  ℕ, String, Bool, false, not, ◌&&◌, ◌||◌, Option, none, some, List, [], ◌∷◌, map, ◌==◌, leb, eqb,
  if◌then◌else◌, find?, filter, any, is_empty,
}

-- A row of `call_flows`; `current_version_id` is NULL while nothing is published.
pub record FlowRow : Type 0 where
  pub id : ℕ
  pub name : String
  pub is_published : Bool
  pub current_version_id : Option ℕ
  pub entry_value : Option String
  pub parent_flow_id : Option ℕ
  pub parent_node_key : Option String
  pub parent_branch_key : Option String

pub record NodeRow : Type 0 where
  pub id : ℕ
  pub flow_version_id : ℕ
  pub node_key : String
  pub type : String
  pub label : Option String
  pub config_json : Option Fields
  pub subflow_id : Option ℕ

pub record EdgeRow : Type 0 where
  pub id : ℕ
  pub flow_version_id : ℕ
  pub source_node_key : String
  pub target_node_key : String
  pub branch_key : Option String
  pub condition : Option String

pub record Database : Type 0 where
  pub call_flows : List FlowRow
  pub flow_nodes : List NodeRow
  pub flow_edges : List EdgeRow

-- `ORDER BY id ASC`, by insertion.
module _ {A : Type 0} (id_of : A → ℕ) where
  unfoldable pub insert_by : A → List A → List A
  insert_by x [] = x ∷ []
  insert_by x (y ∷ ys) = if leb (id_of x) (id_of y) then x ∷ y ∷ ys else y ∷ insert_by x ys

  unfoldable pub order_by : List A → List A
  unfolding insert_by
  order_by [] = []
  order_by (x ∷ xs) = insert_by x (order_by xs)

-- `value || ''` and `value || 'default'` of a nullable text.
unfoldable pub text_or : String → Option String → String
text_or d none = d
text_or d (some s) = if is_empty s then d else s

unfoldable pub node_of_row : NodeRow → FlowNode
unfolding text_or
node_of_row r = record {
  node_key = r.node_key;
  type = r.type;
  label = text_or "" r.label;
  config = elim r.config_json [ none ↦ Fields.end | some c ↦ c ];
}

unfoldable pub edge_of_row : EdgeRow → FlowEdge
unfolding text_or
edge_of_row r = record {
  source_node_key = r.source_node_key;
  target_node_key = r.target_node_key;
  branch_key = text_or "default" r.branch_key;
  condition = r.condition;
}

unfoldable pub version_nodes : Database → ℕ → List FlowNode
unfolding node_of_row order_by
version_nodes db v =
    map node_of_row (order_by (λ r. r.id) (filter (λ r. eqb r.flow_version_id v) db.flow_nodes))

unfoldable pub version_edges : Database → ℕ → List FlowEdge
unfolding edge_of_row order_by
version_edges db v =
    map edge_of_row (order_by (λ r. r.id) (filter (λ r. eqb r.flow_version_id v) db.flow_edges))

-- `!versionId` also refuses version 0.
unfoldable pub build_version : Database → FlowRow → ℕ → Option Flow
unfolding version_nodes version_edges
build_version db row v =
    let flow : Flow = record {
      id = row.id;
      name = row.name;
      version_id = v;
      nodes = version_nodes db v;
      edges = version_edges db v;
    } in
    if eqb v 0 || not (any flow.nodes (λ n. n.type == "start")) then none else some flow

unfoldable pub build_flow_from_row : Database → Option FlowRow → Option Flow
unfolding build_version
build_flow_from_row db none = none
build_flow_from_row db (some row) = elim row.current_version_id [
  | none ↦ none
  | some v ↦ build_version db row v
]

-- `id` is the table's primary key.
unfoldable pub load_flow_by_id : Database → ℕ → Option Flow
unfolding build_flow_from_row
load_flow_by_id db id =
    build_flow_from_row db (find? (λ r. eqb r.id id && r.is_published) db.call_flows)

is_entry : Option String → FlowRow → Bool
is_entry none r = r.is_published
is_entry (some e) r = r.is_published && (elim r.entry_value [ none ↦ false | some x ↦ x == e ])

abbrev first {ℓ} : {A : Type ℓ} → List A → Option A
first [] = none
first (x ∷ xs) = some x

-- An empty entry value counts as absent.
entry_filter : Option String → Option String
entry_filter none = none
entry_filter (some e) = if is_empty e then none else some e

unfoldable pub load_flow : Database → Option String → Option Flow
unfolding build_flow_from_row is_entry order_by entry_filter
load_flow db entry =
    build_flow_from_row db
      (first (order_by (λ r. r.id) (filter (is_entry (entry_filter entry)) db.call_flows)))
