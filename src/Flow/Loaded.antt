-- ===== src/Flow/Loaded.antt =====
-- What `loadFlowById` (stasis/src/flowLoader.ts) returns.
use callytics.Flow.Ordered.{IsSelection, order_by-IsSelection}
use callytics.Js.{Fields}
use callytics.Flow.Defs.{Flow, FlowNode, FlowEdge, find_type}
use mathlib.Core.Path.{subst}
use callytics.Flow.Load.{
  FlowRow, NodeRow, EdgeRow, Database, order_by, text_or, node_of_row, edge_of_row, version_nodes,
  version_edges, build_version, build_flow_from_row, load_flow_by_id,
}
use callytics.Prelude.{
  ℕ, String, ◌≡◌, refl, Bool, true, false, not, ◌&&◌, ◌||◌, Option, none, some, List, [], ◌∷◌, map,
  arith, ◌==◌, eqb, if◌then◌else◌, is_some, find?, filter, any, find?-test, In, find?-In, is_empty,
}

any-find_type :
    (nodes : List FlowNode)
    → any nodes (λ n. n.type == "start") ≡ true
    → is_some (find_type "start" nodes) ≡ true
any-find_type [] h = h
any-find_type (n ∷ ns) h = by_type (n.type == "start") (any-find_type ns) h
  where
    by_type :
        (b : Bool)
        → (any ns (λ m. m.type == "start") ≡ true → is_some (find_type "start" ns) ≡ true)
        → (b || any ns (λ m. m.type == "start")) ≡ true
        → is_some (if b then some n else find_type "start" ns) ≡ true
    by_type true ih k = refl
    by_type false ih k = ih k

-- A column that may be missing, and what stands for it.
abbrev pub LabelOf : Option String → String → Type 0
LabelOf none t = t ≡ ""
LabelOf (some l) t = t ≡ l

abbrev pub ConfigOf : Option Fields → Fields → Type 0
ConfigOf none c = c ≡ Fields.end
ConfigOf (some d) c = c ≡ d

abbrev pub BranchOf : Option String → String → Type 0
BranchOf none t = t ≡ "default"
BranchOf (some b) t = t ≡ (if is_empty b then "default" else b)

-- A node and an edge of a flow as their rows have them.
abbrev pub IsNodeOf : NodeRow → FlowNode → Type 0
IsNodeOf r n =
    (n.node_key ≡ r.node_key)
    × (n.type ≡ r.type)
    × LabelOf r.label n.label
    × ConfigOf r.config_json n.config

abbrev pub IsEdgeOf : EdgeRow → FlowEdge → Type 0
IsEdgeOf r e =
    (e.source_node_key ≡ r.source_node_key)
    × (e.target_node_key ≡ r.target_node_key)
    × BranchOf r.branch_key e.branch_key
    × (e.condition ≡ r.condition)

abbrev pub Each : {A B : Type 0} → (A → B → Type 0) → List A → List B → Type 0
Each R [] [] = Unit
Each R [] (y ∷ ys) = ⊥
Each R (x ∷ xs) [] = ⊥
Each R (x ∷ xs) (y ∷ ys) = R x y × Each R xs ys

map-Each :
    {A B : Type 0} (R : A → B → Type 0) (f : A → B) (xs : List A)
    → ((x : A) → R x (f x))
    → Each R xs (map f xs)
map-Each R f [] h = tt
map-Each R f (x ∷ xs) h = (h x, map-Each R f xs h)

abbrev pub ReadsNodes : Database → ℕ → List FlowNode → Type 0
ReadsNodes db v nodes =
    (rows : List NodeRow) × IsSelection (λ (r : NodeRow). r.id) (λ (r : NodeRow). r.flow_version_id)
      v db.flow_nodes rows
    × Each IsNodeOf rows nodes

abbrev pub ReadsEdges : Database → ℕ → List FlowEdge → Type 0
ReadsEdges db v edges =
    (rows : List EdgeRow) × IsSelection (λ (r : EdgeRow). r.id) (λ (r : EdgeRow). r.flow_version_id)
      v db.flow_edges rows
    × Each IsEdgeOf rows edges

version_nodes-ReadsNodes : (db : Database) (v : ℕ) → ReadsNodes db v (version_nodes db v)
unfolding version_nodes node_of_row text_or
version_nodes-ReadsNodes db v = (
  order_by (λ (r : NodeRow). r.id)
      (filter (λ (r : NodeRow). eqb r.flow_version_id v) db.flow_nodes),
  order_by-IsSelection (λ (r : NodeRow). r.id) (λ (r : NodeRow). r.flow_version_id) v db.flow_nodes,
  map-Each IsNodeOf node_of_row _ read,
)
  where
    by_label : (o : Option String) → LabelOf o (text_or "" o)
    by_label none = refl
    by_label (some String.[]) = refl
    by_label (some (String.◌∷◌ c l)) = refl

    by_config : (o : Option Fields) → ConfigOf o (elim o [ none ↦ Fields.end | some c ↦ c ])
    by_config none = refl
    by_config (some c) = refl

    read : (r : NodeRow) → IsNodeOf r (node_of_row r)
    read r = (refl, refl, by_label r.label, by_config r.config_json)

version_edges-ReadsEdges : (db : Database) (v : ℕ) → ReadsEdges db v (version_edges db v)
unfolding version_edges edge_of_row text_or
version_edges-ReadsEdges db v = (
  order_by (λ (r : EdgeRow). r.id)
      (filter (λ (r : EdgeRow). eqb r.flow_version_id v) db.flow_edges),
  order_by-IsSelection (λ (r : EdgeRow). r.id) (λ (r : EdgeRow). r.flow_version_id) v db.flow_edges,
  map-Each IsEdgeOf edge_of_row _ read,
)
  where
    by_branch : (o : Option String) → BranchOf o (text_or "default" o)
    by_branch none = refl
    by_branch (some b) = refl

    read : (r : EdgeRow) → IsEdgeOf r (edge_of_row r)
    read r = (refl, refl, by_branch r.branch_key, refl)

-- The flow of a row at a version that has a start node.
abbrev pub IsVersion : Database → FlowRow → Flow → Type 0
IsVersion db row f =
    (row.current_version_id ≡ some f.version_id)
    × (f.id ≡ row.id)
    × (f.name ≡ row.name)
    × ReadsNodes db f.version_id f.nodes
    × ReadsEdges db f.version_id f.edges
    × (is_some (find_type "start" f.nodes) ≡ true)

build-IsVersion :
    (db : Database) (row : FlowRow) (f : Flow)
    → build_flow_from_row db (some row) ≡ some f
    → IsVersion db row f
unfolding build_flow_from_row build_version
build-IsVersion db row f h = by_version row.current_version_id refl h
  where
    loaded : ℕ → Flow
    loaded v = record {
      id = row.id;
      name = row.name;
      version_id = v;
      nodes = version_nodes db v;
      edges = version_edges db v;
    }

    startless : ℕ → Bool
    startless v = not (any (version_nodes db v) (λ n. n.type == "start"))

    by_test :
        (v : ℕ) (b : Bool)
        → row.current_version_id ≡ some v
        → (eqb v 0 || startless v) ≡ b
        → ◌≡◌ {A = Option Flow} (if b then none else some (loaded v)) (some f)
        → IsVersion db row f
    by_test v true e eb k = absurd (cc)
    by_test v false e eb k =
        let same : loaded v ≡ f = cc in
        let there : any (version_nodes db v) (λ n. n.type == "start") ≡ true = ground (arith, eb) in
        subst (IsVersion db row) same (
          e,
          refl,
          refl,
          version_nodes-ReadsNodes db v,
          version_edges-ReadsEdges db v,
          any-find_type (version_nodes db v) there,
        )

    by_version :
        (o : Option ℕ)
        → row.current_version_id ≡ o
        → (elim o as (λ _. Option Flow) [ none ↦ none | some v ↦ build_version db row v ]) ≡ some f
        → IsVersion db row f
    by_version none e k = absurd (cc)
    by_version (some v) e k = by_test v (eqb v 0 || startless v) e refl k

-- A flow that is loaded by its id is that of a published row, at the row's current version: its nodes
-- and edges are exactly those of the rows of that version, in the order of their ids, with the rows'
-- columns and the defaults for missing ones; and it has a start node.
pub load_flow_by_id-IsVersion :
    (db : Database) (id : ℕ) (f : Flow)
    → load_flow_by_id db id ≡ some f
    → (row : FlowRow) × In row db.call_flows
      × (row.id ≡ id)
      × (row.is_published ≡ true)
      × IsVersion db row f
unfolding load_flow_by_id build_flow_from_row
load_flow_by_id-IsVersion db id f h =
    by_row (find? (λ r. eqb r.id id && r.is_published) db.call_flows) refl h
  where
    by_row :
        (o : Option FlowRow)
        → find? (λ r. eqb r.id id && r.is_published) db.call_flows ≡ o
        → build_flow_from_row db o ≡ some f
        → (row : FlowRow) × In row db.call_flows
          × (row.id ≡ id)
          × (row.is_published ≡ true)
          × IsVersion db row f
    by_row none e k = absurd (cc)
    by_row (some row) e k =
        let test = find?-test (λ (r : FlowRow). eqb r.id id && r.is_published) db.call_flows e in
        (
          row,
          find?-In (λ (r : FlowRow). eqb r.id id && r.is_published) db.call_flows e,
          ground (arith, test),
          ground (arith, test),
          build-IsVersion db row f k,
        )
