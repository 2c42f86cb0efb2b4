-- ===== src/Flow/Defs.antt =====
-- stasis/src/flowLoader.ts: the types FlowNode, FlowEdge and Flow, and look-ups by key.
use callytics.Js.{Fields}
use callytics.Prelude.{ℕ, String, ◌≡◌, Option, some, List, ◌==◌, eq_iff, find?, find?-test}

pub record FlowNode : Type 0 where
  pub node_key : String
  pub type : String
  pub label : String
  pub config : Fields

pub record FlowEdge : Type 0 where
  pub source_node_key : String
  pub target_node_key : String
  pub branch_key : String
  pub condition : Option String

pub record Flow : Type 0 where
  pub id : ℕ
  pub name : String
  pub version_id : ℕ
  pub nodes : List FlowNode
  pub edges : List FlowEdge

-- `nodes.find((node) => node.nodeKey === key)`
abbrev pub find_node : String → List FlowNode → Option FlowNode
find_node key nodes = find? (λ n. n.node_key == key) nodes

-- `nodes.find((node) => node.type === type)`
abbrev pub find_type : String → List FlowNode → Option FlowNode
find_type type nodes = find? (λ n. n.type == type) nodes

pub find_node-key :
    (key : String) (nodes : List FlowNode) {n : FlowNode}
    → find_node key nodes ≡ some n
    → n.node_key ≡ key
find_node-key key nodes {n} h = (eq_iff n.node_key key).0 (find?-test _ nodes h)
