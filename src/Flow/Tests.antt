-- ===== src/Flow/Tests.antt =====
-- Loading a small flow (stasis/src/flowLoader.ts).
use callytics.Flow.Defs.{Flow}
use callytics.Flow.Load.{FlowRow, NodeRow, Database, load_flow_by_id}
use callytics.Flow.Loaded.{IsVersion, load_flow_by_id-IsVersion}
use callytics.Js.{Fields}
use callytics.Prelude.{◌≡◌, refl, true, none, some, [], ◌∷◌, In}

abbrev row : FlowRow
row = record {
  id = 3;
  name = "Greeting";
  is_published = true;
  current_version_id = some 8;
  entry_value = none;
  parent_flow_id = none;
  parent_node_key = none;
  parent_branch_key = none;
}

abbrev start_row : NodeRow
start_row = record {
  id = 1;
  flow_version_id = 8;
  node_key = "s";
  type = "start";
  label = none;
  config_json = none;
  subflow_id = none;
}

-- A node of an older version stands in the same table.
abbrev tables : Database
tables = record {
  call_flows = row ∷ [];
  flow_nodes = record start_row { id = 0; flow_version_id = 7 } ∷ start_row ∷ [];
  flow_edges = [];
}

abbrev greeting : Flow
greeting = record {
  id = 3;
  name = "Greeting";
  version_id = 8;
  nodes = record { node_key = "s"; type = "start"; label = ""; config = Fields.end } ∷ [];
  edges = [];
}

load_flow_by_id-IsVersion_example :
    (r : FlowRow) × In r tables.call_flows
    × (r.id ≡ 3)
    × (r.is_published ≡ true)
    × IsVersion tables r greeting
unfolding load_flow_by_id
load_flow_by_id-IsVersion_example = load_flow_by_id-IsVersion tables 3 greeting refl
