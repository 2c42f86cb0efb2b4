-- ===== src/FlowTree/Tests.antt =====
-- A flow with a sub-flow of a sub-flow, and two flows that are each other's parent
-- (backend/src/flows/flows.service.ts).
use callytics.FlowTree.{FlowEntity, Store, get_root_flow_id, remove, root_flow, circular}
use callytics.FlowTree.Roots.{IsRootOf, get_root_flow_id-IsRootOf}
use callytics.FlowTree.Removal.{RemovedBy, remove-RemovedBy}
use callytics.Prelude.{ℕ, ◌≡◌, refl, Option, none, some, List, [], ◌∷◌}

abbrev flow : ℕ → Option ℕ → FlowEntity
flow id parent = record { id = id; name = ""; parent_flow_id = parent }

abbrev store : Store
store = record {
  flows = flow 3 (some 2) ∷ flow 1 none ∷ flow 2 (some 1) ∷ flow 4 none ∷ [];
  versions = record { id = 10; flow_id = 3 } ∷ record { id = 11; flow_id = 4 } ∷ [];
  nodes =
      record { flow_version_id = 10; key = "a" } ∷ record { flow_version_id = 11; key = "b" } ∷ [];
  edges = [];
  node_logs = 3 ∷ 4 ∷ [];
}

abbrev cycle : List FlowEntity
cycle = flow 1 (some 2) ∷ flow 2 (some 1) ∷ []

remove-RemovedBy_example : RemovedBy 1 store (remove 1 store)
remove-RemovedBy_example = remove-RemovedBy 1 store

removed_tree :
    remove 1 store
    ≡ some (
        some (record {
          flows = flow 4 none ∷ [];
          versions = record { id = 11; flow_id = 4 } ∷ [];
          nodes = record { flow_version_id = 11; key = "b" } ∷ [];
          edges = [];
          node_logs = 4 ∷ [];
        }))
unfolding remove callytics.Flow.Load.order_by
removed_tree = refl

get_root_flow_id-IsRootOf_example : IsRootOf store.flows 3 (get_root_flow_id store.flows 3)
get_root_flow_id-IsRootOf_example = get_root_flow_id-IsRootOf store.flows 3

root_of_tree : get_root_flow_id store.flows 3 ≡ some (root_flow 1)
unfolding get_root_flow_id
root_of_tree = refl

root_of_cycle : get_root_flow_id cycle 1 ≡ some circular
unfolding get_root_flow_id
root_of_cycle = refl
