-- ===== src/FlowTree/Removal.antt =====
-- `remove` of a flow (backend/src/flows/flows.service.ts).
use callytics.FlowTree.{
  FlowEntity, VersionEntity, PartEntity, Store, has_id, ids, find_flow,
  collect_flow_subtree_for_delete, delete_flows, remove,
}
use callytics.FlowTree.Walk.{parent_in}
use callytics.FlowTree.Subtree.{IsSubtree, Collected, collect_subtree-Collected}
use callytics.Prelude.{
  ℕ, ◌≡◌, refl, ap, ◌⊎◌, inl, inr, Bool, true, false, not, ◌&&◌, ◌||◌, Option, none, some, List, [],
  ◌∷◌, map, arith, eqb, Bool-cases, find?, filter, any, All, find?-test, In, In-filter, All-In,
  All-each, eqb-same, eqb-true,
}

-- A part that no version of the flows owns.
abbrev pub IsElsewhere : List VersionEntity → List ℕ → PartEntity → Type 0
IsElsewhere versions ns part =
    All
      (λ (v : VersionEntity).
        (has_id v.flow_id ns ≡ false) ⊎ (eqb v.id part.flow_version_id ≡ false))
      versions

-- Some version of the flows has the id.
abbrev pub has_version : List VersionEntity → List ℕ → ℕ → Bool
has_version versions ns n = any versions (λ (v : VersionEntity). has_id v.flow_id ns && eqb v.id n)

-- A store after some flows were deleted: exactly the rows of the others are left, in their order,
-- a version's row standing for all with its id. None of what is left belongs to a deleted flow.
abbrev pub IsCleared : List ℕ → Store → Store → Type 0
IsCleared ns before after =
    (after.flows ≡ filter (λ f. not (has_id f.id ns)) before.flows)
    × (after.versions
        ≡ filter (λ (v : VersionEntity). not (has_version before.versions ns v.id)) before.versions)
    × (after.nodes
        ≡ filter (λ (p : PartEntity). not (has_version before.versions ns p.flow_version_id))
            before.nodes)
    × (after.edges
        ≡ filter (λ (p : PartEntity). not (has_version before.versions ns p.flow_version_id))
            before.edges)
    × (after.node_logs ≡ filter (λ l. not (has_id l ns)) before.node_logs)
    × All (λ f. parent_in ns f ≡ false) after.flows
    × All (λ (v : VersionEntity). has_id v.flow_id ns ≡ false) after.versions
    × All (IsElsewhere before.versions ns) after.nodes
    × All (IsElsewhere before.versions ns) after.edges
    × All (λ l. has_id l ns ≡ false) after.node_logs

abbrev pub RemovedBy : ℕ → Store → Option (Option Store) → Type 0
RemovedBy id before none = find_flow id before.flows ≡ none
RemovedBy id before (some none) = ⊥
RemovedBy id before (some (some after)) =
    (ns : List ℕ) × IsSubtree before.flows id ns × IsCleared ns before after

not-true : (b : Bool) → not b ≡ true → b ≡ false
not-true b h = ground arith

or-both : (a b : Bool) → a || b ≡ false → (a ≡ false) × (b ≡ false)
or-both a b h = (ground arith, ground arith)

-- The versions of the flows, by their ids.
abbrev version_ids : List ℕ → List VersionEntity → List ℕ
version_ids ns versions =
    map (λ (v : VersionEntity). v.id) (filter (λ (v : VersionEntity). has_id v.flow_id ns) versions)

version-listed :
    (ns : List ℕ) (versions : List VersionEntity) (n : ℕ)
    → has_id n (version_ids ns versions) ≡ false
    → All (λ (v : VersionEntity). (has_id v.flow_id ns ≡ false) ⊎ (eqb v.id n ≡ false)) versions
version-listed ns [] n h = tt
version-listed ns (v ∷ versions) n h = elim (Bool-cases (has_id v.flow_id ns)) [
  | inl t ↦
      let split = or-both (eqb v.id n) (has_id n (version_ids ns versions)) (rw t at h) in
      (inr (split.0), version-listed ns versions n (split.1))
  | inr t ↦ (inl t, version-listed ns versions n (rw t at h))
]

parts-kept :
    (ns : List ℕ) (versions : List VersionEntity) (parts : List PartEntity)
    → All (IsElsewhere versions ns) (
        filter (λ (p : PartEntity). not (has_id p.flow_version_id (version_ids ns versions))) parts)
parts-kept ns versions parts = All-each (IsElsewhere versions ns) _ λ p m.
    version-listed ns versions p.flow_version_id (
      not-true _ (
        (In-filter (λ (q : PartEntity). not (has_id q.flow_version_id (version_ids ns versions)))
          parts p m).1))

has_version-ids :
    (ns : List ℕ) (versions : List VersionEntity) (n : ℕ)
    → has_id n (version_ids ns versions) ≡ has_version versions ns n
has_version-ids ns [] n = refl
has_version-ids ns (v ∷ versions) n = ground (arith, has_version-ids ns versions n)

filter-same :
    {A : Type 0} (p q : A → Bool) (xs : List A) → ((x : A) → p x ≡ q x) → filter p xs ≡ filter q xs
filter-same p q [] h = refl
filter-same p q (x ∷ xs) h = ground (arith, h x, filter-same p q xs h)

-- What the ids of the versions select is what their flows do.
module _ (ns : List ℕ) (versions : List VersionEntity) {A : Type 0} (version_of : A → ℕ) where
  kept-same :
      (rows : List A)
      → filter (λ x. not (has_id (version_of x) (version_ids ns versions))) rows
        ≡ filter (λ x. not (has_version versions ns (version_of x))) rows
  kept-same rows =
      filter-same (λ x. not (has_id (version_of x) (version_ids ns versions)))
        (λ x. not (has_version versions ns (version_of x))) rows
        (λ x. ap not (has_version-ids ns versions (version_of x)))

delete_flows-IsCleared :
    (ns : List ℕ) (s : Store)
    → All (λ f. (parent_in ns f ≡ false) ⊎ (has_id f.id ns ≡ true)) s.flows
    → IsCleared ns s (delete_flows ns s)
unfolding delete_flows
delete_flows-IsCleared ns s closed = (
  refl,
  kept-same ns s.versions (λ (v : VersionEntity). v.id) s.versions,
  kept-same ns s.versions (λ (p : PartEntity). p.flow_version_id) s.nodes,
  kept-same ns s.versions (λ (p : PartEntity). p.flow_version_id) s.edges,
  refl,
  All-each _ (filter (λ f. not (has_id f.id ns)) s.flows) (λ f m. orphan f m),
  All-each _
      (filter (λ (v : VersionEntity). not (has_id v.id (version_ids ns s.versions))) s.versions)
      (λ v m. version v m),
  parts-kept ns s.versions s.nodes,
  parts-kept ns s.versions s.edges,
  All-each _ (filter (λ l. not (has_id l ns)) s.node_logs)
      (λ l m. not-true _ ((In-filter (λ k. not (has_id k ns)) s.node_logs l m).1)),
)
  where
    kept_flow :
        (f : FlowEntity)
        → (parent_in ns f ≡ false) ⊎ (has_id f.id ns ≡ true)
        → not (has_id f.id ns) ≡ true
        → parent_in ns f ≡ false
    kept_flow f (inl p) t = p
    kept_flow f (inr h) t = absurd (cc (h, not-true _ t))

    orphan :
        (f : FlowEntity)
        → In f (filter (λ g. not (has_id g.id ns)) s.flows)
        → parent_in ns f ≡ false
    orphan f m =
        let (here, t) = In-filter (λ (g : FlowEntity). not (has_id g.id ns)) s.flows f m in
        kept_flow f
          (All-In (λ g. (parent_in ns g ≡ false) ⊎ (has_id g.id ns ≡ true)) s.flows closed here) t

    own_version :
        (v : VersionEntity)
        → (has_id v.flow_id ns ≡ false) ⊎ (eqb v.id v.id ≡ false)
        → has_id v.flow_id ns ≡ false
    own_version v (inl h) = h
    own_version v (inr h) = absurd (cc (h, eqb-true v.id v.id refl))

    version :
        (v : VersionEntity)
        → In v (
            filter
              (λ (w : VersionEntity). not (has_id w.id (version_ids ns s.versions)))
              s.versions)
        → has_id v.flow_id ns ≡ false
    version v m =
        let (here, t) =
          In-filter (λ (w : VersionEntity). not (has_id w.id (version_ids ns s.versions)))
            s.versions v m in
        own_version v (
          All-In (λ (w : VersionEntity). (has_id w.flow_id ns ≡ false) ⊎ (eqb w.id v.id ≡ false))
            s.versions (version-listed ns s.versions v.id (not-true _ t)) here)

-- Removing a flow fails only where it is not there. Otherwise the walk ends, and what it deletes is
-- the flow with all the sub-flows below it: exactly their rows, versions, nodes, edges and logs are
-- gone and those of all other flows are left, where versions with one id count as one; and no flow
-- that is left has a deleted parent.
pub remove-RemovedBy : (id : ℕ) (s : Store) → RemovedBy id s (remove id s)
unfolding remove find_flow
remove-RemovedBy id s = by_flow (find? (λ (f : FlowEntity). eqb f.id id) s.flows) refl
  where
    by_collected :
        (o : Option (List FlowEntity))
        → Collected s.flows id o
        → RemovedBy id s (elim o as (λ _. Option (Option Store)) [
          | none ↦ some none
          | some flows ↦ some (some (delete_flows (ids flows) s))
        ])
    by_collected none c = absurd c
    by_collected (some flows) (rooted, down, closed) =
        (ids flows, (rooted, down, closed), delete_flows-IsCleared (ids flows) s closed)

    by_flow :
        (o : Option FlowEntity)
        → find? (λ (f : FlowEntity). eqb f.id id) s.flows ≡ o
        → RemovedBy id s (elim o as (λ _. Option (Option Store)) [
          | none ↦ none
          | some flow ↦ elim (collect_flow_subtree_for_delete flow s.flows) [
            | none ↦ some none
            | some flows ↦ some (some (delete_flows (ids flows) s))
          ]
        ])
    by_flow none e = e
    by_flow (some flow) e = by_collected (collect_flow_subtree_for_delete flow s.flows) (
        collect_subtree-Collected s.flows id flow
          (eqb-same flow.id id (find?-test (λ (f : FlowEntity). eqb f.id id) s.flows e)))
