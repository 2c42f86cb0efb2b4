-- ===== src/FlowTree/Walk.antt =====
-- The rows that the walk of `collectFlowSubtreeForDelete` (backend/src/flows/flows.service.ts) visits
-- and those that wait in its queue.
use callytics.Flow.Ordered.{length-order_by}
use callytics.FlowTree.{FlowEntity, has_id, ids, is_child, children_of}
use callytics.Prelude.{
  ℕ, ◌+◌, ◌≤◌, ◌≡◌, refl, sym, ap, ◌∙◌, ◌⊎◌, inl, inr, Bool, true, false, not, ◌||◌, Option, none,
  some, List, [], ◌∷◌, ◌++◌, arith, eqb, Bool-cases, length, filter, In, eqb-same, eqb-true,
}

-- A flow's id, and those of its sub-flows, of theirs, and so on.
pub data Descends (flows : List FlowEntity) (root : ℕ) : ℕ → Type 0 where
  itself : Descends flows root root
  sub_flow :
      (f : FlowEntity) (p : ℕ)
      → In f flows
      → f.parent_flow_id ≡ some p
      → Descends flows root p
      → Descends flows root f.id

abbrev pub parent_in : List ℕ → FlowEntity → Bool
parent_in ns f = elim f.parent_flow_id [ none ↦ false | some p ↦ has_id p ns ]

-- A flow whose parent was visited has been visited or is in the queue.
abbrev pub Pending : List ℕ → List FlowEntity → FlowEntity → Type 0
Pending visited queue f =
    (parent_in visited f ≡ false) ⊎ (has_id f.id visited ≡ true) ⊎ (has_id f.id (ids queue) ≡ true)

-- The rows whose parent has not been visited.
abbrev pub unexplored : List ℕ → FlowEntity → Bool
unexplored visited f = elim f.parent_flow_id [ none ↦ false | some p ↦ not (has_id p visited) ]

pub length-filter : {A : Type 0} (p : A → Bool) (xs : List A) → length (filter p xs) ≤ length xs
length-filter p [] = omega arith
length-filter p (x ∷ xs) = ground (arith, length-filter p xs)

pub length-children :
    (id : ℕ) (flows : List FlowEntity)
    → length (children_of id flows) ≡ length (filter (is_child id) flows)
unfolding children_of
length-children id flows = length-order_by (λ (f : FlowEntity). f.id) (filter (is_child id) flows)

-- Visiting a flow explores the rows below it.
pub children-explored :
    (c : ℕ) (visited : List ℕ) (flows : List FlowEntity)
    → has_id c visited ≡ false
    → length (filter (is_child c) flows) + length (filter (unexplored (c ∷ visited)) flows)
      ≤ length (filter (unexplored visited) flows)
children-explored c visited [] h = omega arith
children-explored c visited (f ∷ flows) h =
    by_parent f.parent_flow_id refl (children-explored c visited flows h)
  where
    by_parent :
        (o : Option ℕ)
        → f.parent_flow_id ≡ o
        → length (filter (is_child c) flows) + length (filter (unexplored (c ∷ visited)) flows)
          ≤ length (filter (unexplored visited) flows)
        → length (filter (is_child c) (f ∷ flows))
            + length (filter (unexplored (c ∷ visited)) (f ∷ flows))
          ≤ length (filter (unexplored visited) (f ∷ flows))
    by_parent none e rec = ground (arith, e, rec)
    by_parent (some p) e rec = elim (Bool-cases (eqb p c)) [
      | inl t ↦
          let unseen = ap (λ n. has_id n visited) (eqb-same p c t) ∙ h in
          ground (arith, e, t, rec, unseen)
      | inr t ↦ ground (arith, e, t, rec)
    ]

pub child-parent : (id : ℕ) (f : FlowEntity) → is_child id f ≡ true → f.parent_flow_id ≡ some id
child-parent id f h = by_parent f.parent_flow_id refl h
  where
    by_parent :
        (o : Option ℕ)
        → f.parent_flow_id ≡ o
        → (elim o [ none ↦ false | some p ↦ eqb p id ]) ≡ true
        → f.parent_flow_id ≡ some id
    by_parent none e t = cc
    by_parent (some p) e t = e ∙ ap some (eqb-same p id t)

pub has_id-In : (f : FlowEntity) (fs : List FlowEntity) → In f fs → has_id f.id (ids fs) ≡ true
has_id-In f [] m = absurd m
has_id-In f (g ∷ fs) (inl e) =
    ground (arith, eqb-true g.id f.id (sym (ap (λ (x : FlowEntity). x.id) e)))
has_id-In f (g ∷ fs) (inr m) = ground (arith, has_id-In f fs m)

pub has_id-append :
    (n : ℕ) (fs gs : List FlowEntity)
    → has_id n (ids (fs ++ gs)) ≡ has_id n (ids fs) || has_id n (ids gs)
has_id-append n [] gs = refl
has_id-append n (f ∷ fs) gs = ground (arith, has_id-append n fs gs)

pub or-left : (a b : Bool) → a ≡ true → a || b ≡ true
or-left a b h = ground arith

pub or-right : (a b : Bool) → b ≡ true → a || b ≡ true
or-right a b h = ground arith

pub or-rest : (a b : Bool) → a || b ≡ true → a ≡ false → b ≡ true
or-rest a b h f = ground arith

pub no_parent :
    (id : ℕ) (visited : List ℕ) (f : FlowEntity)
    → parent_in visited f ≡ false
    → is_child id f ≡ false
    → parent_in (id ∷ visited) f ≡ false
no_parent id visited f p c = by_parent f.parent_flow_id p c
  where
    by_parent :
        (o : Option ℕ)
        → (elim o [ none ↦ false | some q ↦ has_id q visited ]) ≡ false
        → (elim o [ none ↦ false | some q ↦ eqb q id ]) ≡ false
        → (elim o [ none ↦ false | some q ↦ has_id q (id ∷ visited) ]) ≡ false
    by_parent none a b = refl
    by_parent (some q) a b = ground (arith, a, b)
