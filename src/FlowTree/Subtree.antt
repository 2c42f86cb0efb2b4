-- ===== src/FlowTree/Subtree.antt =====
-- `collectFlowSubtreeForDelete` (backend/src/flows/flows.service.ts) finds a flow and its sub-flows at
-- every depth, and ends.
use callytics.FlowTree.Walk.{itself}
use callytics.FlowTree.Walk.{sub_flow}
use callytics.Flow.Ordered.{order_by-In, In-order_by}
use callytics.FlowTree.{
  FlowEntity, has_id, ids, is_child, children_of, collect, collect_flow_subtree_for_delete,
}
use callytics.FlowTree.Walk.{
  Descends, parent_in, Pending, unexplored, length-filter, length-children, children-explored,
  child-parent, has_id-In, has_id-append, or-left, or-right, or-rest, no_parent,
}
use mathlib.Core.Path.{subst}
use callytics.Prelude.{
  ℕ, zero, suc, ◌+◌, ◌<◌, ◌≡◌, refl, sym, ap, ◌∙◌, ◌⊎◌, inl, inr, true, false, not, ◌||◌, Option,
  none, some, List, [], ◌∷◌, ◌++◌, arith, eqb, Bool-cases, if-holds, length, filter, All,
  length-append, In, In-filter, filter-In, All-In, All-weaken, All-append, All-each, eqb-same,
  eqb-true,
}

module _ (flows : List FlowEntity) (root : ℕ) where
  -- The loop's state: what is visited, in the queue and collected.
  abbrev IsWalk : List FlowEntity → List ℕ → List FlowEntity → Type 0
  IsWalk queue visited ordered =
      All (λ n. Descends flows root n) visited
      × All (λ (q : FlowEntity). Descends flows root q.id) queue
      × All (Pending visited queue) flows
      × (visited ≡ ids ordered)
      × ((has_id root visited ≡ true) ⊎ (has_id root (ids queue) ≡ true))

  -- The ids that are collected in the end: they are the flow and all its descendants.
  abbrev pub IsSubtree : List ℕ → Type 0
  IsSubtree ns =
      (has_id root ns ≡ true)
      × All (λ n. Descends flows root n) ns
      × All (λ f. (parent_in ns f ≡ false) ⊎ (has_id f.id ns ≡ true)) flows

  abbrev pub Collected : Option (List FlowEntity) → Type 0
  Collected none = ⊥
  Collected (some fs) = IsSubtree (ids fs)

  -- One turn, for a flow that was visited before and for a new one.
  skip-IsWalk :
      (current : FlowEntity) (queue : List FlowEntity) (visited : List ℕ)
      (ordered : List FlowEntity)
      → has_id current.id visited ≡ true
      → IsWalk (current ∷ queue) visited ordered
      → IsWalk queue visited ordered
  skip-IsWalk current queue visited ordered known (down, (d, ds), pending, same, here) = (
    down,
    ds,
    All-weaken (Pending visited (current ∷ queue)) (Pending visited queue) flows moved pending,
    same,
    by_root here,
  )
    where
      known_as :
          (n : ℕ)
          → eqb current.id n || has_id n (ids queue) ≡ true
          → (has_id n visited ≡ true) ⊎ (has_id n (ids queue) ≡ true)
      known_as n h = elim (Bool-cases (eqb current.id n)) [
        | inl t ↦ inl (sym (ap (λ k. has_id k visited) (eqb-same current.id n t)) ∙ known)
        | inr t ↦ inr (ground (arith, h, t))
      ]

      moved : (f : FlowEntity) → Pending visited (current ∷ queue) f → Pending visited queue f
      moved f (inl p) = inl p
      moved f (inr (inl p)) = inr (inl p)
      moved f (inr (inr p)) = inr (known_as f.id p)

      by_root :
          (has_id root visited ≡ true) ⊎ (has_id root (ids (current ∷ queue)) ≡ true)
          → (has_id root visited ≡ true) ⊎ (has_id root (ids queue) ≡ true)
      by_root (inl p) = inl p
      by_root (inr p) = known_as root p

  visit-IsWalk :
      (current : FlowEntity) (queue : List FlowEntity) (visited : List ℕ)
      (ordered : List FlowEntity)
      → IsWalk (current ∷ queue) visited ordered
      → IsWalk
          (queue
            ++ filter
                (λ f. not (has_id f.id (current.id ∷ visited)))
                (children_of current.id flows))
          (current.id ∷ visited)
          (current ∷ ordered)
  unfolding children_of
  visit-IsWalk current queue visited ordered (down, (d, ds), pending, same, here) = (
    (d, down),
    All-append (λ (q : FlowEntity). Descends flows root q.id) queue children ds below,
    All-each (Pending seen (queue ++ children)) flows
        λ f m. moved f m (All-In (Pending visited (current ∷ queue)) flows pending m),
    ap (λ ns. current.id ∷ ns) same,
    by_root here,
  )
    where
      seen : List ℕ
      seen = current.id ∷ visited

      children : List FlowEntity
      children = filter (λ f. not (has_id f.id seen)) (children_of current.id flows)

      child_below :
          (q : FlowEntity) → In q flows × (is_child current.id q ≡ true) → Descends flows root q.id
      child_below q (m, c) = sub_flow q current.id m (child-parent current.id q c) d

      below : All (λ (q : FlowEntity). Descends flows root q.id) children
      below =
          All-each (λ (q : FlowEntity). Descends flows root q.id) children
            λ q m. child_below q (
              In-filter (is_child current.id) flows q (
                In-order_by (λ (f : FlowEntity). f.id) q (filter (is_child current.id) flows)
                  ((In-filter (λ (f : FlowEntity). not (has_id f.id seen))
                    (children_of current.id flows) q m).0)))

      later : (n : ℕ) → has_id n (ids queue) ≡ true → has_id n (ids (queue ++ children)) ≡ true
      later n h = has_id-append n queue children ∙ or-left (has_id n (ids queue)) _ h

      -- What was in the queue with the visited flow is visited or still there.
      kept :
          (n : ℕ)
          → has_id n (ids (current ∷ queue)) ≡ true
          → (has_id n seen ≡ true) ⊎ (has_id n (ids (queue ++ children)) ≡ true)
      kept n h = elim (Bool-cases (eqb current.id n)) [
        | inl t ↦ inl (or-left (eqb current.id n) (has_id n visited) t)
        | inr t ↦ inr (later n (or-rest (eqb current.id n) _ h t))
      ]

      new_child :
          (f : FlowEntity)
          → In f flows
          → is_child current.id f ≡ true
          → Pending seen (queue ++ children) f
      new_child f m c = elim (Bool-cases (has_id f.id seen)) [
        | inl t ↦ inr (inl t)
        | inr t ↦ inr (
            inr (
              has_id-append f.id queue children
              ∙ or-right (has_id f.id (ids queue)) _ (
                  has_id-In f children (
                    filter-In (λ (g : FlowEntity). not (has_id g.id seen))
                      (children_of current.id flows) f
                      (order_by-In (λ (g : FlowEntity). g.id) f (filter (is_child current.id) flows)
                        (filter-In (is_child current.id) flows f m c))
                      (ap not t)))))
      ]

      other :
          (f : FlowEntity)
          → In f flows
          → parent_in visited f ≡ false
          → Pending seen (queue ++ children) f
      other f m p = elim (Bool-cases (is_child current.id f)) [
        | inl t ↦ new_child f m t
        | inr t ↦ inl (no_parent current.id visited f p t)
      ]

      moved :
          (f : FlowEntity)
          → In f flows
          → Pending visited (current ∷ queue) f
          → Pending seen (queue ++ children) f
      moved f m (inl p) = other f m p
      moved f m (inr (inl p)) = inr (inl (or-right (eqb current.id f.id) _ p))
      moved f m (inr (inr p)) = elim (kept f.id p) [ inl t ↦ inr (inl t) | inr t ↦ inr (inr t) ]

      by_root :
          (has_id root visited ≡ true) ⊎ (has_id root (ids (current ∷ queue)) ≡ true)
          → (has_id root seen ≡ true) ⊎ (has_id root (ids (queue ++ children)) ≡ true)
      by_root (inl p) = inl (or-right (eqb current.id root) _ p)
      by_root (inr p) = kept root p

  collect-Collected :
      (fuel : ℕ) (queue : List FlowEntity) (visited : List ℕ) (ordered : List FlowEntity)
      → IsWalk queue visited ordered
      → length queue + length (filter (unexplored visited) flows) < fuel
      → Collected (collect flows fuel queue visited ordered)
  unfolding collect
  collect-Collected zero queue visited ordered w enough = absurd (omega (arith, enough))
  collect-Collected (suc fuel) [] visited ordered (down, ds, pending, same, here) enough =
      subst IsSubtree same
        (rooted here, down, All-weaken (Pending visited []) _ flows closed pending)
    where
      rooted : (has_id root visited ≡ true) ⊎ (has_id root [] ≡ true) → has_id root visited ≡ true
      rooted (inl h) = h
      rooted (inr h) = cc

      closed :
          (f : FlowEntity)
          → Pending visited [] f
          → (parent_in visited f ≡ false) ⊎ (has_id f.id visited ≡ true)
      closed f (inl p) = inl p
      closed f (inr (inl p)) = inr p
      closed f (inr (inr p)) = cc
  collect-Collected (suc fuel) (current ∷ queue) visited ordered w enough =
      if-holds Collected (has_id current.id visited)
        (λ t.
          collect-Collected fuel queue visited ordered
            (skip-IsWalk current queue visited ordered t w) (omega (arith, enough)))
        (λ f.
          collect-Collected fuel _ (current.id ∷ visited) (current ∷ ordered)
            (visit-IsWalk current queue visited ordered w) (fewer f))
    where
      fewer :
          has_id current.id visited ≡ false
          → length (
                queue
                ++ filter
                    (λ g. not (has_id g.id (current.id ∷ visited)))
                    (children_of current.id flows))
              + length (filter (unexplored (current.id ∷ visited)) flows)
            < fuel
      fewer f = omega (
        arith,
        enough,
        length-append queue
            (filter (λ g. not (has_id g.id (current.id ∷ visited))) (children_of current.id flows)),
        length-filter (λ g. not (has_id g.id (current.id ∷ visited)))
            (children_of current.id flows),
        length-children current.id flows,
        children-explored current.id visited flows f,
      )

  -- The walk that starts at a flow.
  start-IsWalk : (flow : FlowEntity) → flow.id ≡ root → IsWalk (flow ∷ []) [] []
  start-IsWalk flow same = (
    tt,
    (subst (λ n. Descends flows root n) (sym same) itself, tt),
    All-each (Pending [] (flow ∷ [])) flows (λ f m. inl (no_one f.parent_flow_id)),
    refl,
    inr (ground (arith, eqb-true flow.id root same)),
  )
    where
      no_one : (o : Option ℕ) → (elim o [ none ↦ false | some q ↦ has_id q [] ]) ≡ false
      no_one none = refl
      no_one (some q) = refl

  pub collect_subtree-Collected :
      (flow : FlowEntity) → flow.id ≡ root → Collected (collect_flow_subtree_for_delete flow flows)
  unfolding collect_flow_subtree_for_delete
  collect_subtree-Collected flow same =
      collect-Collected (length flows + 2) (flow ∷ []) [] [] (start-IsWalk flow same)
        (omega (arith, length-filter (unexplored []) flows))
