-- ===== src/FlowTree/Roots.antt =====
-- `getRootFlowId` (backend/src/flows/flows.service.ts) climbs from a flow to the root of its tree.
use callytics.FlowTree.{
  FlowEntity, has_id, find_flow, Root, root_flow, circular, not_found, root_loop, get_root_flow_id,
}
use mathlib.Core.Path.{subst}
use callytics.Prelude.{
  ℕ, zero, suc, ◌+◌, ◌≤◌, ◌<◌, ◌≡◌, refl, sym, ap, ◌∙◌, Bool, true, false, not, Option, none, some,
  List, [], ◌∷◌, arith, eqb, Bool-cases, if-holds, length, find?, filter, All, find?-test, find?-In,
  inl, inr, All-weaken, In, eqb-same, eqb-true,
}

-- The rows that the loop has not been at.
abbrev unseen : List ℕ → FlowEntity → Bool
unseen seen f = not (has_id f.id seen)

unseen-length :
    (seen : List ℕ) (flows : List FlowEntity) → length (filter (unseen seen) flows) ≤ length flows
unseen-length seen [] = omega arith
unseen-length seen (f ∷ flows) = ground (arith, unseen-length seen flows)

unseen_mono :
    (n : ℕ) (seen : List ℕ) (flows : List FlowEntity)
    → length (filter (unseen (n ∷ seen)) flows) ≤ length (filter (unseen seen) flows)
unseen_mono n seen [] = omega arith
unseen_mono n seen (f ∷ flows) = ground (arith, unseen_mono n seen flows)

-- To be at a row that is new leaves fewer of them.
unseen-fewer :
    (f : FlowEntity) (seen : List ℕ) (flows : List FlowEntity)
    → In f flows
    → has_id f.id seen ≡ false
    → length (filter (unseen (f.id ∷ seen)) flows) < length (filter (unseen seen) flows)
unseen-fewer f seen [] m h = absurd m
unseen-fewer f seen (g ∷ flows) (inl e) h =
    let same = ap (λ (x : FlowEntity). x.id) e in
    let old = sym (ap (λ n. has_id n seen) same) ∙ h in
    let new = eqb-true f.id g.id same in ground (arith, old, new, unseen_mono f.id seen flows)
unseen-fewer f seen (g ∷ flows) (inr m) h = ground (arith, unseen-fewer f seen flows m h)

All-has_id : (P : ℕ → Type 0) (ns : List ℕ) (n : ℕ) → has_id n ns ≡ true → All P ns → P n
All-has_id P [] n h ps = cc
All-has_id P (m ∷ ns) n h (p, ps) = elim (Bool-cases (eqb m n)) [
  | inl t ↦ subst P (eqb-same m n t) p
  | inr t ↦ All-has_id P ns n (rw t at h) ps
]

module _ (flows : List FlowEntity) where
  abbrev pub HasParent : ℕ → ℕ → Type 0
  HasParent n p = (f : FlowEntity) × (find_flow n flows ≡ some f) × (f.parent_flow_id ≡ some p)

  pub data Climbs (start : ℕ) : ℕ → Type 0 where
    here : Climbs start start
    up : (n p : ℕ) → Climbs start n → HasParent n p → Climbs start p

  -- One flow is an ancestor of another, at any distance but none.
  abbrev pub IsAbove : ℕ → ℕ → Type 0
  IsAbove n m = (q : ℕ) × Climbs m q × HasParent q n

  abbrev pub IsRootOf : ℕ → Option Root → Type 0
  IsRootOf id none = ⊥
  IsRootOf id (some (root_flow r)) =
      Climbs id r × ((f : FlowEntity) × (find_flow r flows ≡ some f) × (f.parent_flow_id ≡ none))
  IsRootOf id (some circular) = (n : ℕ) × Climbs id n × IsAbove n n
  IsRootOf id (some not_found) = (n : ℕ) × Climbs id n × (find_flow n flows ≡ none)

  -- The loop at a flow: what it was at is below it, and it started there.
  abbrev IsClimb : ℕ → ℕ → List ℕ → Type 0
  IsClimb id current seen = Climbs id current × All (λ n. IsAbove current n) seen

  IsAbove-up : (n p m : ℕ) → HasParent n p → IsAbove n m → IsAbove p m
  IsAbove-up n p m h (q, climb, above) = (n, up q n climb above, h)

  found-id :
      (n : ℕ) {f : FlowEntity} → find? (λ (g : FlowEntity). eqb g.id n) flows ≡ some f → f.id ≡ n
  found-id n {f} e = eqb-same f.id n (find?-test (λ (g : FlowEntity). eqb g.id n) flows e)

  -- One turn of the loop.
  up-IsClimb :
      (id current parent : ℕ) (seen : List ℕ)
      → HasParent current parent
      → IsClimb id current seen
      → IsClimb id parent (current ∷ seen)
  up-IsClimb id current parent seen step (climb, belows) = (
    up current parent climb step,
    (
      (current, here, step),
      All-weaken (λ n. IsAbove current n) (λ n. IsAbove parent n) seen
          (λ n a. IsAbove-up current parent n step a) belows,
    ),
  )

  found-fewer :
      (n : ℕ) (seen : List ℕ) (f : FlowEntity)
      → find? (λ (g : FlowEntity). eqb g.id n) flows ≡ some f
      → has_id n seen ≡ false
      → length (filter (unseen (n ∷ seen)) flows) < length (filter (unseen seen) flows)
  found-fewer n seen f e new =
      subst (λ m. length (filter (unseen (m ∷ seen)) flows) < length (filter (unseen seen) flows))
        (found-id n e)
        (unseen-fewer f seen flows (find?-In (λ (g : FlowEntity). eqb g.id n) flows e)
          (ap (λ m. has_id m seen) (found-id n e) ∙ new))

  root_loop-IsRootOf :
      (id fuel current : ℕ) (seen : List ℕ)
      → IsClimb id current seen
      → length (filter (unseen seen) flows) < fuel
      → IsRootOf id (root_loop flows fuel current seen)
  unfolding root_loop find_flow
  root_loop-IsRootOf id zero current seen w enough = absurd (omega (arith, enough))
  root_loop-IsRootOf id (suc fuel) current seen (climb, belows) enough =
      if-holds (IsRootOf id) (has_id current seen)
        (λ t. (current, climb, All-has_id (λ n. IsAbove current n) seen current t belows))
        (λ f.
          by_flow f (λ p s. root_loop-IsRootOf id fuel p s)
            (find? (λ (g : FlowEntity). eqb g.id current) flows) refl)
    where
      by_parent :
          has_id current seen ≡ false
          → ((p : ℕ) (s : List ℕ)
              → IsClimb id p s
              → length (filter (unseen s) flows) < fuel
              → IsRootOf id (root_loop flows fuel p s))
          → (flow : FlowEntity) → find? (λ (g : FlowEntity). eqb g.id current) flows ≡ some flow
          → (o : Option ℕ) → flow.parent_flow_id ≡ o
          → IsRootOf id (elim o [
            | none ↦ some (root_flow flow.id)
            | some parent ↦ root_loop flows fuel parent (current ∷ seen)
          ])
      by_parent new rec flow e none p =
          subst (λ n. IsRootOf id (some (root_flow n))) (sym (found-id current e))
            (climb, (flow, e, p))
      by_parent new rec flow e (some parent) p =
          rec parent (current ∷ seen)
            (up-IsClimb id current parent seen (flow, e, p) (climb, belows))
            (omega (arith, enough, found-fewer current seen flow e new))

      by_flow :
          has_id current seen ≡ false
          → ((p : ℕ) (s : List ℕ)
              → IsClimb id p s
              → length (filter (unseen s) flows) < fuel
              → IsRootOf id (root_loop flows fuel p s))
          → (o : Option FlowEntity) → find? (λ (g : FlowEntity). eqb g.id current) flows ≡ o
          → IsRootOf id (elim o [
            | none ↦ some not_found
            | some flow ↦ elim flow.parent_flow_id [
              | none ↦ some (root_flow flow.id)
              | some parent ↦ root_loop flows fuel parent (current ∷ seen)
            ]
          ])
      by_flow new rec none e = (current, climb, e)
      by_flow new rec (some flow) e = by_parent new rec flow e flow.parent_flow_id refl

  -- The search for the root of a flow ends, whatever the parents are. What it finds has no parent
  -- and is reached from the flow by going from flow to parent; it reports a circle only where that
  -- way leads to a flow that is above itself, and a missing flow only where it leads to an id that
  -- no flow has.
  pub get_root_flow_id-IsRootOf : (id : ℕ) → IsRootOf id (get_root_flow_id flows id)
  unfolding get_root_flow_id
  get_root_flow_id-IsRootOf id =
      root_loop-IsRootOf id (length flows + 2) id [] (here, tt)
        (omega (arith, unseen-length [] flows))
