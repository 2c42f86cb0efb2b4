-- ===== src/Queue/Sets.antt =====
-- The Redis sets of the queues, as lists without repetition.
use callytics.Queue.{member, s_add, s_rem, s_pop}
use callytics.Prelude.{
  ℕ, zero, suc, ◌≡◌, refl, inl, inr, Bool, true, false, not, ◌&&◌, ◌||◌, some, List, [], ◌∷◌, arith,
  eqb, Bool-cases, Option-cases,
}

abbrev pub distinct : List ℕ → Bool
distinct [] = true
distinct (x ∷ xs) = not (member x xs) && distinct xs

-- An element that is there changes nothing.
already : (x y : ℕ) (xs : List ℕ) → member y xs ≡ true → member x xs ≡ (eqb y x || member x xs)
unfolding member
already x y [] h = cc
already x y (z ∷ zs) h = ground (arith, already x y zs)

pub member-s_add : (x y : ℕ) (xs : List ℕ) → member x (s_add y xs) ≡ (eqb y x || member x xs)
unfolding member s_add
member-s_add x y xs = elim (Bool-cases (member y xs)) [
  | inl there ↦ rw (there, s_add) (already x y xs there)
  | inr missing ↦ rw (missing, s_add) refl
]

pub member-s_rem : (x y : ℕ) (xs : List ℕ) → member x (s_rem y xs) ≡ (not (eqb y x) && member x xs)
unfolding member s_rem
member-s_rem x y [] = ground arith
member-s_rem x y (z ∷ zs) = ground (arith, member-s_rem x y zs)

pub distinct-s_add : (x : ℕ) (xs : List ℕ) → distinct xs ≡ true → distinct (s_add x xs) ≡ true
unfolding s_add
distinct-s_add x xs h = ground (arith, h)

pub distinct-s_rem : (x : ℕ) (xs : List ℕ) → distinct xs ≡ true → distinct (s_rem x xs) ≡ true
unfolding s_rem
distinct-s_rem x [] h = refl
distinct-s_rem x (y ∷ ys) h = ground (arith, distinct-s_rem x ys, member-s_rem y x ys)

-- SPOP takes one element out, and leaves the others.
pub s_pop-member :
    (i : ℕ) (xs ys : List ℕ) (x z : ℕ)
    → s_pop i xs ≡ some (x, ys)
    → member z xs ≡ (eqb x z || member z ys)
unfolding s_pop member
s_pop-member i [] ys x z h = cc
s_pop-member zero (w ∷ ws) ys x z h = ground arith
s_pop-member (suc i) (w ∷ ws) ys x z h = elim (Option-cases (s_pop i ws)) [
  | inl e ↦ ground (arith, e)
  | inr ((v, vs), e) ↦ ground (arith, e, s_pop-member i ws vs v z e)
]

pub s_pop-distinct :
    (i : ℕ) (xs ys : List ℕ) (x : ℕ)
    → s_pop i xs ≡ some (x, ys)
    → distinct xs ≡ true
    → (distinct ys ≡ true) × (member x ys ≡ false)
unfolding s_pop member
s_pop-distinct i [] ys x h d = cc
s_pop-distinct zero (w ∷ ws) ys x h d = ground arith
s_pop-distinct (suc i) (w ∷ ws) ys x h d = elim (Option-cases (s_pop i ws)) [
  | inl e ↦ ground (arith, e)
  | inr ((v, vs), e) ↦ ground (arith, e, s_pop-distinct i ws vs v e, s_pop-member i ws vs v w e)
]
