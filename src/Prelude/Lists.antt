-- ===== src/Prelude/Lists.antt =====
-- Lists under Boolean tests (`find`, `filter`, `some`, `every` of arrays) and measured by ℕ.
use Prim.Native.Nat.{ℕ, suc, ◌+◌}
use mathlib.Core.Path.{◌≡◌, refl, ap, ◌∙◌, subst, sym}
use mathlib.Core.Logic.{◌⊎◌, inl, inr}
use mathlib.Core.Bool.{Bool, true, false, ◌&&◌, ◌||◌}
use mathlib.Core.Option.{Option, none, some}
use mathlib.Core.List.{List, [], ◌∷◌, ◌++◌}
use native.Mathlib.Omega.{arith}
use callytics.Prelude.Tests.{if◌then◌else◌, Bool-cases, eqb, if-holds}

module _ {ℓ} {A : Type ℓ} where
  abbrev pub length : List A → ℕ
  length [] = 0
  length (x ∷ xs) = suc (length xs)

  abbrev pub find? : (A → Bool) → List A → Option A
  find? p [] = none
  find? p (x ∷ xs) = if p x then some x else find? p xs

  abbrev pub filter : (A → Bool) → List A → List A
  filter p [] = []
  filter p (x ∷ xs) = if p x then x ∷ filter p xs else filter p xs

  abbrev pub any : List A → (A → Bool) → Bool
  any [] p = false
  any (x ∷ xs) p = p x || any xs p

  abbrev pub all : List A → (A → Bool) → Bool
  all [] p = true
  all (x ∷ xs) p = p x && all xs p

  abbrev pub All {κ} : (A → Type κ) → List A → Type κ
  All P [] = Unit
  All P (x ∷ xs) = P x × All P xs

  pub length-append : (xs ys : List A) → length (xs ++ ys) ≡ length xs + length ys
  length-append [] ys = omega arith
  length-append (x ∷ xs) ys = omega (arith, length-append xs ys)

  -- What `find` returns passes the test and is in the list.
  pub find?-test : (p : A → Bool) (xs : List A) {x : A} → find? p xs ≡ some x → p x ≡ true
  find?-test p [] h = cc
  find?-test p (y ∷ xs) {x} h = elim (Bool-cases (p y)) [
    | inl t ↦ ground (arith, t)
    | inr f ↦ find?-test p xs (rw f at h)
  ]

module _ {A : Type 0} where
  -- Membership with its place, by recursion.
  abbrev pub In : A → List A → Type 0
  In a [] = ⊥
  In a (x ∷ xs) = (a ≡ x) ⊎ In a xs

  pub find?-In : (p : A → Bool) (xs : List A) {x : A} → find? p xs ≡ some x → In x xs
  find?-In p [] h = cc
  find?-In p (y ∷ xs) {x} h = elim (Bool-cases (p y)) [
    | inl t ↦ inl (ground (arith, t))
    | inr f ↦ inr (find?-In p xs (rw f at h))
  ]

  -- `find` misses only where nothing in the list passes.
  pub find?-none : (p : A → Bool) (xs : List A) (x : A) → find? p xs ≡ none → In x xs → p x ≡ false
  find?-none p [] x h m = absurd m
  find?-none p (y ∷ xs) x h (inl e) = elim (Bool-cases (p y)) [ inl t ↦ cc | inr f ↦ ap p e ∙ f ]
  find?-none p (y ∷ xs) x h (inr m) = elim (Bool-cases (p y)) [
    | inl t ↦ ground (arith, t)
    | inr f ↦ find?-none p xs x (rw f at h) m
  ]

  In-filter-head :
      (p : A → Bool) (y : A) (xs : List A) (x : A)
      → p y ≡ true
      → (In x (filter p xs) → In x xs × (p x ≡ true))
      → In x (y ∷ filter p xs)
      → In x (y ∷ xs) × (p x ≡ true)
  In-filter-head p y xs x t rec (inl e) = (inl e, ap p e ∙ t)
  In-filter-head p y xs x t rec (inr m) = (inr ((rec m).0), (rec m).1)

  pub In-filter : (p : A → Bool) (xs : List A) (x : A) → In x (filter p xs) → In x xs × (p x ≡ true)
  In-filter p [] x m = absurd m
  In-filter p (y ∷ xs) x m = elim (Bool-cases (p y)) [
    | inl t ↦ In-filter-head p y xs x t (In-filter p xs x) (rw t at m)
    | inr f ↦ let found = In-filter p xs x (rw f at m) in (inr (found.0), found.1)
  ]

  pub filter-In : (p : A → Bool) (xs : List A) (x : A) → In x xs → p x ≡ true → In x (filter p xs)
  filter-In p [] x m h = absurd m
  filter-In p (y ∷ xs) x (inl e) h = rw (sym (ap p e) ∙ h) (inl e)
  filter-In p (y ∷ xs) x (inr m) h = elim (Bool-cases (p y)) [
    | inl t ↦ rw t (inr (filter-In p xs x m h))
    | inr f ↦ rw f (filter-In p xs x m h)
  ]

  pub All-In {κ} : (P : A → Type κ) (xs : List A) {x : A} → All P xs → In x xs → P x
  All-In P [] a m = absurd m
  All-In P (y ∷ xs) a (inl e) = subst P (sym e) (a.0)
  All-In P (y ∷ xs) a (inr m) = All-In P xs (a.1) m

  pub All-weaken : (P Q : A → Type 0) (xs : List A) → ((x : A) → P x → Q x) → All P xs → All Q xs
  All-weaken P Q [] f a = tt
  All-weaken P Q (x ∷ xs) f (p, a) = (f x p, All-weaken P Q xs f a)

  pub All-append : (P : A → Type 0) (xs ys : List A) → All P xs → All P ys → All P (xs ++ ys)
  All-append P [] ys a b = b
  All-append P (x ∷ xs) ys (p, a) b = (p, All-append P xs ys a b)

  -- What is left of a list after a filter also passes its test.
  pub All-filter :
      (P : A → Type 0) (p : A → Bool) (xs : List A)
      → All P xs
      → All (λ x. P x × (p x ≡ true)) (filter p xs)
  All-filter P p [] a = tt
  All-filter P p (x ∷ xs) (h, a) =
      if-holds (All (λ x. P x × (p x ≡ true))) (p x) (λ t. ((h, t), All-filter P p xs a))
        (λ _. All-filter P p xs a)

module _ {A : Type 0} where
  -- What holds of each member holds of the list.
  pub All-each : (P : A → Type 0) (xs : List A) → ((x : A) → In x xs → P x) → All P xs
  All-each P [] f = tt
  All-each P (x ∷ xs) f = (f x (inl refl), All-each P xs (λ y m. f y (inr m)))

pub eqb-same : (a b : ℕ) → eqb a b ≡ true → a ≡ b
eqb-same a b h = ground arith

pub eqb-true : (a b : ℕ) → a ≡ b → eqb a b ≡ true
eqb-true a b h = ground (arith, h)
