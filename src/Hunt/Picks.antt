-- ===== src/Hunt/Picks.antt =====
-- Whom a round of `executeHunt` (stasis/src/nodes/hunt.executor.ts) picks, and that it has a dial
-- string.
use callytics.Hunt.{TargetType}
use callytics.Hunt.{TargetType, extension, pstn}
use callytics.Hunt.{Destination, Strategy, sequential, order, random, group}
use callytics.Hunt.Attempts.{
  Resolved, same_target, resolve_destinations, Leg, Hunt, HuntConfig, pick, dial_of,
}
use mathlib.Core.Path.{subst}
use callytics.Hunt.Attempts.{nth, first_or, next_random_destination, nobody, same_type}
use callytics.Prelude.{
  ℕ, zero, suc, ◌%◌, ◌<◌, String, ◌≡◌, refl, sym, ap, ◌⊎◌, inl, inr, Bool, true, false, not, ◌&&◌,
  Option, none, some, List, [], ◌∷◌, map, arith, ◌==◌, eq_refl, leb, eqb, if-holds, option-holds,
  length, find?, filter, In, find?-In, find?-none, In-filter, filter-In, is_empty,
}

-- Whom a round picks.
nth-In : (d : Destination) (ds : List Destination) (n : ℕ) → n < length ds → In (nth d ds n) ds
unfolding nth
nth-In d [] n low = absurd (omega (arith, low))
nth-In d (e ∷ ds) zero low = inl refl
nth-In d (e ∷ ds) (suc n) low = inr (nth-In d ds n (omega (arith, low)))

nth-default :
    (d : Destination) (ds : List Destination) (n : ℕ) → (nth d ds n ≡ d) ⊎ In (nth d ds n) ds
unfolding nth
nth-default d [] n = inl refl
nth-default d (e ∷ ds) zero = inr (inl refl)
nth-default d (e ∷ ds) (suc n) = elim (nth-default d ds n) [ inl h ↦ inl h | inr m ↦ inr (inr m) ]

first_or-In : (ds : List Destination) → 0 < length ds → In (first_or ds) ds
unfolding first_or
first_or-In [] some_one = absurd (omega (arith, some_one))
first_or-In (d ∷ ds) some_one = inl refl

next_random_destination-In :
    (choice : ℕ) (ds : List Destination) (last : Option Destination)
    → 0 < length ds
    → In (next_random_destination choice ds last) ds
unfolding next_random_destination
next_random_destination-In choice ds last some_one =
    if-holds (λ d. In d ds) (leb (length ds) 1) (λ _. first_or-In ds some_one) λ _. by_last last
  where
    among :
        (l : Destination)
        → (nth (first_or ds) (filter (λ d. not (same_target d l)) ds) choice ≡ first_or ds)
          ⊎ In
              (nth (first_or ds) (filter (λ d. not (same_target d l)) ds) choice)
              (filter (λ d. not (same_target d l)) ds)
        → In (nth (first_or ds) (filter (λ d. not (same_target d l)) ds) choice) ds
    among l (inl e) = subst (λ d. In d ds) (sym e) (first_or-In ds some_one)
    among l (inr m) = (In-filter (λ d. not (same_target d l)) ds _ m).0

    by_last :
        (o : Option Destination)
        → In
            (nth
              (first_or ds)
              (elim o [ none ↦ ds | some l ↦ filter (λ d. not (same_target d l)) ds ])
              choice)
            ds
    by_last none = elim (nth-default (first_or ds) ds choice) [
      | inl e ↦ subst (λ d. In d ds) (sym e) (first_or-In ds some_one)
      | inr m ↦ m
    ]
    by_last (some l) =
        among l (nth-default (first_or ds) (filter (λ d. not (same_target d l)) ds) choice)

same_target_refl : (d : Destination) → same_target d d ≡ true
unfolding same_target same_type
same_target_refl d = by_type d.target_type
  where
    by_type : (t : TargetType) → same_type t t && d.target_value == d.target_value ≡ true
    by_type extension = eq_refl d.target_value
    by_type pstn = eq_refl d.target_value

map-In :
    (dial : Destination → String) (ds : List Destination) (d : Destination)
    → In d ds
    → In {A = Resolved} (d, dial d) (map (λ x. (x, dial x)) ds)
map-In dial [] d m = absurd m
map-In dial (x ∷ ds) d (inl e) = inl (ap (λ y. (y, dial y)) e)
map-In dial (x ∷ ds) d (inr m) = inr (map-In dial ds d m)

module _ (config : HuntConfig) (legs : ℕ → Leg) (choices : ℕ → ℕ) (dial : Destination → String)
    (resolved : config.destinations ≡ resolve_destinations dial config.base_destinations) where
  pub pick-In :
      (h : Hunt)
      → 0 < length config.base_destinations
      → In (pick config legs choices h) config.base_destinations
  unfolding pick
  pick-In h some_one = by_strategy config.strategy
    where
      cyclic :
          In
            (nth nobody config.base_destinations
              (h.sequential_index % length config.base_destinations))
            config.base_destinations
      cyclic = nth-In nobody config.base_destinations _ (omega (arith, some_one))

      by_strategy :
          (s : Strategy)
          → In
              (elim s [
                | random ↦
                    next_random_destination
                      (choices h.sequential_index)
                      config.base_destinations
                      h.last_destination
                | _ ↦
                    nth nobody config.base_destinations
                      (h.sequential_index % length config.base_destinations)
              ])
              config.base_destinations
      by_strategy random =
          next_random_destination-In _ config.base_destinations h.last_destination some_one
      by_strategy sequential = cyclic
      by_strategy order = cyclic
      by_strategy group = cyclic

  -- A destination of the list has a dial string, if all destinations have one.
  pub dial_of-full :
      (d : Destination)
      → ((x : Destination) → In x config.base_destinations → is_empty (dial x) ≡ false)
      → In d config.base_destinations
      → is_empty (dial_of config legs choices d) ≡ false
  unfolding dial_of resolve_destinations
  dial_of-full d full m =
      option-holds (λ t. is_empty t ≡ false) (find? (λ r. same_target (r.0) d) config.destinations)
        (λ missing.
          absurd
            (cc (find?-none _ config.destinations (d, dial d) missing there, same_target_refl d)))
        (λ r found. nonempty (is_empty (r.1)) (
          (In-filter (λ x. not (is_empty (x.1))) (map (λ x. (x, dial x)) config.base_destinations) r
            (subst (λ rs. In {A = Resolved} r rs) resolved
              (find?-In _ config.destinations found))).1))
    where
      nonempty : (b : Bool) → not b ≡ true → b ≡ false
      nonempty b h = ground arith

      there : In {A = Resolved} (d, dial d) config.destinations
      there =
          subst (λ rs. In {A = Resolved} (d, dial d) rs) (sym resolved)
            (filter-In (λ r. not (is_empty (r.1))) (map (λ x. (x, dial x)) config.base_destinations)
              (d, dial d) (map-In dial config.base_destinations d m) (rw (full d m) refl))

  -- Where something resolves there is a destination.
  pub base-pos : eqb (length config.destinations) 0 ≡ false → 0 < length config.base_destinations
  unfolding resolve_destinations
  base-pos h =
      by_list config.base_destinations
        (subst (λ (rs : List Resolved). eqb (length rs) 0 ≡ false) resolved h)
    where
      by_list :
          (ds : List Destination)
          → eqb
              (length (filter (λ (r : Resolved). not (is_empty (r.1))) (map (λ d. (d, dial d)) ds)))
              0
            ≡ false
          → 0 < length ds
      by_list [] e = cc
      by_list (d ∷ ds) e = omega arith
