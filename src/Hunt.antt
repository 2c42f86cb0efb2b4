-- ===== src/Hunt.antt =====
-- stasis/src/nodes/hunt.executor.ts: the destinations of a hunt and its loop of attempts, with
-- stasis/src/lib/formatDialNumber.ts.
pub mod Numbers
pub mod Attempts
pub mod Limits
pub mod Picks
pub mod Ends
mod Tests
use callytics.Flow.{FlowNode}
use callytics.Js.{
  Value, Fields, Items, Number, nan, nat, negative, arr, obj, str, get, items, text_of, to_number,
  truthy, number_or,
}
use callytics.Campaign.{lower}
use callytics.Prelude.{
  ℕ, zero, suc, ◌+◌, ◌-◌, ◌*◌, ◌/◌, ◌%◌, ◌≤◌, ◌<◌, String, ◌≡◌, refl, sym, ap, ◌∙◌, ◌≢◌, ◌↔◌, ◌⊎◌,
  inl, inr, Bool, true, false, not, ◌&&◌, ◌||◌, Option, none, some, List, [], ◌∷◌, ◌++◌, map, arith,
  ◌==◌, eq_iff, eq_refl, ltb, leb, eqb, if◌then◌else◌, Bool-cases, Option-cases, or_else, is_some,
  if-holds, option-holds, length, find?, filter, any, all, All, length-append, find?-test, In,
  find?-In, find?-none, In-filter, filter-In, All-In, codes, is_space, trim_start, trim_end, trim,
  drop_prefix, is_empty, is_digit, digits_value, show_ℕ, digits_value-show_ℕ, all_digits,
  show_ℕ-digits, trim-digits, show_ℕ-not_empty, concat, concat-cancel,
}

pub data TargetType : Type 0 where
  extension pstn : TargetType

-- `trunk_id` is set where the configuration's is truthy, `order` where it is a number.
pub record Destination : Type 0 where
  pub target_type : TargetType
  pub target_value : String
  pub trunk_id : Option Number
  pub order : Option Number

target_type_of : Value → Option TargetType
target_type_of (str s) =
    if s == "pstn" then some pstn else if s == "extension" then some extension else none
target_type_of _ = none

finite : Number → Option Number
finite nan = none
finite (nat n) = some (nat n)
finite (negative n) = some (negative n)

normalize_destination : Value → Option Destination
unfolding target_type_of finite
normalize_destination (obj item) =
    let value = trim (text_of (get item "target_value")) in
    elim (target_type_of (get item "target_type")) [
      | none ↦ none
      | some type ↦
          if is_empty value
          then none
          else some (record {
            target_type = type;
            target_value = value;
            trunk_id =
                if truthy (get item "trunk_id")
                then some (to_number (get item "trunk_id"))
                else none;
            order = finite (to_number (get item "order"));
          })
    ]
normalize_destination _ = none

-- `map` and `filter(Boolean)`
pub kept : {A B : Type 0} → (A → Option B) → List A → List B
kept f [] = []
kept f (x ∷ xs) = let rest = kept f xs in elim (f x) [ none ↦ rest | some y ↦ y ∷ rest ]

unfoldable pub normalize_destinations : FlowNode → List Destination
unfolding normalize_destination kept
normalize_destinations node = elim (get node.config "destinations") [
  | arr vs ↦ kept normalize_destination (items vs)
  | _ ↦ []
]

pub data Strategy : Type 0 where
  sequential order random group : Strategy

lower_text : String → List ℕ
lower_text s = map lower (codes s)

same_codes : List ℕ → List ℕ → Bool
same_codes [] [] = true
same_codes [] (d ∷ ds) = false
same_codes (c ∷ cs) [] = false
same_codes (c ∷ cs) (d ∷ ds) = eqb c d && same_codes cs ds

-- `String(node.config.strategy || 'sequential').trim().toLowerCase()`, as the code compares it.
unfoldable pub strategy_of : FlowNode → Strategy
unfolding lower_text same_codes
strategy_of node =
    let text = lower_text (trim (text_of (get node.config "strategy"))) in
    if same_codes text (codes "order")
    then order
    else if same_codes text (codes "random")
    then random
    else if same_codes text (codes "group")
    then group
    else sequential

-- `(a.order ?? 0) - (b.order ?? 0) <= 0`
at_most : Number → Number → Bool
at_most nan b = true
at_most (nat a) nan = true
at_most (nat a) (nat b) = leb a b
at_most (nat a) (negative b) = false
at_most (negative a) nan = true
at_most (negative a) (nat b) = true
at_most (negative a) (negative b) = leb b a

unfoldable pub order_of : Destination → Number
order_of d = elim d.order [ none ↦ nat 0 | some n ↦ n ]

insert_ordered : Destination → List Destination → List Destination
unfolding at_most
insert_ordered d [] = d ∷ []
insert_ordered d (e ∷ ds) =
    if at_most (order_of d) (order_of e) then d ∷ e ∷ ds else e ∷ insert_ordered d ds

unfoldable pub sort_by_order : List Destination → List Destination
unfolding insert_ordered
sort_by_order [] = []
sort_by_order (d ∷ ds) = insert_ordered d (sort_by_order ds)

-- `Math.max(1, Number(value) || standard)`
unfoldable pub at_least_one : Value → ℕ → ℕ
unfolding number_or
at_least_one v standard = elim (number_or v standard) [
  | nan ↦ 1
  | nat n ↦ if ltb n 1 then 1 else n
  | negative n ↦ 1
]

unfoldable pub no_answer_result : FlowNode → String
no_answer_result node =
    let key = trim (text_of (get node.config "on_no_answer")) in
    if is_empty key then "hangup" else concat "route:" key
