-- ===== src/BusinessHours.antt =====
-- stasis/src/executors/business_hours.executor.ts: whether a call comes within the hours of a node.
-- What `Intl.DateTimeFormat` says of the present moment in a time zone is a parameter: `none` where it
-- throws, and else the weekday in lower case, the hour and the minute.
pub mod Opening
mod Tests
use Prim.Native.Char.{Char, code}
use callytics.Js.{Value, obj, Fields, get, truthy, text_of, Number, nan, nat, negative}
use callytics.Prelude.{
  ℕ, zero, suc, ◌+◌, ◌-◌, ◌*◌, ◌/◌, ◌%◌, ◌≤◌, ◌<◌, String, ◌≡◌, refl, sym, ap, ◌∙◌, ◌≢◌, ◌↔◌, ◌⊎◌,
  inl, inr, Bool, true, false, not, ◌&&◌, ◌||◌, Option, none, some, List, [], ◌∷◌, ◌++◌, map, arith,
  ◌==◌, eq_iff, eq_refl, ltb, leb, eqb, if◌then◌else◌, Bool-cases, Option-cases, or_else, is_some,
  if-holds, option-holds, length, find?, filter, any, all, All, length-append, find?-test, In,
  find?-In, find?-none, In-filter, filter-In, All-In, codes, is_space, trim_start, trim_end, trim,
  drop_prefix, is_empty, is_digit, digits_value, show_ℕ, digits_value-show_ℕ, all_digits,
  show_ℕ-digits, trim-digits, show_ℕ-not_empty, concat, concat-cancel,
}

digit : Char → ℕ
digit c = code c - 48

-- `/^(\d{2}):(\d{2})$/`, and the ranges of a clock.
clock : String → Option ℕ
unfolding digit
clock (String.◌∷◌ a (String.◌∷◌ b (String.◌∷◌ colon (String.◌∷◌ c (String.◌∷◌ d String.[]))))) =
    let hours = digit a * 10 + digit b in
    let minutes = digit c * 10 + digit d in
    if is_digit (code a)
      && is_digit (code b)
      && eqb (code colon) 58
      && is_digit (code c)
      && is_digit (code d)
      && leb hours 23
      && leb minutes 59
    then some (hours * 60 + minutes)
    else none
clock _ = none

pub to_minutes : String → Option ℕ
unfolding clock
to_minutes value = clock (trim value)

abbrev day_keys : List String
day_keys = "sunday" ∷ "monday" ∷ "tuesday" ∷ "wednesday" ∷ "thursday" ∷ "friday" ∷ "saturday" ∷ []

abbrev integer : Number → Option ℕ
integer nan = none
integer (nat n) = some n
integer (negative n) = none

-- `value[key]` of what may be no object.
pub property : Value → String → Value
property (obj fs) key = get fs key
property v key = Value.undefined

abbrev pub Now : Type 0
Now = String × ℕ × ℕ

module _ (format : String → Option (String × Number × Number)) where
  pub resolve_now_parts : String → Option Now
  resolve_now_parts timezone = elim (format timezone) [
    | none ↦ none
    | some (weekday, hour, minute) ↦
        if any day_keys (λ k. k == weekday)
        then elim (integer hour) [
          | none ↦ none
          | some h ↦ elim (integer minute) [ none ↦ none | some m ↦ some (weekday, h, m) ]
        ]
        else none
  ]

  pub window : Option ℕ → Option ℕ → ℕ → String
  window none c t = "closed"
  window (some o) none t = "closed"
  window (some o) (some c) t =
      if leb c o then "closed" else if leb o t && leb t c then "open" else "closed"

  pub at_day : Value → ℕ → String
  unfolding window
  at_day day t =
      if truthy (property day "enabled")
      then window (to_minutes (text_of (property day "open")))
          (to_minutes (text_of (property day "close"))) t
      else "closed"

  abbrev pub timezone_of : Fields → String
  timezone_of config = trim (text_of (get config "timezone"))

  pub evaluate_business_hours : Fields → String
  unfolding at_day
  evaluate_business_hours config =
      if is_empty (timezone_of config)
      then "closed"
      else elim (resolve_now_parts (timezone_of config)) [
        | none ↦ "closed"
        | some (weekday, hour, minute) ↦
            at_day (property (get config "schedule") weekday) (hour * 60 + minute)
      ]
