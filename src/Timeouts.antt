-- ===== src/Timeouts.antt =====
-- stasis/src/timeoutResolver.ts: how long a node waits, in milliseconds.
mod Tests
use callytics.Flow.{FlowNode, Flow, find_type}
use callytics.Js.{Value, Number, nan, nat, negative, undefined, null, get, to_number}
use callytics.Session.{CallSession}
use callytics.Prelude.{
  ℕ, zero, suc, ◌+◌, ◌-◌, ◌*◌, ◌/◌, ◌%◌, ◌≤◌, ◌<◌, String, ◌≡◌, refl, sym, ap, ◌∙◌, ◌≢◌, ◌↔◌, ◌⊎◌,
  inl, inr, Bool, true, false, not, ◌&&◌, ◌||◌, Option, none, some, List, [], ◌∷◌, ◌++◌, map, arith,
  ◌==◌, eq_iff, eq_refl, ltb, leb, eqb, if◌then◌else◌, Bool-cases, Option-cases, or_else, is_some,
  if-holds, option-holds, length, find?, filter, any, all, All, length-append, find?-test, In,
  find?-In, find?-none, In-filter, filter-In, All-In, codes, is_space, trim_start, trim_end, trim,
  drop_prefix, is_empty, is_digit, digits_value, show_ℕ, digits_value-show_ℕ, all_digits,
  show_ℕ-digits, trim-digits, show_ℕ-not_empty,
}

abbrev pub min_timeout_ms : ℕ
min_timeout_ms = 1000

abbrev pub max_timeout_ms : ℕ
max_timeout_ms = 120000

abbrev pub inter_digit_timeout_ms : ℕ
inter_digit_timeout_ms = 4000

in_range : Number → Option ℕ
in_range nan = none
in_range (nat n) = if ltb n min_timeout_ms || ltb max_timeout_ms n then none else some n
in_range (negative n) = none

unfoldable pub parse_valid_timeout_ms : Value → Option ℕ
unfolding in_range
parse_valid_timeout_ms v = in_range (to_number v)

-- `a ?? b`
abbrev pub nullish_or : Value → Value → Value
nullish_or undefined b = b
nullish_or null b = b
nullish_or a b = a

unfoldable pub resolve_flow_default_timeout_ms : CallSession → Option ℕ
unfolding parse_valid_timeout_ms get
resolve_flow_default_timeout_ms s = elim (find_type "start" s.flow.nodes) [
  | none ↦ none
  | some n ↦ parse_valid_timeout_ms (
      nullish_or (get n.config "flow_default_timeout_ms")
        (get n.config "queue_login_default_input_timeout_ms"))
]

abbrev pub or_value : Option ℕ → ℕ → ℕ
or_value none d = d
or_value (some n) d = n

unfoldable pub resolve_node_timeout_ms : FlowNode → CallSession → ℕ → ℕ
unfolding parse_valid_timeout_ms resolve_flow_default_timeout_ms
resolve_node_timeout_ms node s fallback =
    or_value
      (or_else (parse_valid_timeout_ms (get node.config "timeout_ms"))
        (resolve_flow_default_timeout_ms s))
      fallback

pub parse_valid_timeout_ms_range :
    (v : Value) {n : ℕ}
    → parse_valid_timeout_ms v ≡ some n
    → (min_timeout_ms ≤ n) × (n ≤ max_timeout_ms)
unfolding parse_valid_timeout_ms
parse_valid_timeout_ms_range v {n} h = by_number (to_number v) h
  where
    by_number : (m : Number) → in_range m ≡ some n → (min_timeout_ms ≤ n) × (n ≤ max_timeout_ms)
    by_number nan e = absurd (cc)
    by_number (nat k) e = ground (arith, e)
    by_number (negative k) e = absurd (cc)

resolve_flow_default-range :
    (s : CallSession) {n : ℕ}
    → resolve_flow_default_timeout_ms s ≡ some n
    → (min_timeout_ms ≤ n) × (n ≤ max_timeout_ms)
unfolding resolve_flow_default_timeout_ms
resolve_flow_default-range s {n} h = by_start (find_type "start" s.flow.nodes) h
  where
    by_start :
        (o : Option FlowNode)
        → (elim o [
          | none ↦ none
          | some m ↦ parse_valid_timeout_ms (
              nullish_or
                (get m.config "flow_default_timeout_ms")
                (get m.config "queue_login_default_input_timeout_ms"))
        ])
          ≡ some n
        → (min_timeout_ms ≤ n) × (n ≤ max_timeout_ms)
    by_start none e = absurd (cc)
    by_start (some m) e = parse_valid_timeout_ms_range _ e

-- Whatever the configuration holds, a node waits between one second and two minutes, provided that
-- its fallback lies there. It waits its own valid time, or else the flow's, or else the fallback.
pub resolve_node_timeout_ms_range :
    (node : FlowNode) (s : CallSession) (fallback : ℕ)
    → min_timeout_ms ≤ fallback
    → fallback ≤ max_timeout_ms
    → (min_timeout_ms ≤ resolve_node_timeout_ms node s fallback)
      × (resolve_node_timeout_ms node s fallback ≤ max_timeout_ms)
      × ((parse_valid_timeout_ms (get node.config "timeout_ms")
            ≡ some (resolve_node_timeout_ms node s fallback))
          ⊎ ((parse_valid_timeout_ms (get node.config "timeout_ms") ≡ none)
              × ((resolve_flow_default_timeout_ms s
                    ≡ some (resolve_node_timeout_ms node s fallback))
                  ⊎ ((resolve_flow_default_timeout_ms s ≡ none)
                      × (resolve_node_timeout_ms node s fallback ≡ fallback)))))
unfolding resolve_node_timeout_ms
resolve_node_timeout_ms_range node s fallback lo hi =
    by_source (parse_valid_timeout_ms (get node.config "timeout_ms"))
      (resolve_flow_default_timeout_ms s)
      (λ n. parse_valid_timeout_ms_range (get node.config "timeout_ms"))
      (λ n. resolve_flow_default-range s)
  where
    by_source :
        (own flow : Option ℕ)
        → ((n : ℕ) → own ≡ some n → (min_timeout_ms ≤ n) × (n ≤ max_timeout_ms))
        → ((n : ℕ) → flow ≡ some n → (min_timeout_ms ≤ n) × (n ≤ max_timeout_ms))
        → (min_timeout_ms ≤ or_value (or_else own flow) fallback)
          × (or_value (or_else own flow) fallback ≤ max_timeout_ms)
          × ((own ≡ some (or_value (or_else own flow) fallback))
              ⊎ ((own ≡ none)
                  × ((flow ≡ some (or_value (or_else own flow) fallback))
                      ⊎ ((flow ≡ none) × (or_value (or_else own flow) fallback ≡ fallback)))))
    by_source none none ho hf = (lo, hi, inr (refl, inr (refl, refl)))
    by_source none (some n) ho hf = ((hf n refl).0, (hf n refl).1, inr (refl, inl refl))
    by_source (some n) flow ho hf = ((ho n refl).0, (ho n refl).1, inl refl)
