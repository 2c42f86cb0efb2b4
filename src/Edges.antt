-- ===== src/Edges.antt =====
-- stasis/src/engine/edgeResolver.ts: which edge the result of a node selects.
pub mod Laws
use callytics.Flow.{FlowEdge}
use callytics.Prelude.{
  ℕ, zero, suc, ◌+◌, ◌-◌, ◌*◌, ◌/◌, ◌%◌, ◌≤◌, ◌<◌, String, ◌≡◌, refl, sym, ap, ◌∙◌, ◌≢◌, ◌↔◌, ◌⊎◌,
  inl, inr, Bool, true, false, not, ◌&&◌, ◌||◌, Option, none, some, List, [], ◌∷◌, ◌++◌, map, arith,
  ◌==◌, eq_iff, eq_refl, ltb, leb, eqb, if◌then◌else◌, Bool-cases, Option-cases, or_else, is_some,
  length, find?, filter, any, all, All, length-append, find?-test, In, find?-In, find?-none,
  In-filter, filter-In, All-In, codes, is_space, trim_start, trim_end, trim, drop_prefix, is_empty,
  is_digit, digits_value, show_ℕ,
}

-- `edge.condition === text`
abbrev pub has_condition : String → FlowEdge → Bool
has_condition text e = elim e.condition [ none ↦ false | some c ↦ c == text ]

abbrev pub unconditional : FlowEdge → Bool
unconditional e = not (is_some e.condition)

abbrev pub default_or_unconditional : FlowEdge → Bool
default_or_unconditional e = has_condition "default" e || unconditional e

unfoldable pub resolve_get_digits_edge : List FlowEdge → String → Option FlowEdge
resolve_get_digits_edge edges result = or_else (find? (has_condition result) edges) (
    if result == "timeout"
    then or_else (find? (has_condition "timeout") edges) (find? default_or_unconditional edges)
    else or_else (find? (has_condition "invalid") edges) (find? default_or_unconditional edges))

unfoldable pub resolve_conditional : List FlowEdge → String → Option FlowEdge
resolve_conditional outgoing result =
    let conditional = filter (λ e. is_some e.condition) outgoing in
    or_else (find? (has_condition result) conditional)
      (or_else (find? (has_condition "default") conditional) (find? unconditional outgoing))

unfoldable pub resolve_branch_key : List FlowEdge → String → Option FlowEdge
resolve_branch_key outgoing result =
    or_else (find? (λ e. e.branch_key == result) outgoing)
      (or_else (find? (λ e. e.branch_key == "default") outgoing) (find? unconditional outgoing))

abbrev pub outgoing_of : String → List FlowEdge → List FlowEdge
outgoing_of key edges = filter (λ e. e.source_node_key == key) edges

abbrev pub is_nil : List FlowEdge → Bool
is_nil [] = true
is_nil (e ∷ es) = false

unfoldable pub resolve_next_edge : String → String → String → List FlowEdge → Option FlowEdge
unfolding resolve_get_digits_edge resolve_conditional resolve_branch_key
resolve_next_edge current type result edges =
    let outgoing = outgoing_of current edges in
    if is_nil outgoing
    then none
    else if type == "get_digits"
    then resolve_get_digits_edge outgoing result
    else if any outgoing (λ e. is_some e.condition)
    then resolve_conditional outgoing result
    else resolve_branch_key outgoing result
