-- ===== src/Edges/Laws.antt =====
-- Laws of the edge resolver (stasis/src/engine/edgeResolver.ts): it picks the first edge of the
-- least rank, and so an outgoing edge of the node.
use callytics.Edges.{
  has_condition, unconditional, default_or_unconditional, resolve_get_digits_edge,
  resolve_conditional, resolve_branch_key, outgoing_of, is_nil, resolve_next_edge,
}
use callytics.Flow.{FlowEdge}
use callytics.Prelude.{
  ℕ, String, ◌≡◌, refl, sym, ◌∙◌, inl, inr, Bool, true, false, Option, none, some, List, [], ◌∷◌,
  arith, ◌==◌, eq_iff, ltb, leb, if◌then◌else◌, Bool-cases, Option-cases, or_else, is_some, find?,
  filter, any, find?-test, In, find?-In, find?-none, In-filter,
}

-- 0 to 2 for a candidate, 3 for none.
abbrev ranked : Bool → Bool → Bool → ℕ
ranked p q r = if p then 0 else if q then 1 else if r then 2 else 3

module _ {A : Type 0} where
  -- Of an edge and the best one behind it, the better; the earlier where both are as good.
  abbrev better : (A → ℕ) → A → Option A → Option A
  better rank e none = if ltb (rank e) 3 then some e else none
  better rank e (some f) = if leb (rank e) (rank f) then some e else some f

  -- The first edge of the least rank below 3.
  pub first_least : (A → ℕ) → List A → Option A
  first_least rank [] = none
  first_least rank (e ∷ es) = better rank e (first_least rank es)

  searches-first_least :
      (p q r : A → Bool) (es : List A)
      → or_else (find? p es) (or_else (find? q es) (find? r es))
        ≡ first_least (λ e. ranked (p e) (q e) (r e)) es
  unfolding first_least
  searches-first_least p q r [] = refl
  searches-first_least p q r (e ∷ es) =
      let ih = searches-first_least p q r es in
      elim (Option-cases (find? p es)) [
        | inr (x, fp) ↦ ground (arith, ih, fp, find?-test p es fp)
        | inl np ↦ elim (Option-cases (find? q es)) [
          | inr (x, fq) ↦
              ground
                (arith, ih, np, fq, find?-test q es fq, find?-none p es x np (find?-In q es fq))
          | inl nq ↦ elim (Option-cases (find? r es)) [
            | inr (x, fr) ↦
                let m = find?-In r es fr in
                ground (
                  arith,
                  ih,
                  np,
                  nq,
                  fr,
                  find?-test r es fr,
                  find?-none p es x np m,
                  find?-none q es x nq m,
                )
            | inl nr ↦ ground (arith, ih, np, nq, nr)
          ]
        ]
      ]

  find?-filter :
      (p q : A → Bool) (es : List A)
      → ((e : A) → p e ≡ true → q e ≡ true)
      → find? p (filter q es) ≡ find? p es
  find?-filter p q [] h = refl
  find?-filter p q (e ∷ es) h = ground (arith, h e, find?-filter p q es h)

-- The rank of an edge for a result, as a table: get_digits nodes go by condition and fall back to
-- `timeout` or `invalid`; other nodes go by condition where some edge has one, else by branch key.
digits_rank : String → FlowEdge → ℕ
digits_rank result e =
    ranked (has_condition result e)
      (has_condition (if result == "timeout" then "timeout" else "invalid") e)
      (default_or_unconditional e)

condition_rank : String → FlowEdge → ℕ
condition_rank result e =
    ranked (has_condition result e) (has_condition "default" e) (unconditional e)

branch_rank : String → FlowEdge → ℕ
branch_rank result e = ranked (e.branch_key == result) (e.branch_key == "default") (unconditional e)

unfoldable pub edge_rank : String → Bool → String → FlowEdge → ℕ
unfolding digits_rank condition_rank branch_rank
edge_rank type conditional result e =
    if type == "get_digits"
    then digits_rank result e
    else if conditional
    then condition_rank result e
    else branch_rank result e

has_condition-is_some :
    (t : String) (e : FlowEdge) → has_condition t e ≡ true → is_some e.condition ≡ true
has_condition-is_some t e h = ground arith

digits_searches :
    (es : List FlowEdge) (result : String) (late : Bool)
    → or_else (find? (has_condition result) es) (
        if late
        then or_else (find? (has_condition "timeout") es) (find? default_or_unconditional es)
        else or_else (find? (has_condition "invalid") es) (find? default_or_unconditional es))
      ≡ first_least
          (λ e.
            ranked
              (has_condition result e)
              (has_condition (if late then "timeout" else "invalid") e)
              (default_or_unconditional e))
          es
digits_searches es result true = searches-first_least _ _ _ es
digits_searches es result false = searches-first_least _ _ _ es

conditional-first_least :
    (es : List FlowEdge) (result : String)
    → resolve_conditional es result ≡ first_least (condition_rank result) es
unfolding resolve_conditional condition_rank
conditional-first_least es result =
    let dated = λ (t : String).
      find?-filter (has_condition t) (λ e. is_some e.condition) es (has_condition-is_some t) in
    rw (dated result, dated "default")
      (searches-first_least (has_condition result) (has_condition "default") unconditional es)

by_kind :
    (es : List FlowEdge) (digits conditional : Bool) (result : String)
    → (if digits
        then resolve_get_digits_edge es result
        else if conditional
        then resolve_conditional es result
        else resolve_branch_key es result)
      ≡ first_least
          (λ e.
            if digits
            then digits_rank result e
            else if conditional
            then condition_rank result e
            else branch_rank result e)
          es
unfolding resolve_get_digits_edge resolve_branch_key digits_rank branch_rank
by_kind es true conditional result = digits_searches es result (result == "timeout")
by_kind es false true result = conditional-first_least es result
by_kind es false false result = searches-first_least _ _ _ es

-- The resolver returns the first of the node's outgoing edges that has the least rank, and nothing
-- exactly where no outgoing edge is a candidate.
pub resolve_next_edge-first_least :
    (current type result : String) (edges : List FlowEdge)
    → resolve_next_edge current type result edges
      ≡ first_least
          (edge_rank type (any (outgoing_of current edges) (λ e. is_some e.condition)) result)
          (outgoing_of current edges)
unfolding resolve_next_edge edge_rank first_least
resolve_next_edge-first_least current type result edges = by_emptiness (outgoing_of current edges)
  where
    by_emptiness :
        (es : List FlowEdge)
        → (if is_nil es
            then none
            else if type == "get_digits"
            then resolve_get_digits_edge es result
            else if any es (λ e. is_some e.condition)
            then resolve_conditional es result
            else resolve_branch_key es result)
          ≡ first_least (edge_rank type (any es (λ e. is_some e.condition)) result) es
    by_emptiness [] = refl
    by_emptiness (e ∷ es) =
        by_kind (e ∷ es) (type == "get_digits") (any (e ∷ es) (λ x. is_some x.condition)) result

first_least-In :
    (rank : FlowEdge → ℕ) (es : List FlowEdge) {e : FlowEdge}
    → first_least rank es ≡ some e
    → In e es
unfolding first_least
first_least-In rank [] h = cc
first_least-In rank (x ∷ es) {e} h = elim (Option-cases (first_least rank es)) [
  | inl n ↦ inl (ground (arith, n))
  | inr (y, m) ↦ elim (Bool-cases (leb (rank x) (rank y))) [
    | inl t ↦ inl (ground (arith, m, t))
    | inr f ↦ inr (first_least-In rank es (ground (arith, m, f)))
  ]
]

-- An edge that the resolver returns is an edge of the flow, and leaves the current node.
pub resolve_next_edge-In :
    (current type result : String) (edges : List FlowEdge) {e : FlowEdge}
    → resolve_next_edge current type result edges ≡ some e
    → In e edges × (e.source_node_key ≡ current)
resolve_next_edge-In current type result edges {e} h =
    let found =
      In-filter _ edges e
        (first_least-In _ _ (sym (resolve_next_edge-first_least current type result edges) ∙ h)) in
    (found.0, (eq_iff e.source_node_key current).0 (found.1))
