-- ===== src/Validate/Ends.antt =====
-- The edges of an accepted flow (backend/src/flows/flows.service.ts).
use callytics.Flow.{FlowNode, FlowEdge}
use callytics.Validate.Passed.{first_error-none}
use callytics.Validate.{
  throw_if, when, one_of, is_valid_menu_branch_value, is_valid_digit_condition_value,
}
use callytics.Validate.Edges.{
  between_message, terminal_node_types, start_allowed_target_types, get_digits_allowed_source_types,
  queue_login_allowed_source_types, voicemail_blocked_source_types, type_of, known_type,
  condition_text, condition_check, types_check, edge_check, validate_edges_config,
}
use callytics.Prelude.{
  String, ◌≡◌, refl, ◌≢◌, inl, inr, Bool, true, false, not, ◌&&◌, ◌||◌, Option, none, some, List,
  [], ◌∷◌, arith, ◌==◌, if◌then◌else◌, Bool-cases, or_else, All, trim, is_empty,
}

-- An edge between types that the editor lets connect, with the condition that its source needs.
abbrev pub is_legal : String → String → String → Bool
is_legal source target condition =
    target == "webhook"
    || not (one_of source terminal_node_types)
      && (not (source == "start") || one_of target start_allowed_target_types)
      && (not (target == "get_digits") || one_of source get_digits_allowed_source_types)
      && (not (target == "queue_login") || one_of source queue_login_allowed_source_types)
      && not (target == "voicemail" && one_of source voicemail_blocked_source_types)
      && ((not (source == "menu")
            || condition == "complete"
            || is_valid_menu_branch_value condition)
          && (not (source == "get_digits") || is_valid_digit_condition_value condition))

-- Both ends of an edge are nodes with a type, and the types may be connected.
abbrev pub IsLegal : List FlowNode → FlowEdge → Type 0
IsLegal nodes e =
    (source : String) × (target : String) × (type_of nodes e.source_node_key ≡ some source)
    × (type_of nodes e.target_node_key ≡ some target)
    × (is_legal source target (condition_text e) ≡ true)

condition-bools :
    (menu digits complete key digit blank : Bool) (m1 m2 m3 : String)
    → when (digits || (menu || false)) (
        or_else (throw_if blank m1) (
          or_else
            (throw_if (menu && not complete && not key) m2)
            (throw_if (digits && not digit) m3)))
      ≡ none
    → ((not menu || complete || key) && (not digits || digit)) ≡ true
condition-bools menu digits complete key digit blank m1 m2 m3 h = ground (arith, h)

-- The checks between two types, with the tests that they make.
types-bools :
    (webhook terminal start start_ok digits digits_ok login login_ok voicemail rest_ok : Bool)
    (m1 m2 m3 m4 m5 : String) (rest : Option String)
    → (rest ≡ none → rest_ok ≡ true)
    → (if webhook
        then none
        else or_else (throw_if terminal m1) (
            or_else (throw_if (start && not start_ok) m2) (
              or_else (throw_if (digits && not digits_ok) m3) (
                or_else
                  (throw_if (login && not login_ok) m4)
                  (or_else (throw_if voicemail m5) rest)))))
      ≡ none
    → (webhook
        || not terminal
          && (not start || start_ok)
          && (not digits || digits_ok)
          && (not login || login_ok)
          && not voicemail
          && rest_ok)
      ≡ true
types-bools webhook terminal start start_ok digits digits_ok login login_ok voicemail rest_ok m1 m2
      m3 m4 m5 rest imp h =
    ground (arith, h, imp)

types_check-is_legal :
    (e : FlowEdge) (source target : String)
    → types_check e source target ≡ none
    → is_legal source target (condition_text e) ≡ true
unfolding types_check condition_check
types_check-is_legal e source target h =
    types-bools (target == "webhook") (one_of source terminal_node_types) (source == "start")
      (one_of target start_allowed_target_types) (target == "get_digits")
      (one_of source get_digits_allowed_source_types) (target == "queue_login")
      (one_of source queue_login_allowed_source_types)
      (target == "voicemail" && one_of source voicemail_blocked_source_types) _ _ _ _ _ _
      (when (one_of source ("get_digits" ∷ "menu" ∷ [])) (condition_check e source))
      (condition-bools (source == "menu") (source == "get_digits") (condition_text e == "complete")
        (is_valid_menu_branch_value (condition_text e))
        (is_valid_digit_condition_value (condition_text e)) (is_empty (trim (condition_text e))) _ _
        _)
      h

known_type-type_of :
    (nodes : List FlowNode) (key t : String)
    → known_type nodes key ≡ some t
    → type_of nodes key ≡ some t
known_type-type_of nodes key t h = by_type (type_of nodes key) h
  where
    by_type :
        (o : Option String)
        → (elim o as (λ _. Option String) [
          | none ↦ none
          | some u ↦ if is_empty u then none else some u
        ])
          ≡ some t
        → o ≡ some t
    by_type none e = absurd (cc)
    by_type (some u) e = elim (Bool-cases (is_empty u)) [
      | inl empty ↦ absurd (none≢some (rw empty at e))
      | inr full ↦ rw full at e
    ]
      where
        none≢some : ◌≢◌ {A = Option String} none (some t)
        none≢some x = cc

edge_check-IsLegal :
    (nodes : List FlowNode) (e : FlowEdge) → edge_check nodes e ≡ none → IsLegal nodes e
unfolding edge_check
edge_check-IsLegal nodes e h =
    by_ends (known_type nodes e.source_node_key) (known_type nodes e.target_node_key)
      (known_type-type_of nodes e.source_node_key) (known_type-type_of nodes e.target_node_key) h
  where
    by_ends :
        (s t : Option String)
        → ((u : String) → s ≡ some u → type_of nodes e.source_node_key ≡ some u)
        → ((u : String) → t ≡ some u → type_of nodes e.target_node_key ≡ some u)
        → (elim s as (λ _. Option String) [
          | none ↦ some (between_message e "nodes must exist")
          | some source ↦ elim t as (λ _. Option String) [
            | none ↦ some (between_message e "nodes must exist")
            | some target ↦ types_check e source target
          ]
        ])
          ≡ none
        → IsLegal nodes e
    by_ends none t fs ft k = absurd (cc)
    by_ends (some source) none fs ft k = absurd (cc)
    by_ends (some source) (some target) fs ft k =
        (source, target, fs source refl, ft target refl, types_check-is_legal e source target k)

-- Every edge that the editor accepts joins two nodes of the flow. It leads to a webhook, or else its
-- source does not end the call, the types of its ends may be connected, and where it leaves a menu or
-- a `get_digits` node its condition, once trimmed, is one that the editor knows for that type.
pub validate_edges_config-IsLegal :
    (edges : List FlowEdge) (nodes : List FlowNode)
    → validate_edges_config edges nodes ≡ none
    → All (IsLegal nodes) edges
unfolding validate_edges_config
validate_edges_config-IsLegal edges nodes h =
    by_edges edges (first_error-none (edge_check nodes) edges h)
  where
    by_edges :
        (es : List FlowEdge) → All (λ e. edge_check nodes e ≡ none) es → All (IsLegal nodes) es
    by_edges [] a = tt
    by_edges (e ∷ es) (here, there) = (edge_check-IsLegal nodes e here, by_edges es there)
