-- ===== src/Validate/Passed.antt =====
-- What it means that the checks of backend/src/flows/flows.service.ts found no error.
use mathlib.Core.Path.{subst}
use callytics.Flow.{FlowNode, find_type}
use callytics.Validate.{throw_if, first_error, get_flow_default_timeout_ms}
use callytics.Validate.Nodes.{
  node_check, validate_nodes_config, accepted, bad_request, verdict, Validated, fill_start,
}
use callytics.Prelude.{
  String, ◌≡◌, refl, sym, ap, ◌∙◌, Bool, true, false, not, ◌&&◌, Option, none, some, List, [], ◌∷◌,
  if◌then◌else◌, or_else, is_some, All,
}

pub or_else-none : {A : Type 0} (o p : Option A) → or_else o p ≡ none → (o ≡ none) × (p ≡ none)
or_else-none none p h = (refl, h)
or_else-none (some a) p h = absurd (cc)

pub throw_if-none : (b : Bool) (message : String) → throw_if b message ≡ none → b ≡ false
throw_if-none true message h = absurd (cc)
throw_if-none false message h = refl

pub first_error-none :
    {A : Type 0} (check : A → Option String) (xs : List A)
    → first_error check xs ≡ none
    → All (λ x. check x ≡ none) xs
unfolding first_error
first_error-none check [] h = tt
first_error-none check (x ∷ xs) h =
    let (here, there) = or_else-none (check x) (first_error check xs) h in
    (here, first_error-none check xs there)

verdict-none :
    (nodes saved : List FlowNode) (o : Option String)
    → verdict nodes o ≡ accepted saved
    → (nodes ≡ saved) × (o ≡ none)
verdict-none nodes saved none h = (cc, refl)
verdict-none nodes saved (some e) h = absurd (cc)

-- What an accepted flow has passed.
pub accepted-passed :
    (url_protocol : String → Option String) (nodes saved : List FlowNode) (is_subflow : Bool)
    → validate_nodes_config url_protocol is_subflow nodes ≡ accepted saved
    → ((not is_subflow && not (is_some (get_flow_default_timeout_ms saved))) ≡ false)
      × All (λ n. node_check url_protocol n ≡ none) saved
unfolding validate_nodes_config
accepted-passed url_protocol nodes saved is_subflow h = by_start (find_type "start" nodes) h
  where
    by_start :
        (o : Option FlowNode)
        → (elim o as (λ _. Validated) [
          | none ↦ bad_request "Flow requires a start node"
          | some start ↦
              let filled = if is_subflow then nodes else fill_start nodes in
              verdict filled (
                or_else
                  (throw_if
                    (not is_subflow && not (is_some (get_flow_default_timeout_ms filled)))
                    "Start node: flow_default_timeout_ms is required and must be between 1000 and 120000")
                  (first_error (node_check url_protocol) filled))
        ])
          ≡ accepted saved
        → ((not is_subflow && not (is_some (get_flow_default_timeout_ms saved))) ≡ false)
          × All (λ n. node_check url_protocol n ≡ none) saved
    by_start none e = absurd (cc)
    by_start (some start) e =
        let filled = if is_subflow then nodes else fill_start nodes in
        let (same, passed) = verdict-none filled saved _ e in
        let (default, each) = or_else-none _ _ passed in
        (
          ap (λ ns. not is_subflow && not (is_some (get_flow_default_timeout_ms ns))) (sym same)
              ∙ throw_if-none _ _ default,
          subst (λ ns. All (λ n. node_check url_protocol n ≡ none) ns) same
              (first_error-none _ filled each),
        )
