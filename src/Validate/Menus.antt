-- ===== src/Validate/Menus.antt =====
-- The keys of the menus of an accepted flow (backend/src/flows/flows.service.ts), as the call engine
-- reads them (stasis/src/executors/menu.executor.ts).
use callytics.Flow.{FlowNode}
use callytics.Js.{Value, undefined, null, bool, num, neg, str, arr, obj, items, get, text_of}
use callytics.Menu.{
  configured_branches, is_one_digit, is_two_digits, Signal, run_attempt, start_attempt,
}
use callytics.Menu.Digits.{IsChoice, run_attempt-IsChoice}
use callytics.Validate.Passed.{accepted-passed, or_else-none, throw_if-none, first_error-none}
use callytics.Validate.{node_message, throw_if, when, first_error, is_valid_menu_branch_value}
use callytics.Validate.NodeChecks.{elements, no_elements, validate_node_config, menu_check}
use callytics.Validate.Nodes.{node_check, validate_nodes_config, accepted}
use callytics.Prelude.{
  String, ◌≡◌, refl, sym, ap, ◌∙◌, ◌⊎◌, inl, inr, Bool, true, false, not, ◌||◌, Option, none, some,
  List, [], ◌∷◌, map, ◌==◌, if◌then◌else◌, if-holds, filter, All, In, All-In, trim, is_empty,
}

-- A key of a menu: one or two digits, a star or a hash.
abbrev pub is_key : String → Bool
is_key t = is_one_digit t || is_two_digits t || t == "*" || t == "#"

keys-configured :
    (vs : List Value)
    → All (λ v. is_valid_menu_branch_value (text_of v) ≡ true) vs
    → All (λ t. is_key t ≡ true) (filter (λ t. not (is_empty t)) (map (λ v. trim (text_of v)) vs))
unfolding is_valid_menu_branch_value
keys-configured [] h = tt
keys-configured (v ∷ vs) h =
    if-holds (All (λ t. is_key t ≡ true)) (not (is_empty (trim (text_of v))))
      (λ _. (h.0, keys-configured vs (h.1))) (λ _. keys-configured vs (h.1))

not-false : (b : Bool) → not b ≡ false → b ≡ true
not-false true h = refl
not-false false h = absurd (cc)

valid-branches :
    (message : String) (vs : List Value)
    → All (λ v. throw_if (not (is_valid_menu_branch_value (text_of v))) message ≡ none) vs
    → All (λ v. is_valid_menu_branch_value (text_of v) ≡ true) vs
valid-branches message [] h = tt
valid-branches message (v ∷ vs) h =
    (not-false _ (throw_if-none _ message (h.0)), valid-branches message vs (h.1))

menu_check-keys :
    (n : FlowNode) → menu_check n ≡ none → All (λ t. is_key t ≡ true) (configured_branches n)
unfolding menu_check configured_branches
menu_check-keys n h = by_value (get n.config "branches") ((or_else-none _ _ h).1)
  where
    missing : Option String
    missing = some (node_message n.node_key "branches must have at least one entry")

    bad_key : String
    bad_key = node_message n.node_key "branch keys must be 1-2 digits, *, or #"

    branches_check : Option (List Value) → Option String
    branches_check none = missing
    branches_check (some vs) =
        if no_elements vs
        then missing
        else first_error (λ v. throw_if (not (is_valid_menu_branch_value (text_of v))) bad_key) vs

    keys : Value → List String
    keys (arr vs) = filter (λ t. not (is_empty t)) (map (λ v. trim (text_of v)) (items vs))
    keys v = []

    by_list :
        (vs : List Value)
        → branches_check (some vs) ≡ none
        → All
            (λ t. is_key t ≡ true)
            (filter (λ t. not (is_empty t)) (map (λ v. trim (text_of v)) vs))
    by_list [] e = absurd (cc)
    by_list (v ∷ vs) e =
        keys-configured (v ∷ vs) (valid-branches bad_key (v ∷ vs) (first_error-none _ (v ∷ vs) e))

    by_value :
        (v : Value) → branches_check (elements v) ≡ none → All (λ t. is_key t ≡ true) (keys v)
    by_value (arr vs) e = by_list (items vs) e
    by_value undefined e = tt
    by_value null e = tt
    by_value (bool b) e = tt
    by_value (num k) e = tt
    by_value (neg k) e = tt
    by_value (str t) e = tt
    by_value (obj fs) e = tt

menu-passed :
    (url_protocol : String → Option String) (n : FlowNode)
    → (n.type == "menu") ≡ true
    → node_check url_protocol n ≡ none
    → menu_check n ≡ none
unfolding node_check validate_node_config
menu-passed url_protocol n menu h =
    let checks = first_error-none _ _ ((or_else-none _ _ h).0) in
    sym (ap (λ b. when b (menu_check n)) menu) ∙ checks.1.1.1.1.0

-- Whatever a caller does at a menu of an accepted flow, an attempt yields `hangup`, `timeout`,
-- `invalid`, or a key: one or two digits, a star or a hash.
pub accepted-attempt_key :
    (url_protocol : String → Option String) (is_subflow : Bool) (nodes saved : List FlowNode)
    (n : FlowNode)
    → validate_nodes_config url_protocol is_subflow nodes ≡ accepted saved
    → In n saved
    → (n.type == "menu") ≡ true
    → (has_prompt : Bool) (es : List Signal) (r : String)
    → (run_attempt n es (start_attempt has_prompt)).finished ≡ some r
    → (r ≡ "hangup") ⊎ (r ≡ "timeout") ⊎ (r ≡ "invalid") ⊎ (is_key r ≡ true)
accepted-attempt_key url_protocol is_subflow nodes saved n h there menu has_prompt es r run =
    by_choice (run_attempt-IsChoice n has_prompt es r run)
  where
    by_choice :
        IsChoice n r → (r ≡ "hangup") ⊎ (r ≡ "timeout") ⊎ (r ≡ "invalid") ⊎ (is_key r ≡ true)
    by_choice (inl e) = inl e
    by_choice (inr (inl e)) = inr (inl e)
    by_choice (inr (inr (inl e))) = inr (inr (inl e))
    by_choice (inr (inr (inr chosen))) =
        let passed =
          All-In (λ x. node_check url_protocol x ≡ none) saved
            ((accepted-passed url_protocol nodes saved is_subflow h).1) there in
        inr (
          inr (
            inr (
              All-In (λ t. is_key t ≡ true) (configured_branches n)
                (menu_check-keys n (menu-passed url_protocol n menu passed)) chosen)))
