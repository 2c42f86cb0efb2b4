-- ===== src/Validate/Times.antt =====
-- The times of an accepted flow (backend/src/flows/flows.service.ts) in the call engine
-- (stasis/src/timeoutResolver.ts).
use callytics.Flow.{FlowNode, find_type}
use callytics.Js.{
  Value, undefined, null, bool, num, neg, str, arr, obj, get, to_number, Number, nan, nat, negative,
}
use callytics.Session.{CallSession}
use callytics.Validate.Passed.{accepted-passed}
use callytics.Timeouts.{
  or_value, parse_valid_timeout_ms, resolve_flow_default_timeout_ms, resolve_node_timeout_ms,
}
use callytics.Validate.{
  in_timeout_range, parse_timeout_ms, raw_flow_default, get_flow_default_timeout_ms,
}
use callytics.Validate.Nodes.{validate_nodes_config, accepted}
use callytics.Prelude.{
  ℕ, String, ◌≡◌, refl, sym, ◌∙◌, false, not, ◌||◌, Option, none, some, List, ltb, if◌then◌else◌,
  or_else, is_some,
}

same_range : (v : Value) → in_timeout_range (to_number v) ≡ parse_valid_timeout_ms v
unfolding in_timeout_range parse_valid_timeout_ms
same_range v = by_number (to_number v)
  where
    by_number :
        (m : Number)
        → in_timeout_range m ≡ (elim m [
          | nan ↦ none
          | nat n ↦ if ltb n 1000 || ltb 120000 n then none else some n
          | negative n ↦ none
        ])
    by_number nan = refl
    by_number (nat n) = refl
    by_number (negative n) = refl

-- The editor and the call engine accept the same times, and read the same number from them.
pub parse_timeout_ms-parse_valid : (v : Value) → parse_timeout_ms v ≡ parse_valid_timeout_ms v
unfolding parse_timeout_ms parse_valid_timeout_ms to_number
parse_timeout_ms-parse_valid undefined = refl
parse_timeout_ms-parse_valid null = refl
parse_timeout_ms-parse_valid (bool b) = same_range (bool b)
parse_timeout_ms-parse_valid (num n) = same_range (num n)
parse_timeout_ms-parse_valid (neg n) = same_range (neg n)
parse_timeout_ms-parse_valid (str String.[]) = refl
parse_timeout_ms-parse_valid (str (String.◌∷◌ c s)) = same_range (str (String.◌∷◌ c s))
parse_timeout_ms-parse_valid (arr vs) = same_range (arr vs)
parse_timeout_ms-parse_valid (obj fs) = same_range (obj fs)

some-of : {A : Type 0} (o : Option A) → not (is_some o) ≡ false → (a : A) × (o ≡ some a)
some-of none h = absurd (cc)
some-of (some a) h = (a, refl)

-- In an accepted flow that is no subflow, every node's waiting time is fixed by the flow: the
-- fallback of the call engine is never used.
pub accepted-no_fallback :
    (url_protocol : String → Option String) (nodes : List FlowNode) (s : CallSession)
    → validate_nodes_config url_protocol false nodes ≡ accepted s.flow.nodes
    → (node : FlowNode) (a b : ℕ)
    → resolve_node_timeout_ms node s a ≡ resolve_node_timeout_ms node s b
unfolding resolve_node_timeout_ms resolve_flow_default_timeout_ms get_flow_default_timeout_ms
accepted-no_fallback url_protocol nodes s h node a b =
    let passed = accepted-passed url_protocol nodes s.flow.nodes false h in
    by_default (parse_valid_timeout_ms (get node.config "timeout_ms"))
      (resolve_flow_default_timeout_ms s)
      (default_set (find_type "start" s.flow.nodes) (some-of _ (passed.0)))
  where
    default_set :
        (o : Option FlowNode)
        → (n : ℕ) × ((elim o as (λ _. Option ℕ) [
          | none ↦ none
          | some start ↦ parse_timeout_ms (raw_flow_default start)
        ])
            ≡ some n)
        → (n : ℕ) × ((elim o as (λ _. Option ℕ) [
          | none ↦ none
          | some start ↦ parse_valid_timeout_ms (raw_flow_default start)
        ])
            ≡ some n)
    default_set none (n, e) = absurd (cc)
    default_set (some start) (n, e) =
        (n, sym (parse_timeout_ms-parse_valid (raw_flow_default start)) ∙ e)

    by_default :
        (own flow : Option ℕ)
        → (n : ℕ) × (flow ≡ some n)
        → or_value (or_else own flow) a ≡ or_value (or_else own flow) b
    by_default (some m) flow (n, e) = refl
    by_default none none (n, e) = absurd (cc)
    by_default none (some m) (n, e) = refl
