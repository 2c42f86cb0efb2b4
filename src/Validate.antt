-- ===== src/Validate.antt =====
-- backend/src/flows/flows.service.ts: what the editor's flows must satisfy before they are saved.
-- A check is `none`, or the text of the error that it throws; the first error counts.
pub mod NodeChecks
pub mod Nodes
pub mod Edges
mod Passed
pub mod Times
pub mod Menus
pub mod Ends
mod Tests
use Prim.Native.Char.{code}
use Prim.Native.String
use callytics.Flow.{FlowNode, find_type}
use callytics.Js.{
  Value, undefined, null, str, arr, obj, Items, Fields, end, field, get, Number, nan, nat, negative,
  to_number, truthy,
}
use callytics.Menu.{is_one_digit, is_two_digits}
use callytics.Timeouts.{nullish_or}
use callytics.Prelude.{
  ℕ, zero, suc, ◌+◌, ◌-◌, ◌*◌, ◌/◌, ◌%◌, ◌≤◌, ◌<◌, String, ◌≡◌, refl, sym, ap, ◌∙◌, ◌≢◌, ◌↔◌, ◌⊎◌,
  inl, inr, Bool, true, false, not, ◌&&◌, ◌||◌, Option, none, some, List, [], ◌∷◌, ◌++◌, map, arith,
  ◌==◌, eq_iff, eq_refl, ltb, leb, eqb, if◌then◌else◌, Bool-cases, Option-cases, or_else, is_some,
  if-holds, option-holds, length, find?, filter, any, all, All, length-append, find?-test, In,
  find?-In, find?-none, In-filter, filter-In, All-In, codes, is_space, trim_start, trim_end, trim,
  drop_prefix, is_empty, is_digit, digits_value, show_ℕ, digits_value-show_ℕ, all_digits,
  show_ℕ-digits, trim-digits, show_ℕ-not_empty, concat, concat-cancel,
}

abbrev pub timeout_min_ms : ℕ
timeout_min_ms = 1000

abbrev pub timeout_max_ms : ℕ
timeout_max_ms = 120000

-- `throw` under a condition, and the first error of a sequence of checks.
abbrev pub throw_if : Bool → String → Option String
throw_if b message = if b then some message else none

abbrev pub when : Bool → Option String → Option String
when b check = if b then check else none

pub first_error : {A : Type 0} → (A → Option String) → List A → Option String
first_error check [] = none
first_error check (x ∷ xs) = or_else (check x) (first_error check xs)

-- The message of a node.
abbrev pub node_message : String → String → String
node_message key text = concat "Node " (concat key (concat ": " text))

abbrev pub one_of : String → List String → Bool
one_of t ts = any ts (λ x. t == x)

-- `value === undefined || value === null || value === ''`
abbrev pub is_absent : Value → Bool
is_absent undefined = true
is_absent null = true
is_absent (str s) = is_empty s
is_absent _ = false

pub in_timeout_range : Number → Option ℕ
in_timeout_range nan = none
in_timeout_range (nat n) = if ltb n timeout_min_ms || ltb timeout_max_ms n then none else some n
in_timeout_range (negative n) = none

pub parse_timeout_ms : Value → Option ℕ
unfolding in_timeout_range
parse_timeout_ms v = if is_absent v then none else in_timeout_range (to_number v)

abbrev pub raw_flow_default : FlowNode → Value
raw_flow_default start =
    nullish_or (get start.config "flow_default_timeout_ms")
      (get start.config "queue_login_default_input_timeout_ms")

pub get_flow_default_timeout_ms : List FlowNode → Option ℕ
unfolding parse_timeout_ms
get_flow_default_timeout_ms nodes = elim (find_type "start" nodes) [
  | none ↦ none
  | some start ↦ parse_timeout_ms (raw_flow_default start)
]

-- Texts whose characters all pass a test, and their number of characters.
pub all_chars : (ℕ → Bool) → String → Bool
all_chars test String.[] = true
all_chars test (String.◌∷◌ c s) = test (code c) && all_chars test s

pub size : String → ℕ
size String.[] = 0
size (String.◌∷◌ c s) = suc (size s)

abbrev pub is_alnum : ℕ → Bool
is_alnum c = is_digit c || leb 65 c && leb c 90 || leb 97 c && leb c 122

-- `/^[a-zA-Z0-9_-]{1,64}$/`
pub is_valid_extension_target : String → Bool
unfolding all_chars size
is_valid_extension_target s =
    all_chars (λ c. is_alnum c || eqb c 95 || eqb c 45) s && leb 1 (size s) && leb (size s) 64

-- `/^\+?[0-9]{4,20}$/`
pub is_valid_pstn_target : String → Bool
unfolding all_chars size
is_valid_pstn_target s =
    let digits : String = elim (drop_prefix "+" s) [ none ↦ s | some t ↦ t ] in
    all_chars is_digit digits && leb 4 (size digits) && leb (size digits) 20

is_user_char : ℕ → Bool
is_user_char c = is_alnum c || eqb c 95 || eqb c 46 || eqb c 43 || eqb c 45

-- What follows `sip:`; the flag tells that the user part is not empty.
sip_rest : Bool → String → Bool
unfolding is_user_char all_chars
sip_rest seen String.[] = false
sip_rest seen (String.◌∷◌ c s) =
    if eqb (code c) 64
    then seen && not (is_empty s) && all_chars (λ d. is_alnum d || eqb d 46 || eqb d 45) s
    else is_user_char (code c) && sip_rest true s

-- `/^sip:[a-zA-Z0-9_.+-]+@[a-zA-Z0-9.-]+$/`
pub is_valid_sip_uri_target : String → Bool
unfolding sip_rest
is_valid_sip_uri_target s = elim (drop_prefix "sip:" s) [ none ↦ false | some t ↦ sip_rest false t ]

is_positive : Number → Bool
is_positive nan = false
is_positive (nat n) = leb 1 n
is_positive (negative n) = false

pub is_positive_id : Value → Bool
unfolding is_positive
is_positive_id v = is_positive (to_number v)

-- `/^(?:\d{1,2}|\*|#)$/` of the trimmed text.
pub is_valid_menu_branch_value : String → Bool
is_valid_menu_branch_value s =
    let t = trim s in is_one_digit t || is_two_digits t || t == "*" || t == "#"

-- `/^(?:\d{1,2}|\*|#|timeout|invalid|default)$/` of the trimmed text.
pub is_valid_digit_condition_value : String → Bool
is_valid_digit_condition_value s =
    let t = trim s in
    is_one_digit t
    || is_two_digits t
    || one_of t ("*" ∷ "#" ∷ "timeout" ∷ "invalid" ∷ "default" ∷ [])

-- A start node and a hang-up node alone, with the edge between them.
pub is_immediate_hangup_snapshot : List FlowNode → List (String × String) → Bool
is_immediate_hangup_snapshot nodes ((source, target) ∷ []) =
    eqb (length nodes) 2 && (elim (find_type "start" nodes) [
      | none ↦ false
      | some start ↦ elim (find_type "hangup" nodes) [
        | none ↦ false
        | some hangup ↦ source == start.node_key && target == hangup.node_key
      ]
    ])
is_immediate_hangup_snapshot nodes edges = false
