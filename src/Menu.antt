-- ===== src/Menu.antt =====
-- stasis/src/executors/menu.executor.ts: `executeMenu` and its parts. One attempt to collect a
-- choice is a machine over the events that Asterisk and the timers deliver; the loop over the
-- attempts counts failures in the session's variables.
pub mod Attempts
pub mod Digits
mod Tests
use Prim.Native.Char.{code}
use Prim.Native.String
use callytics.Flow.{FlowNode, Flow}
use callytics.Js.{
  Value, Number, nan, nat, negative, str, arr, get, items, text_of, to_number, to_string, number_or,
  sign_text,
}
use callytics.Session.{CallSession, Variables, lookup, insert, remove}
use callytics.Prelude.{
  ℕ, zero, suc, ◌+◌, ◌-◌, ◌*◌, ◌/◌, ◌%◌, ◌≤◌, ◌<◌, String, ◌≡◌, refl, sym, ap, ◌∙◌, ◌≢◌, ◌↔◌, ◌⊎◌,
  inl, inr, Bool, true, false, not, ◌&&◌, ◌||◌, Option, none, some, List, [], ◌∷◌, ◌++◌, map, arith,
  ◌==◌, eq_iff, eq_refl, ltb, leb, eqb, if◌then◌else◌, Bool-cases, Option-cases, or_else, is_some,
  if-holds, option-holds, length, find?, filter, any, all, All, length-append, find?-test, In,
  find?-In, find?-none, In-filter, filter-In, All-In, codes, is_space, trim_start, trim_end, trim,
  drop_prefix, is_empty, is_digit, digits_value, show_ℕ, digits_value-show_ℕ, all_digits,
  show_ℕ-digits, trim-digits, show_ℕ-not_empty, concat, concat-cancel,
}

-- `node.config.branches` as texts, with the empty ones dropped.
unfoldable pub configured_branches : FlowNode → List String
unfolding get text_of items
configured_branches node = elim (get node.config "branches") [
  | arr vs ↦ filter (λ t. not (is_empty t)) (map (λ v. trim (text_of v)) (items vs))
  | _ ↦ []
]

unfoldable pub resolve_menu_digit : FlowNode → String → String
resolve_menu_digit node raw =
    if any (configured_branches node) (λ b. b == raw) then raw else "invalid"

-- `/^\\d$/` and `/^\\d{2}$/`
unfoldable pub is_one_digit : String → Bool
is_one_digit String.[] = false
is_one_digit (String.◌∷◌ c String.[]) = is_digit (code c)
is_one_digit (String.◌∷◌ c (String.◌∷◌ d s)) = false

unfoldable pub is_two_digits : String → Bool
unfolding is_one_digit
is_two_digits String.[] = false
is_two_digits (String.◌∷◌ c s) = is_digit (code c) && is_one_digit s

unfoldable pub has_double_digit_menu_branch : FlowNode → Bool
has_double_digit_menu_branch node = any (configured_branches node) is_two_digits

-- What reaches the attempt: a key, the end of the channel, the end of the prompt, and the two timers.
-- An event of another channel or playback carries false.
pub data Signal : Type 0 where
  dtmf : Bool → String → Signal
  channel_gone : Bool → Signal
  playback_finished : Bool → Signal
  timeout_fires : Signal
  inter_digit_fires : Signal

-- The local variables of `collectMenuAttempt`; a timer that is not set does not fire.
pub record Attempt : Type 0 where
  pub finished : Option String
  pub timeout_armed : Bool
  pub inter_digit_set : Bool
  pub collected : String

-- With a prompt the timeout is armed when the prompt has ended, without one at once.
unfoldable pub start_attempt : Bool → Attempt
start_attempt has_prompt = record {
  finished = none;
  timeout_armed = not has_prompt;
  inter_digit_set = false;
  collected = String.[];
}

-- The first result stays; `cleanup` removes the listeners and the timers.
pub settle : String → Attempt → Attempt
settle value a = elim a.finished [
  | none ↦ record a { finished = some value; inter_digit_set = false; timeout_armed = false }
  | some v ↦ a
]

-- `s.slice(0, 2)`
unfoldable pub first_two : String → String
first_two String.[] = String.[]
first_two (String.◌∷◌ c String.[]) = String.◌∷◌ c String.[]
first_two (String.◌∷◌ c (String.◌∷◌ d s)) = String.◌∷◌ c (String.◌∷◌ d String.[])

-- `collected + digit` for one digit.
unfoldable pub push_digit : String → String → String
push_digit String.[] digit = digit
push_digit (String.◌∷◌ c s) digit = String.◌∷◌ c (push_digit s digit)

abbrev pub two_or_more : String → Bool
two_or_more String.[] = false
two_or_more (String.◌∷◌ c s) = not (is_empty s)

pub on_dtmf : FlowNode → String → Attempt → Attempt
unfolding settle
on_dtmf node digit a =
    if not (has_double_digit_menu_branch node) || not (is_one_digit digit)
    then settle (resolve_menu_digit node digit) a
    else let digits = push_digit a.collected digit in
      if two_or_more digits
      then settle (resolve_menu_digit node (first_two digits)) (record a { collected = digits })
      else record a { collected = digits; inter_digit_set = true }

abbrev pub live : Attempt → (Attempt → Attempt) → Attempt
live a f = elim a.finished [ none ↦ f a | some v ↦ a ]

unfoldable pub on_signal : FlowNode → Signal → Attempt → Attempt
unfolding on_dtmf settle
on_signal node (dtmf ours digit) a = if ours then live a (on_dtmf node digit) else a
on_signal node (channel_gone ours) a = if ours then settle "hangup" a else a
on_signal node (playback_finished ours) a =
    if ours then live a (λ x. record x { timeout_armed = true }) else a
on_signal node timeout_fires a = if a.timeout_armed then settle "timeout" a else a
on_signal node inter_digit_fires a =
    if a.inter_digit_set then settle (resolve_menu_digit node a.collected) a else a

unfoldable pub run_attempt : FlowNode → List Signal → Attempt → Attempt
run_attempt node [] a = a
run_attempt node (e ∷ es) a = run_attempt node es (on_signal node e a)

pub data Counter : Type 0 where
  timeout invalid : Counter

kind_text : Counter → String
kind_text timeout = "timeout"
kind_text invalid = "invalid"

-- `menu:${flow.id}:${nodeKey}:${kind}_count`
pub counter_key : Flow → FlowNode → Counter → String
unfolding kind_text
counter_key flow node kind = concat "menu:" (
    concat (show_ℕ flow.id)
      (concat ":" (concat node.node_key (concat ":" (concat (kind_text kind) "_count")))))

-- `Number(text || 0)`
abbrev pub counter_of : Option String → Number
counter_of none = nat 0
counter_of (some s) = if is_empty s then nat 0 else to_number (str s)

pub get_counter : Variables → String → Number
get_counter vars key = counter_of (lookup key vars)

add_one : Number → Number
add_one nan = nan
add_one (nat n) = nat (suc n)
add_one (negative zero) = nat 0
add_one (negative (suc n)) = negative n

show_number : Number → String
show_number nan = "NaN"
show_number (nat n) = show_ℕ n
show_number (negative n) = sign_text n

at_least : Number → ℕ → Bool
at_least nan m = false
at_least (nat n) m = leb m n
at_least (negative n) m = false

-- `Math.max(1, Number(value) || 3)`
pub max_attempts : Value → ℕ
unfolding number_or
max_attempts v = elim (number_or v 3) [
  | nan ↦ 3
  | nat n ↦ if ltb n 1 then 1 else n
  | negative n ↦ 1
]

pub data Prompt : Type 0 where
  retry : Counter → Prompt
  final_failure : Prompt

-- The variables and the prompts that are asked for, the newest first.
pub record MenuRun : Type 0 where
  pub variables : Variables
  pub prompts : List Prompt

pub data Round : Type 0 where
  again : MenuRun → Round
  done : String → MenuRun → Round

module _ (flow : Flow) (node : FlowNode) where
  pub clear_counters : MenuRun → MenuRun
  clear_counters m = record m {
    variables =
        remove (counter_key flow node invalid) (remove (counter_key flow node timeout) m.variables);
  }

  pub limit : Counter → ℕ
  unfolding max_attempts get
  limit timeout = max_attempts (get node.config "max_timeout_attempts")
  limit invalid = max_attempts (get node.config "max_invalid_attempts")

  -- A timeout or an invalid choice: it is counted, and ends the menu at the limit.
  pub count_failure : Counter → MenuRun → Round
  unfolding add_one show_number at_least
  count_failure kind m =
      let key = counter_key flow node kind in
      let next = add_one (get_counter m.variables key) in
      let counted = record m { variables = insert key (show_number next) m.variables } in
      if at_least next (limit kind)
      then done "hangup" (clear_counters (record counted { prompts = final_failure ∷ m.prompts }))
      else again (record counted { prompts = retry kind ∷ m.prompts })

  pub menu_round : String → MenuRun → Round
  menu_round result m =
      if result == "hangup"
      then done "hangup" (clear_counters m)
      else if result == "timeout"
      then count_failure timeout m
      else if result == "invalid"
      then count_failure invalid m
      else done result (clear_counters m)

  -- `attempt i` is what the i-th attempt yields.
  pub execute_menu : (ℕ → String) → ℕ → ℕ → MenuRun → Option (String × MenuRun)
  unfolding menu_round
  execute_menu attempt zero i m = none
  execute_menu attempt (suc fuel) i m = elim (menu_round (attempt i) m) [
    | again m' ↦ execute_menu attempt fuel (suc i) m'
    | done r m' ↦ some (r, m')
  ]
