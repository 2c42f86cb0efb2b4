-- ===== src/GetDigits.antt =====
-- stasis/src/nodes/index.ts: `executeGetDigits`. The promise, the flags and the timers are a machine
-- over the events that Asterisk, the prompt and the timers deliver.
pub mod Kept
pub mod Results
mod Tests
use callytics.Flow.{FlowNode, FlowEdge, Flow}
use callytics.Js.{get, text_of}
use callytics.Session.{Variables, insert}
use callytics.Menu.{is_one_digit, is_two_digits, push_digit, first_two, two_or_more}
use callytics.Prelude.{
  ℕ, zero, suc, ◌+◌, ◌-◌, ◌*◌, ◌/◌, ◌%◌, ◌≤◌, ◌<◌, String, ◌≡◌, refl, sym, ap, ◌∙◌, ◌≢◌, ◌↔◌, ◌⊎◌,
  inl, inr, Bool, true, false, not, ◌&&◌, ◌||◌, Option, none, some, List, [], ◌∷◌, ◌++◌, map, arith,
  ◌==◌, eq_iff, eq_refl, ltb, leb, eqb, if◌then◌else◌, Bool-cases, Option-cases, or_else, is_some,
  if-holds, option-holds, length, find?, filter, any, all, All, length-append, find?-test, In,
  find?-In, find?-none, In-filter, filter-In, All-In, codes, is_space, trim_start, trim_end, trim,
  drop_prefix, is_empty, is_digit, digits_value, show_ℕ, digits_value-show_ℕ, all_digits,
  show_ℕ-digits, trim-digits, show_ℕ-not_empty, concat, concat-cancel,
}

-- What the promise of the node yields: a value, or the error of a prompt that cannot be played.
pub data Answer : Type 0 where
  resolved : String → Answer
  rejected : Answer

-- The local variables; the session's variables are written when the node settles.
pub record Collection : Type 0 where
  pub promise : Option Answer
  pub finished : Bool
  pub timer_set : Bool
  pub inter_digit_set : Bool
  pub collected : String
  pub variables : Variables

-- A key with what it is; events of another channel carry false.
pub data Event : Type 0 where
  key : Bool → String → Event
  channel_gone : Bool → Event
  timeout_fires : Event
  inter_digit_fires : Event
  prompt_fails : Event

-- The listeners and the timer are set before the prompt plays.
unfoldable pub listen : Variables → Collection
listen variables = record {
  promise = none;
  finished = false;
  timer_set = true;
  inter_digit_set = false;
  collected = String.[];
  variables = variables;
}

condition_text : FlowEdge → String
condition_text e = elim e.condition [ none ↦ String.[] | some t ↦ t ]

-- `/^\\d+$/`
unfoldable pub is_digits : String → Bool
is_digits s = not (is_empty s) && all (codes s) is_digit

module _ (flow : Flow) (node : FlowNode) where
  unfoldable pub has_double_digit_condition : Bool
  unfolding condition_text
  has_double_digit_condition =
      any flow.edges (λ e. e.source_node_key == node.node_key && is_two_digits (condition_text e))

  unfoldable pub variable_name : String
  variable_name = trim (text_of (get node.config "variable_name"))

  -- What the session's variables are once the node has settled with a value.
  unfoldable pub store_digits : String → Variables → Variables
  store_digits value vars =
      if not (is_empty variable_name) && is_digits value
      then insert variable_name value vars
      else vars

  -- The first value that settles stays; a promise that was rejected stays rejected.
  unfoldable pub settle_digits : String → Collection → Collection
  settle_digits value c = if c.finished then c else record c {
    promise = or_else c.promise (some (resolved value));
    finished = true;
    timer_set = false;
    inter_digit_set = false;
    variables = store_digits value c.variables;
  }

  unfoldable pub on_key : String → Collection → Collection
  unfolding settle_digits
  on_key raw c =
      let digit = trim raw in
      let digits = push_digit c.collected digit in
      if is_empty digit
      then c
      else if not has_double_digit_condition || not (is_one_digit digit)
      then settle_digits digit c
      else if two_or_more digits
      then settle_digits (first_two digits) (record c { collected = digits })
      else record c { collected = digits; inter_digit_set = true }

  -- The listeners are gone once the node has settled, and a timer that is not set does not fire.
  unfoldable pub on_event : Event → Collection → Collection
  unfolding on_key
  on_event (key ours raw) c = if c.finished then c else if ours then on_key raw c else c
  on_event (channel_gone ours) c = if ours then settle_digits "hangup" c else c
  on_event timeout_fires c = if c.timer_set then settle_digits "timeout" c else c
  on_event inter_digit_fires c = if c.inter_digit_set then settle_digits c.collected c else c
  on_event prompt_fails c = record c { promise = or_else c.promise (some rejected) }

  unfoldable pub execute_get_digits : List Event → Collection → Collection
  unfolding on_event
  execute_get_digits [] c = c
  execute_get_digits (e ∷ es) c = execute_get_digits es (on_event e c)
