-- ===== src/QueueLogin.antt =====
-- stasis/src/executors/queue_login.executor.ts: an operator enters a PIN on the telephone, waits on
-- the line for customers, and leaves with `#`. The prompts, the hold audio and the log are left out.
pub mod Entry
mod Tests
use callytics.Flow.{FlowNode, FlowEdge, Flow}
use callytics.Js.{bool, Value, Number, nan, nat, negative, arr, get, items, to_number, positive_id}
use callytics.Session.{CallSession}
use callytics.Timeouts.{parse_valid_timeout_ms, resolve_flow_default_timeout_ms, or_value}
use callytics.Queue.{Redis, member, login_operator, logout_operator}
use callytics.Prelude.{
  ℕ, zero, suc, ◌+◌, ◌-◌, ◌*◌, ◌/◌, ◌%◌, ◌≤◌, ◌<◌, String, ◌≡◌, refl, sym, ap, ◌∙◌, ◌≢◌, ◌↔◌, ◌⊎◌,
  inl, inr, Bool, true, false, not, ◌&&◌, ◌||◌, Option, none, some, List, [], ◌∷◌, ◌++◌, map, arith,
  ◌==◌, eq_iff, eq_refl, ltb, leb, eqb, if◌then◌else◌, Bool-cases, Option-cases, or_else, is_some,
  if-holds, option-holds, length, find?, filter, any, all, All, length-append, find?-test, In,
  find?-In, find?-none, In-filter, filter-In, All-In, All-weaken, All-append, All-filter, All-each,
  eqb-same, eqb-true, codes, is_space, trim_start, trim_end, trim, drop_prefix, is_empty, is_digit,
  digits_value, show_ℕ, digits_value-show_ℕ, all_digits, show_ℕ-digits, trim-digits,
  show_ℕ-not_empty, concat, concat-cancel,
}

-- The events of the PIN's listeners. A key has the object it comes in, which reaches two listeners,
-- and its time in milliseconds; a missing channel is none, a missing digit the empty text.
pub data PinEvent : Type 0 where
  dtmf : Option String → ℕ → String → ℕ → PinEvent
  hung_up : Option String → PinEvent
  timed_out : PinEvent

-- `result` is the promise, and what it resolves to: the digits, or null.
pub record PinEntry : Type 0 where
  pub digits : String
  pub result : Option (Option String)
  pub seen_events : List ℕ
  pub last_digit : String
  pub last_digit_at : ℕ

abbrev pub no_digits : PinEntry
no_digits = record {
  digits = "";
  result = none;
  seen_events = [];
  last_digit = "";
  last_digit_at = 0;
}

abbrev pub max_digits : ℕ
max_digits = 6

unfoldable pub settle_pin : Option String → PinEntry → PinEntry
settle_pin answer p = record p { result = or_else p.result (some answer) }

unfoldable pub press : String → PinEntry → PinEntry
unfolding settle_pin
press digit p =
    let digits = concat p.digits digit in
    let next = record p { digits = digits } in
    if digit == "#"
    then settle_pin (if is_empty p.digits then none else some p.digits) p
    else if leb max_digits (length (codes digits))
    then settle_pin (some digits) next
    else next

-- `event.channel?.id && event.channel.id !== channel.id`
unfoldable pub is_other : String → Option String → Bool
is_other channel none = false
is_other channel (some id) = not (is_empty id) && not (id == channel)

unfoldable pub is_own : String → Option String → Bool
is_own channel none = false
is_own channel (some id) = id == channel

-- The same key within 80 ms counts once.
unfoldable pub on_pin_dtmf : String → Option String → ℕ → String → ℕ → PinEntry → PinEntry
unfolding press is_other
on_pin_dtmf channel from object digit now p =
    let seen = record p { seen_events = object ∷ p.seen_events } in
    if is_other channel from || member object p.seen_events
    then p
    else if digit == p.last_digit && leb (now - p.last_digit_at) 80
    then seen
    else press digit (record seen { last_digit = digit; last_digit_at = now })

-- Once it has settled, the listeners and the timer are gone.
unfoldable pub on_pin_event : String → PinEvent → PinEntry → PinEntry
unfolding on_pin_dtmf settle_pin is_own
on_pin_event channel e p = if is_some p.result then p else elim e [
  | dtmf from object digit now ↦ on_pin_dtmf channel from object digit now p
  | hung_up from ↦ if is_own channel from then settle_pin none p else p
  | timed_out ↦ settle_pin none p
]

unfoldable pub wait_for_dtmf_digits : String → List PinEvent → PinEntry → Option (Option String)
unfolding on_pin_event
wait_for_dtmf_digits channel [] p = p.result
wait_for_dtmf_digits channel (e ∷ es) p = wait_for_dtmf_digits channel es (on_pin_event channel e p)

pub record QueueRow : Type 0 where
  pub id : ℕ
  pub pin_retry_attempts : ℕ

pub record OperatorPinRow : Type 0 where
  pub id : ℕ
  pub pin_hash : String

-- The tables `queues`, `operators` and `queue_operators`, the last as operator and queue.
pub record Tables : Type 0 where
  pub queues : List QueueRow
  pub operators : List OperatorPinRow
  pub queue_operators : List (ℕ × ℕ)

positive : Number → Option ℕ
positive nan = none
positive (negative n) = none
positive (nat n) = if eqb n 0 then none else some n

queue_ids_of : List Value → List ℕ
unfolding positive
queue_ids_of [] = []
queue_ids_of (v ∷ vs) = elim (positive (to_number v)) [
  | none ↦ queue_ids_of vs
  | some n ↦ n ∷ queue_ids_of vs
]

listed_ids : Value → List ℕ
unfolding queue_ids_of
listed_ids (arr vs) = queue_ids_of (items vs)
listed_ids _ = []

-- A negative `queue_id` is the id of no row; the node fails with it as it does with none.
unfoldable pub selected_queue_ids : FlowNode → List ℕ
unfolding listed_ids positive_id
selected_queue_ids node = elim (listed_ids (get node.config "queue_ids")) [
  | [] ↦ elim (positive_id (get node.config "queue_id")) [ none ↦ [] | some n ↦ n ∷ [] ]
  | id ∷ ids ↦ id ∷ ids
]

unfoldable pub load_queues : List ℕ → Tables → List QueueRow
load_queues ids db = filter (λ (q : QueueRow). member q.id ids) db.queues

-- The operators that are assigned to one of the queues or more.
unfoldable pub load_operators : List ℕ → Tables → List OperatorPinRow
load_operators ids db =
    filter
      (λ (o : OperatorPinRow).
        any db.queue_operators (λ (op, queue). eqb op o.id && member queue ids))
      db.operators

-- `Math.min(...)` of one row or more.
unfoldable pub least_attempts : QueueRow → List QueueRow → ℕ
least_attempts q [] = q.pin_retry_attempts
least_attempts q (r ∷ rest) =
    let least = least_attempts r rest in
    if leb q.pin_retry_attempts least then q.pin_retry_attempts else least

pub data LoginAnswer : Type 0 where
  failed : LoginAnswer
  route_to : String → LoginAnswer
  authenticated : LoginAnswer

unfoldable pub find_source_menu_node : Flow → FlowNode → Option FlowNode
find_source_menu_node flow node =
    elim (find? (λ (e : FlowEdge). e.target_node_key == node.node_key) flow.edges) [
      | none ↦ none
      | some e ↦
          find? (λ (n : FlowNode). n.node_key == e.source_node_key && n.type == "menu") flow.nodes
    ]

unfoldable pub route_back_to_menu_on_failure : Flow → FlowNode → LoginAnswer
unfolding find_source_menu_node
route_back_to_menu_on_failure flow node = elim (find_source_menu_node flow node) [
  | none ↦ failed
  | some menu ↦ route_to menu.node_key
]

-- `config.use_flow_default_timeout !== false`
uses_flow_default : Value → Bool
uses_flow_default (bool false) = false
uses_flow_default _ = true

unfoldable pub resolve_queue_login_input_timeout_ms : FlowNode → CallSession → ℕ
unfolding uses_flow_default
resolve_queue_login_input_timeout_ms node session =
    let own = parse_valid_timeout_ms (get node.config "input_timeout_ms") in
    let flow_default = resolve_flow_default_timeout_ms session in
    if uses_flow_default (get node.config "use_flow_default_timeout")
    then or_value (or_else flow_default own) 10000
    else or_value (or_else own flow_default) 10000

unfoldable pub login_all : ℕ → String → List ℕ → Redis → Redis
login_all op channel [] r = r
login_all op channel (q ∷ qs) r = login_all op channel qs (login_operator q op channel r)

unfoldable pub logout_all : ℕ → List ℕ → Redis → Redis
logout_all op [] r = r
logout_all op (q ∷ qs) r = logout_all op qs (logout_operator op q r)

-- The events that end the wait on the line.
unfoldable pub leaves : String → PinEvent → Bool
unfolding is_own
leaves channel (dtmf from object digit now) = is_own channel from && digit == "#"
leaves channel (hung_up from) = is_own channel from
leaves channel timed_out = false

-- What the node returned, or none while it waits, and the queues.
pub record Login : Type 0 where
  pub answer : Option LoginAnswer
  pub redis : Redis

-- The comparison of bcrypt, the call, and what others do to the queues while the operator is on the
-- line.
module _ (pin_matches : String → String → Bool) (channel : String) (meanwhile : Redis → Redis) where
  -- The events after the login.
  unfoldable pub hold_line : ℕ → List ℕ → List PinEvent → Redis → Login
  unfolding login_all logout_all leaves
  hold_line op ids later r =
      let inside = login_all op channel ids r in
      if any later (leaves channel)
      then record { answer = some authenticated; redis = logout_all op ids (meanwhile inside) }
      else record { answer = none; redis = inside }

  -- The loop over attempts, with the events that reach each of them.
  unfoldable pub attempt_pins :
      LoginAnswer
      → List ℕ
      → List OperatorPinRow
      → ℕ
      → List (List PinEvent)
      → List PinEvent
      → Redis
      → Login
  unfolding wait_for_dtmf_digits hold_line
  attempt_pins back ids ops zero inputs later r = record { answer = some back; redis = r }
  attempt_pins back ids ops (suc left) [] later r = record { answer = none; redis = r }
  attempt_pins back ids ops (suc left) (es ∷ inputs) later r =
      elim (wait_for_dtmf_digits channel es no_digits) [
        | none ↦ record { answer = none; redis = r }
        | some none ↦ record { answer = some back; redis = r }
        | some (some pin) ↦ elim (find? (λ (o : OperatorPinRow). pin_matches pin o.pin_hash) ops) [
          | none ↦ attempt_pins back ids ops left inputs later r
          | some op ↦ hold_line op.id ids later r
        ]
      ]

  unfoldable pub execute_queue_login :
      Flow → FlowNode → Tables → List (List PinEvent) → List PinEvent → Redis → Login
  unfolding selected_queue_ids load_queues load_operators least_attempts attempt_pins
  execute_queue_login flow node db inputs later r =
      let back = route_back_to_menu_on_failure flow node in
      let ids = selected_queue_ids node in
      let ops = load_operators ids db in
      let refused : Login = record { answer = some back; redis = r } in
      elim (load_queues ids db) [
        | [] ↦ refused
        | q ∷ rows ↦
            if eqb (length (q ∷ rows)) (length ids) && not (eqb (length ops) 0)
            then attempt_pins back ids ops (least_attempts q rows) inputs later r
            else refused
      ]
