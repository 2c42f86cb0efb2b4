-- ===== src/Hunt/Attempts.antt =====
-- stasis/src/nodes/hunt.executor.ts: the loop of `executeHunt` for every strategy but `group`.
use callytics.Flow.{FlowNode}
use callytics.Js.{get}
use callytics.Hunt.{
  Destination, TargetType, extension, pstn, Strategy, order, random, normalize_destinations,
  strategy_of, sort_by_order, at_least_one, no_answer_result,
}
use callytics.Prelude.{
  ℕ, zero, suc, ◌+◌, ◌-◌, ◌%◌, String, Bool, true, false, not, ◌&&◌, ◌||◌, Option, none, some, List,
  [], ◌∷◌, map, ◌==◌, ltb, leb, eqb, if◌then◌else◌, length, find?, filter, is_empty,
}

unfoldable pub same_type : TargetType → TargetType → Bool
same_type extension extension = true
same_type pstn pstn = true
same_type extension pstn = false
same_type pstn extension = false

-- Destinations are compared by their type and their value.
unfoldable pub same_target : Destination → Destination → Bool
unfolding same_type
same_target a b = same_type a.target_type b.target_type && a.target_value == b.target_value

-- A destination with its dial string.
abbrev pub Resolved : Type 0
Resolved = Destination × String

unfoldable pub resolve_destinations : (Destination → String) → List Destination → List Resolved
resolve_destinations dial ds = filter (λ r. not (is_empty (r.1))) (map (λ d. (d, dial d)) ds)

unfoldable pub nth : Destination → List Destination → ℕ → Destination
nth d [] n = d
nth d (e ∷ ds) zero = e
nth d (e ∷ ds) (suc n) = nth d ds n

-- `{ target_type: 'extension', target_value: '' }`
abbrev pub nobody : Destination
nobody = record { target_type = extension; target_value = ""; trunk_id = none; order = none }

unfoldable pub first_or : List Destination → Destination
first_or [] = nobody
first_or (d ∷ ds) = d

-- `choice` is the index that `Math.random` yields.
unfoldable pub next_random_destination : ℕ → List Destination → Option Destination → Destination
unfolding nth first_or same_target
next_random_destination choice ds last =
    if leb (length ds) 1
    then first_or ds
    else nth (first_or ds)
        (elim last [ none ↦ ds | some l ↦ filter (λ d. not (same_target d l)) ds ]) choice

-- How an attempt ended: `captureOriginatedChannel`, and for an answer whether the bridge took the
-- channel.
pub data LegEnd : Type 0 where
  answered : Bool → LegEnd
  timed_out failed hung_up : LegEnd

-- How the busy prompt ended: it played for some time, the caller hung up, or it could not be played.
pub data Busy : Type 0 where
  played : ℕ → Busy
  caller_gone : Busy
  broken : Busy

-- What happens during an attempt: the time it takes, its end, and whether the caller is gone then;
-- and the busy prompt behind it.
pub record Leg : Type 0 where
  pub took : ℕ
  pub leg_end : LegEnd
  pub inbound_ended : Bool
  pub busy : Busy

pub record Dial : Type 0 where
  pub endpoint : String
  pub at : ℕ
  pub timeout_ms : ℕ

-- The variables of the loop: the time since the start, the attempts with the newest first.
pub record Hunt : Type 0 where
  pub now : ℕ
  pub sequential_index : ℕ
  pub last_destination : Option Destination
  pub inbound_ended : Bool
  pub dialled : List Dial

pub record HuntConfig : Type 0 where
  pub strategy : Strategy
  pub base_destinations : List Destination
  pub destinations : List Resolved
  pub attempt_timeout_ms : ℕ
  pub total_timeout_ms : ℕ
  pub no_answer : String
  pub has_busy_media : Bool

-- The configuration, once the destinations are resolved.
unfoldable pub hunt_config : (Destination → String) → Bool → FlowNode → HuntConfig
unfolding normalize_destinations strategy_of sort_by_order at_least_one no_answer_result
    resolve_destinations
hunt_config dial has_busy_media node =
    let configs = normalize_destinations node in
    let ordered : List Destination = elim (strategy_of node) [
      | order ↦ sort_by_order configs
      | _ ↦ configs
    ] in
    record {
      strategy = strategy_of node;
      base_destinations = ordered;
      destinations = resolve_destinations dial ordered;
      attempt_timeout_ms = at_least_one (get node.config "attempt_timeout_ms") 20000;
      total_timeout_ms = at_least_one (get node.config "total_timeout_ms") 60000;
      no_answer = no_answer_result node;
      has_busy_media = has_busy_media;
    }

abbrev pub smaller : ℕ → ℕ → ℕ
smaller a b = if leb a b then a else b

-- `legs i` is the i-th attempt, `choices i` the random index of the i-th round.
module _ (config : HuntConfig) (legs : ℕ → Leg) (choices : ℕ → ℕ) where
  unfoldable pub pick : Hunt → Destination
  unfolding next_random_destination nth
  pick h = elim config.strategy [
    | random ↦
        next_random_destination (choices h.sequential_index) config.base_destinations
          h.last_destination
    | _ ↦ nth nobody config.base_destinations (h.sequential_index % length config.base_destinations)
  ]

  unfoldable pub dial_of : Destination → String
  unfolding same_target
  dial_of d = elim (find? (λ r. same_target (r.0) d) config.destinations) [
    | none ↦ String.[]
    | some (raw, text) ↦ text
  ]

  -- The `catch` of an error that is not `hangup`.
  abbrev caught : Bool → String
  caught inbound_ended = if inbound_ended then "hangup" else config.no_answer

  unfoldable pub next_round : Hunt → Hunt
  next_round h = record h {
    sequential_index = suc h.sequential_index;
    last_destination = some (pick h);
  }

  unfoldable pub dialling : String → Leg → Hunt → Hunt
  dialling endpoint leg h = record h {
    now = h.now + leg.took;
    inbound_ended = leg.inbound_ended;
    dialled =
        record {
          endpoint = endpoint;
          at = h.now;
          timeout_ms = smaller config.attempt_timeout_ms (config.total_timeout_ms - h.now);
        }
        ∷ h.dialled;
  }

  -- One turn of the loop: the node's result, or the state of the next turn.
  pub data Turn : Type 0 where
    ends : String → Hunt → Turn
    goes_on : Hunt → Turn

  -- What follows an attempt that was not answered.
  unfoldable pub after_leg : Leg → Hunt → Turn
  after_leg leg h =
      if leg.inbound_ended
      then ends "hangup" h
      else if leb config.total_timeout_ms h.now
      then ends config.no_answer h
      else if config.has_busy_media
      then elim leg.busy [
        | played t ↦ goes_on (record h { now = h.now + t })
        | caller_gone ↦ ends "hangup" h
        | broken ↦ ends config.no_answer h
      ]
      else goes_on h

  unfoldable pub attempt : String → Hunt → Turn
  unfolding dialling after_leg
  attempt endpoint h =
      let leg = legs (length h.dialled) in
      let dialled = dialling endpoint leg h in
      elim leg.leg_end [
        | answered bridged ↦
            if bridged then ends "done" dialled else ends (caught leg.inbound_ended) dialled
        | hung_up ↦ ends "hangup" dialled
        | _ ↦ after_leg leg dialled
      ]

  unfoldable pub turn : Hunt → Turn
  unfolding pick dial_of next_round attempt
  turn h =
      let endpoint = dial_of (pick h) in
      if not (ltb h.now config.total_timeout_ms)
      then ends config.no_answer h
      else if h.inbound_ended
      then ends "hangup" h
      else if is_empty endpoint
      then goes_on (next_round h)
      else attempt endpoint (next_round h)

  unfoldable pub hunt_loop : ℕ → Hunt → Option (String × Hunt)
  unfolding turn
  hunt_loop zero h = none
  hunt_loop (suc fuel) h = elim (turn h) [
    | ends result h' ↦ some (result, h')
    | goes_on h' ↦ hunt_loop fuel h'
  ]

  unfoldable pub start_hunt : Bool → Hunt
  start_hunt inbound_ended = record {
    now = 0;
    sequential_index = 0;
    last_destination = none;
    inbound_ended = inbound_ended;
    dialled = [];
  }

  -- Without a bridge or a destination that resolves nobody is dialled.
  unfoldable pub execute_hunt : Bool → Bool → ℕ → Option (String × Hunt)
  unfolding hunt_loop start_hunt
  execute_hunt has_bridge inbound_ended fuel =
      if not has_bridge || eqb (length config.destinations) 0
      then some (config.no_answer, start_hunt inbound_ended)
      else hunt_loop fuel (start_hunt inbound_ended)
