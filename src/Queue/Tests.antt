-- ===== src/Queue/Tests.antt =====
-- Runs of the queue operations (stasis/src/engine/queueManager.ts).
use callytics.Queue.{
  Redis, empty, login_operator, logout_operator, connect_next_customer, on_customer_hangup,
  enter_queue, leave_waiting,
}
use callytics.Queue.Exclusive.{IsExclusive}
use callytics.Queue.Reachable.{Reachable, start, logs_in, hangs_up, enters, reachable-IsExclusive}
use callytics.Queue.Dispatch.{
  connect_next_customer-first, connect_next_customer-drops, on_customer_hangup_silent,
}
use callytics.Prelude.{ℕ, String, ◌≡◌, refl, true, Option, none, some, [], ◌∷◌, eqb, any}

abbrev nobody : ℕ → Option String
nobody op = none

-- Two callers wait in queue 1, then operator 7 logs in, and takes the first of them.
abbrev one_waits : Redis
one_waits = (enter_queue nobody 0 1 "alice" empty).1

abbrev two_wait : Redis
two_wait = (enter_queue nobody 0 1 "bob" one_waits).1

abbrev first_served : Redis
first_served = login_operator 1 7 "desk" two_wait

abbrev after_first : Redis
after_first = on_customer_hangup 0 7 1 first_served

two_wait-waiting : two_wait.waiting 1 ≡ "alice" ∷ "bob" ∷ []
unfolding enter_queue callytics.Queue.s_pop
two_wait-waiting = refl

after_first-bridged : after_first.bridged ≡ ("desk", "bob") ∷ ("desk", "alice") ∷ []
unfolding on_customer_hangup callytics.Queue.s_pop callytics.Queue.s_add login_operator enter_queue
after_first-bridged = refl

two_wait-Reachable : Reachable two_wait
two_wait-Reachable = enters nobody 0 1 "bob" one_waits (enters nobody 0 1 "alice" empty start)

after_first-Reachable : Reachable after_first
unfolding callytics.Queue.member enter_queue callytics.Queue.s_pop
after_first-Reachable =
    hangs_up 0 7 1 first_served (logs_in 1 7 "desk" two_wait refl refl two_wait-Reachable)

reachable-IsExclusive_example : IsExclusive after_first
reachable-IsExclusive_example = reachable-IsExclusive after_first after_first-Reachable

-- Operator 7 is free, and its channel is known or not.
abbrev both_there : Option String → Redis
both_there channel = record two_wait { operators = λ q. 7 ∷ []; operator_channel = λ o. channel }

connect_next_customer-first_example :
    let x = connect_next_customer 0 1 (both_there (some "desk")) in
    (x.bridged ≡ ("desk", "alice") ∷ [])
    × (x.waiting 1 ≡ "bob" ∷ [])
    × (x.operators 1 ≡ [])
    × (any (x.busy 1) (λ y. eqb y 7) ≡ true)
unfolding callytics.Queue.s_pop enter_queue connect_next_customer callytics.Queue.member
connect_next_customer-first_example =
    connect_next_customer-first 0 1 7 [] "desk" "alice" ("bob" ∷ []) (both_there (some "desk")) refl
      refl refl

connect_next_customer-drops_example :
    let x = connect_next_customer 0 1 (both_there none) in
    (x.bridged ≡ []) × (x.waiting 1 ≡ "bob" ∷ []) × (any (x.operators 1) (λ y. eqb y 7) ≡ true)
unfolding callytics.Queue.s_pop enter_queue connect_next_customer callytics.Queue.member
connect_next_customer-drops_example =
    connect_next_customer-drops 0 1 7 [] "alice" ("bob" ∷ []) (both_there none) refl refl refl

on_customer_hangup_silent_example :
    ((connect_next_customer 0 1 first_served).customer_channel ≡ first_served.customer_channel)
    × ((on_customer_hangup 0 7 1 first_served).customer_channel ≡ first_served.customer_channel)
on_customer_hangup_silent_example = on_customer_hangup_silent 0 7 1 first_served
