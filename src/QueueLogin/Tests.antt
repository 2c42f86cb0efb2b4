-- ===== src/QueueLogin/Tests.antt =====
-- A queue login node after a menu, for two queues, with an operator who is assigned to one of them
-- (stasis/src/executors/queue_login.executor.ts).
use callytics.Flow.{FlowNode, Flow}
use callytics.Js.{num, arr, nil, cons, field, Fields}
use callytics.Queue.{Redis, empty}
use callytics.QueueLogin.{
  PinEvent, dtmf, hung_up, no_digits, wait_for_dtmf_digits, Tables, Login, authenticated, route_to,
  execute_queue_login, login_all,
}
use callytics.QueueLogin.Entry.{IsLogin, execute_queue_login-IsLogin}
use callytics.Prelude.{
  ℕ, ◌*◌, String, ◌≡◌, refl, Bool, none, some, List, [], ◌∷◌, ◌==◌, eqb, if◌then◌else◌,
}

abbrev node : FlowNode
node = record {
  node_key = "login";
  type = "queue_login";
  label = "";
  config = field "queue_ids" (arr (cons (num 1) (cons (num 2) nil))) Fields.end;
}

abbrev menu : FlowNode
menu = record { node_key = "menu"; type = "menu"; label = ""; config = Fields.end }

abbrev flow : Flow
flow = record {
  id = 1;
  name = "";
  version_id = 1;
  nodes = menu ∷ node ∷ [];
  edges =
      record {
        source_node_key = "menu";
        target_node_key = "login";
        branch_key = "1";
        condition = none;
      }
      ∷ [];
}

-- Operator 7 is assigned to the first queue alone.
abbrev tables : Tables
tables = record {
  queues =
      record { id = 1; pin_retry_attempts = 3 } ∷ record { id = 2; pin_retry_attempts = 2 } ∷ [];
  operators = record { id = 7; pin_hash = "12" } ∷ record { id = 8; pin_hash = "99" } ∷ [];
  queue_operators = (7, 1) ∷ (8, 3) ∷ [];
}

abbrev key : ℕ → String → PinEvent
key object digit = dtmf (some "c") object digit (object * 100)

-- Each key reaches both listeners.
abbrev typed : List PinEvent
typed = key 1 "1" ∷ key 1 "1" ∷ key 2 "2" ∷ key 2 "2" ∷ key 3 "#" ∷ []

abbrev wrong : List PinEvent
wrong = key 1 "9" ∷ key 2 "9" ∷ key 3 "#" ∷ []

abbrev same_text : String → String → Bool
same_text pin hash = pin == hash

abbrev unchanged : Redis → Redis
unchanged r = r

execute_queue_login-IsLogin_example :
    IsLogin same_text "c" unchanged flow node tables (wrong ∷ typed ∷ []) empty (
      execute_queue_login same_text "c" unchanged flow node tables
        (wrong ∷ typed ∷ [])
        (key 9 "#" ∷ [])
        empty)
execute_queue_login-IsLogin_example =
    execute_queue_login-IsLogin same_text "c" unchanged flow node tables (wrong ∷ typed ∷ [])
      (key 9 "#" ∷ []) empty

login : List (List PinEvent) → List PinEvent → Login
unfolding execute_queue_login
login inputs later = execute_queue_login same_text "c" unchanged flow node tables inputs later empty

second_attempt : (login (wrong ∷ typed ∷ []) (key 9 "#" ∷ [])).answer ≡ some authenticated
unfolding login execute_queue_login callytics.Js.get callytics.Queue.member callytics.Js.items
    callytics.QueueLogin.route_back_to_menu_on_failure
second_attempt = refl

-- The second queue allows two attempts.
third_attempt : (login (wrong ∷ wrong ∷ typed ∷ []) []).answer ≡ some (route_to "menu")
unfolding login execute_queue_login callytics.Js.get callytics.Queue.member callytics.Js.items
    callytics.QueueLogin.route_back_to_menu_on_failure
third_attempt = refl

on_the_line : (login (typed ∷ []) []).answer ≡ none
unfolding login execute_queue_login callytics.Js.get callytics.Queue.member callytics.Js.items
    callytics.QueueLogin.route_back_to_menu_on_failure
on_the_line = refl

hang_up :
    (login ((key 1 "1" ∷ hung_up (some "c") ∷ []) ∷ typed ∷ []) []).answer ≡ some (route_to "menu")
unfolding login execute_queue_login callytics.Js.get callytics.Queue.member callytics.Js.items
    callytics.QueueLogin.route_back_to_menu_on_failure
hang_up = refl

six_digits :
    wait_for_dtmf_digits "c"
      (key 1 "1" ∷ key 2 "2" ∷ key 3 "3" ∷ key 4 "4" ∷ key 5 "5" ∷ key 6 "6" ∷ key 7 "7" ∷ [])
      no_digits
    ≡ some (some "123456")
unfolding wait_for_dtmf_digits callytics.Queue.member
six_digits = refl

-- One operator is put on a bridge with a customer of each queue.
abbrev customers : Redis
customers = record empty { waiting = λ q. if eqb q 1 then "a" ∷ [] else "b" ∷ [] }

two_bridges : (login_all 7 "c" (1 ∷ 2 ∷ []) customers).bridged ≡ ("c", "b") ∷ ("c", "a") ∷ []
unfolding login_all callytics.Queue.login_operator
two_bridges = refl
