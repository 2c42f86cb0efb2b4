-- ===== src/Menu/Tests.antt =====
-- Runs of a menu with the branches 1 and 12, and of one with the branch 1 alone
-- (stasis/src/executors/menu.executor.ts).
use callytics.Flow.{Flow, FlowNode}
use callytics.Js.{Fields, field, Items, cons, nil, str, arr, num}
use callytics.Menu.{
  has_double_digit_menu_branch, resolve_menu_digit, dtmf, playback_finished, timeout_fires,
  inter_digit_fires, start_attempt, run_attempt, MenuRun, limit, execute_menu, timeout, invalid,
}
use callytics.Menu.Attempts.{Finishes, execute_menu-Finishes}
use callytics.Menu.Digits.{IsChoice, run_attempt-IsChoice, first_key_decides, two_digits_decide}
use callytics.Prelude.{ℕ, zero, suc, String, ◌≡◌, refl, true, false, some, [], ◌∷◌, arith, trim}

abbrev menu : Items → FlowNode
menu branches = record {
  node_key = "m";
  type = "menu";
  label = "";
  config = field "branches" (arr branches) (field "max_invalid_attempts" (num 2) Fields.end);
}

abbrev single : FlowNode
single = menu (cons (str "1") nil)

abbrev double : FlowNode
double = menu (cons (str "1") (cons (str "12") nil))

abbrev flow : Flow
flow = record { id = 1; name = "Menu"; version_id = 1; nodes = single ∷ []; edges = [] }

abbrev fresh : MenuRun
fresh = record { variables = []; prompts = [] }

-- The caller is silent once, and then presses 1.
abbrev silent_then_one : ℕ → String
silent_then_one zero = "timeout"
silent_then_one (suc i) = "1"

execute_menu-Finishes_example :
    Finishes flow single silent_then_one (execute_menu flow single silent_then_one 4 0 fresh)
unfolding callytics.Menu.get_counter callytics.Session.lookup limit
execute_menu-Finishes_example =
    execute_menu-Finishes flow single silent_then_one 4 fresh (refl, refl) (omega arith)

run_attempt-IsChoice_example : IsChoice double "1"
unfolding run_attempt callytics.Menu.on_signal start_attempt has_double_digit_menu_branch
    callytics.Menu.configured_branches trim callytics.Menu.is_two_digits callytics.Menu.push_digit
    resolve_menu_digit
run_attempt-IsChoice_example =
    run_attempt-IsChoice double true
      (playback_finished true ∷ dtmf true "1" ∷ inter_digit_fires ∷ []) "1" refl

first_key_decides_example :
    (run_attempt single (dtmf true "5" ∷ timeout_fires ∷ []) (start_attempt true)).finished
    ≡ some (resolve_menu_digit single "5")
unfolding has_double_digit_menu_branch callytics.Menu.configured_branches trim
    callytics.Menu.is_two_digits start_attempt
first_key_decides_example =
    first_key_decides single "5" (timeout_fires ∷ []) (start_attempt true) refl refl

two_digits_decide_example :
    (run_attempt double
      (dtmf true "1" ∷ dtmf true "2" ∷ timeout_fires ∷ [])
      (start_attempt false)).finished
    ≡ some (resolve_menu_digit double "12")
unfolding has_double_digit_menu_branch callytics.Menu.configured_branches trim
    callytics.Menu.is_two_digits
two_digits_decide_example =
    two_digits_decide double "1" "2" (timeout_fires ∷ []) false refl refl refl
