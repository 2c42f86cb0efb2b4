-- ===== src/Hunt/Tests.antt =====
-- Hunts over two extensions, and numbers of trunks (stasis/src/nodes/hunt.executor.ts,
-- stasis/src/lib/formatDialNumber.ts).
use callytics.Flow.{FlowNode}
use callytics.Js.{Fields, Items, cons, nil, field, str, num, neg, arr, obj, nat, Value}
use callytics.Hunt.{Destination, sequential, strategy_of}
use callytics.Hunt.Numbers.{format_dial_number, fill}
use callytics.Hunt.Attempts.{Leg, timed_out, played, hunt_config, execute_hunt}
use callytics.Hunt.Limits.{Finishes}
use callytics.Hunt.Ends.{execute_hunt-Finishes}
use callytics.Prelude.{ℕ, String, ◌≡◌, refl, sym, ◌∙◌, true, false, none, arith, trim, concat}

abbrev target : String → Value
target value =
    obj (field "target_type" (str "extension") (field "target_value" (str value) Fields.end))

-- Two extensions, an attempt of 20 and a hunt of 50 milliseconds.
abbrev node : FlowNode
node = record {
  node_key = "h";
  type = "hunt";
  label = "";
  config = field "destinations" (arr (cons (target "101") (cons (target "102") nil))) (
      field "attempt_timeout_ms" (num 20)
        (field "total_timeout_ms" (num 50) (field "on_no_answer" (str "voicemail") Fields.end)));
}

abbrev dial : Destination → String
dial d = concat "PJSIP/" d.target_value

-- Every attempt rings for its time and is not answered.
abbrev silent : ℕ → Leg
silent i = record { took = 20; leg_end = timed_out; inbound_ended = false; busy = played 0 }

plays_in_turn : strategy_of node ≡ sequential
unfolding strategy_of trim callytics.Js.text_of callytics.Js.get
plays_in_turn = refl

execute_hunt-Finishes_example :
    Finishes
      (hunt_config dial false node)
      silent
      (λ _. 0)
      (execute_hunt (hunt_config dial false node) silent (λ _. 0) true false 51)
unfolding hunt_config callytics.Js.get
execute_hunt-Finishes_example =
    execute_hunt-Finishes dial false node silent (λ _. 0) true false 51
      (λ e. absurd (cc (sym plays_in_turn ∙ e))) (λ d m. refl) (λ i. omega arith) (omega arith)

two_places : fill "123456789" "0{number}-{number}" ≡ "0123456789-{number}"
unfolding fill
two_places = refl

too_short : format_dial_number "12-34" "{number}" ≡ none
unfolding format_dial_number
too_short = refl
