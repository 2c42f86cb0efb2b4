-- ===== src/GetDigits/Results.antt =====
-- What `executeGetDigits` (stasis/src/nodes/index.ts) yields, and what it stores.
use callytics.Flow.{FlowNode, Flow}
use callytics.Session.{Variables, lookup, lookup-insert}
use callytics.Js.{get, text_of}
use mathlib.Core.Path.{subst}
use callytics.Menu.{is_one_digit, push_digit, first_two}
use callytics.GetDigits.{
  Answer, resolved, rejected, Collection, Event, key, channel_gone, timeout_fires,
  inter_digit_fires, prompt_fails, listen, has_double_digit_condition, store_digits, variable_name,
  is_digits, settle_digits, on_key, on_event, execute_get_digits,
}
use Prim.Native.Char.{Char, code}
use callytics.Prelude.{
  ℕ, ◌≤◌, String, ◌≡◌, refl, sym, ◌⊎◌, inl, inr, true, false, some, List, [], ◌∷◌, arith, ◌==◌,
  if◌then◌else◌, Bool-cases, is_some, all, All, codes, trim, is_empty, is_digit, trim-digits,
}
use callytics.GetDigits.Kept.{IsKept, IsResult, execute_get_digits-IsKept, listen-IsKept, All-self}

-- One decimal digit or more, and nothing else.
abbrev pub IsNumber : String → Type 0
IsNumber v = (is_empty v ≡ false) × All (λ c. (48 ≤ c) × (c ≤ 57)) (codes v)

-- The variables after a value was stored under a name: where the value is a number and the name is
-- not empty the name has it and all other names have what they had; else nothing has changed.
abbrev pub IsStored : String → String → Variables → Variables → Type 0
IsStored name v before after =
    ((is_empty name ≡ false)
      × IsNumber v
      × ((other : String)
          → lookup other after ≡ (if name == other then some v else lookup other before)))
    ⊎ (((is_empty name ≡ true) ⊎ ¬ IsNumber v) × (after ≡ before))

digits-all : (cs : List ℕ) → all cs is_digit ≡ true → All (λ c. (48 ≤ c) × (c ≤ 57)) cs
digits-all [] h = tt
digits-all (c ∷ cs) h = ((ground (arith, h), ground (arith, h)), digits-all cs (ground (arith, h)))

all-digits : (cs : List ℕ) → All (λ c. (48 ≤ c) × (c ≤ 57)) cs → all cs is_digit ≡ true
all-digits [] a = refl
all-digits (c ∷ cs) ((low, high), a) = ground (arith, low, high, all-digits cs a)

is_digits-IsNumber : (v : String) → is_digits v ≡ true → IsNumber v
unfolding is_digits
is_digits-IsNumber v h = (ground (arith, h), digits-all (codes v) (ground (arith, h)))

IsNumber-is_digits : (v : String) → IsNumber v → is_digits v ≡ true
unfolding is_digits
IsNumber-is_digits v (full, a) = ground (arith, full, all-digits (codes v) a)

module _ (flow : Flow) (node : FlowNode) where
  -- The variable's name, without the white space around it.
  abbrev pub name_of : String
  name_of = trim (text_of (get node.config "variable_name"))

  store_digits-IsStored :
      (v : String) (vars : Variables) → IsStored name_of v vars (store_digits flow node v vars)
  unfolding store_digits variable_name
  store_digits-IsStored v vars = elim (Bool-cases (is_empty name_of)) [
    | inl blank ↦ inr (inl blank, rw blank refl)
    | inr named ↦ elim (Bool-cases (is_digits v)) [
      | inl number ↦ inl (
        named,
        is_digits-IsNumber v number,
        λ other. rw named (rw number (lookup-insert name_of other v vars)),
      )
      | inr other ↦ inr (inr (λ n. cc (other, IsNumber-is_digits v n)), rw named (rw other refl))
    ]
  ]

  -- What is known of the node at any moment: while it listens nothing is stored and its timer is
  -- set; once it has settled its result decides what is stored.
  abbrev pub Outcome : List Event → Variables → Collection → Type 0
  Outcome es vars c =
      ((c.finished ≡ false) × (c.variables ≡ vars) × (c.timer_set ≡ true))
      ⊎ ((c.finished ≡ true)
          × ((v : String) × IsResult flow node es v
              × IsStored name_of v vars c.variables
              × ((c.promise ≡ some (resolved v)) ⊎ (c.promise ≡ some rejected))))

  stays_settled :
      (es : List Event) (c : Collection) (a : Answer)
      → c.finished ≡ true
      → c.promise ≡ some a
      → (execute_get_digits flow node es c).promise ≡ some a
  unfolding execute_get_digits
  stays_settled [] c a f p = p
  stays_settled (e ∷ es) c a f p =
      let kept = step e in stays_settled es (on_event flow node e c) a (kept.0) (kept.1)
    where
      step :
          (e : Event)
          → ((on_event flow node e c).finished ≡ true) × ((on_event flow node e c).promise ≡ some a)
      step (key ours raw) = ground (arith, f, p, on_event, settle_digits)
      step (channel_gone ours) = ground (arith, f, p, on_event, settle_digits)
      step timeout_fires = ground (arith, f, p, on_event, settle_digits)
      step inter_digit_fires = ground (arith, f, p, on_event, settle_digits)
      step prompt_fails = ground (arith, f, p, on_event, settle_digits)

  -- Whatever events arrive, in whatever order: either the node still listens, with the session's
  -- variables unchanged and its timer set, or it has settled with `hangup`, `timeout`, a key that
  -- was pressed or two pressed digits, its variable has that value exactly where the value is a
  -- number and the variable's name is not empty, no other variable has changed, and its promise has
  -- that value or was rejected by the prompt before.
  pub execute_get_digits-Outcome :
      (es : List Event) (vars : Variables)
      → Outcome es vars (execute_get_digits flow node es (listen vars))
  execute_get_digits-Outcome es vars = by_kept (
      execute_get_digits-IsKept flow node es es vars (listen vars) (All-self es)
        (listen-IsKept flow node es vars))
    where
      by_kept :
          IsKept flow node es vars (execute_get_digits flow node es (listen vars))
          → Outcome es vars (execute_get_digits flow node es (listen vars))
      by_kept (inl (o, same, timer, g, p, i)) = inl (o, same, timer)
      by_kept (inr (f, (v, is_result, same, p), t, i)) = inr (
        f,
        (
          v,
          is_result,
          subst (IsStored name_of v vars) (sym same) (store_digits-IsStored v vars),
          p,
        ),
      )

  -- If the timer fires after any events, the node has settled and its promise has an answer.
  pub timeout_fires-settles :
      (es : List Event) (vars : Variables)
      → let c = on_event flow node timeout_fires (execute_get_digits flow node es (listen vars)) in
        (c.finished ≡ true) × (is_some c.promise ≡ true)
  unfolding on_event settle_digits
  timeout_fires-settles es vars =
      by_outcome (execute_get_digits flow node es (listen vars))
        (execute_get_digits-Outcome es vars)
    where
      by_outcome :
          (c : Collection)
          → Outcome es vars c
          → ((on_event flow node timeout_fires c).finished ≡ true)
            × (is_some (on_event flow node timeout_fires c).promise ≡ true)
      by_outcome c (inl (o, same, timer)) = (ground (arith, o, timer), ground (arith, o, timer))
      by_outcome c (inr (f, (v, r, same, p))) = (ground (arith, f), by_promise p)
        where
          by_promise :
              (c.promise ≡ some (resolved v)) ⊎ (c.promise ≡ some rejected)
              → is_some (on_event flow node timeout_fires c).promise ≡ true
          by_promise (inl e) = ground (arith, f, e)
          by_promise (inr e) = ground (arith, f, e)

  pair_settles :
      (c d : Char) (vars : Variables)
      → has_double_digit_condition flow node ≡ true
      → is_digit (code c) ≡ true
      → is_digit (code d) ≡ true
      → let settled =
          on_event flow node
            (key true (String.◌∷◌ d String.[]))
            (on_event flow node (key true (String.◌∷◌ c String.[])) (listen vars)) in
        (settled.finished ≡ true)
        × (settled.promise ≡ some (resolved (String.◌∷◌ c (String.◌∷◌ d String.[]))))
  unfolding on_event on_key settle_digits listen is_one_digit push_digit first_two
  pair_settles c d vars double hc hd = rw (trim-digits (String.◌∷◌ c String.[]) (rw hc refl)) (
      rw (trim-digits (String.◌∷◌ d String.[]) (rw hd refl))
        (rw double (rw hc (rw hd (refl, refl)))))

  -- Where some condition has two digits, the first two digits settle the node together, whatever
  -- arrives later.
  pub two_digits-settle :
      (c d : Char) (es : List Event) (vars : Variables)
      → has_double_digit_condition flow node ≡ true
      → is_digit (code c) ≡ true
      → is_digit (code d) ≡ true
      → (execute_get_digits flow node
          (key true (String.◌∷◌ c String.[]) ∷ key true (String.◌∷◌ d String.[]) ∷ es)
          (listen vars)).promise
        ≡ some (resolved (String.◌∷◌ c (String.◌∷◌ d String.[])))
  unfolding execute_get_digits
  two_digits-settle c d es vars double hc hd =
      let settled = pair_settles c d vars double hc hd in
      stays_settled es _ (resolved (String.◌∷◌ c (String.◌∷◌ d String.[]))) (settled.0) (settled.1)
