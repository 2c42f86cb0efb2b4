-- ===== src/GetDigits/Kept.antt =====
-- The invariant of `executeGetDigits` (stasis/src/nodes/index.ts) over all orders of its events.
use callytics.Flow.{FlowNode, Flow}
use callytics.Session.{Variables}
use callytics.Menu.{is_one_digit, push_digit, first_two, two_or_more}
use callytics.GetDigits.{
  Answer, resolved, rejected, Collection, Event, key, channel_gone, timeout_fires,
  inter_digit_fires, prompt_fails, listen, has_double_digit_condition, store_digits, settle_digits,
  on_key, on_event, execute_get_digits,
}
use mathlib.Core.Path.{subst}
use callytics.Prelude.{
  String, ◌≡◌, refl, sym, ap, ◌∙◌, ◌⊎◌, inl, inr, Bool, true, false, not, ◌||◌, Option, none, some,
  List, [], ◌∷◌, arith, if◌then◌else◌, or_else, if-holds, All, In, trim, is_empty,
}

one_digit-single : (s : String) → is_one_digit s ≡ true → two_or_more s ≡ false
unfolding is_one_digit
one_digit-single String.[] h = refl
one_digit-single (String.◌∷◌ c String.[]) h = refl
one_digit-single (String.◌∷◌ c (String.◌∷◌ d s)) h = cc

pair-two :
    (s t : String)
    → is_one_digit s ≡ true
    → is_one_digit t ≡ true
    → two_or_more (push_digit s t) ≡ true
unfolding is_one_digit push_digit
pair-two String.[] t h k = cc
pair-two (String.◌∷◌ c String.[]) String.[] h k = cc
pair-two (String.◌∷◌ c String.[]) (String.◌∷◌ d t) h k = refl
pair-two (String.◌∷◌ c (String.◌∷◌ d s)) t h k = cc

All-weaken :
    (all_es es : List Event) (e : Event)
    → All (λ x. In x all_es) es
    → All (λ x. In x (e ∷ all_es)) es
All-weaken all_es [] e h = tt
All-weaken all_es (x ∷ es) e (here, rest) = (inr here, All-weaken all_es es e rest)

pub All-self : (es : List Event) → All (λ x. In x es) es
All-self [] = tt
All-self (e ∷ es) = (inl refl, All-weaken es es e (All-self es))

module _ (flow : Flow) (node : FlowNode) where
  -- A trimmed key that the events deliver.
  abbrev pub Pressed : List Event → String → Type 0
  Pressed es digit = (raw : String) × In (key true raw) es × (digit ≡ trim raw)

  -- The values of a node: the end of the call, the timeout, a key, or two digits in a row where
  -- some condition has two digits.
  abbrev pub IsResult : List Event → String → Type 0
  IsResult es v =
      (v ≡ "hangup")
      ⊎ (v ≡ "timeout")
      ⊎ Pressed es v
      ⊎ ((has_double_digit_condition flow node ≡ true)
          × ((c : String) × (d : String) × Pressed es c
              × Pressed es d
              × (v ≡ first_two (push_digit c d))))

  abbrev pub Gathered : List Event → String → Type 0
  Gathered es s =
      (s ≡ String.[])
      ⊎ ((has_double_digit_condition flow node ≡ true) × Pressed es s × (is_one_digit s ≡ true))

  -- The state of a node that listens: nothing is stored, the timer is set, and the digits that are
  -- kept were pressed. The state of a settled one.
  abbrev pub Listening : List Event → Variables → Collection → Type 0
  Listening es vars c =
      (c.finished ≡ false)
      × (c.variables ≡ vars)
      × (c.timer_set ≡ true)
      × Gathered es c.collected
      × ((c.promise ≡ none) ⊎ (c.promise ≡ some rejected))
      × ((c.inter_digit_set ≡ false) ⊎ Pressed es c.collected)

  abbrev pub Settled : List Event → Variables → Collection → Type 0
  Settled es vars c =
      (c.finished ≡ true)
      × ((v : String) × IsResult es v
          × (c.variables ≡ store_digits flow node v vars)
          × ((c.promise ≡ some (resolved v)) ⊎ (c.promise ≡ some rejected)))
      × (c.timer_set ≡ false)
      × (c.inter_digit_set ≡ false)

  abbrev pub IsKept : List Event → Variables → Collection → Type 0
  IsKept es vars c = Listening es vars c ⊎ Settled es vars c

  settle_digits-Settled :
      (es : List Event) (vars : Variables) (v : String) (c : Collection)
      → IsResult es v
      → c.finished ≡ false
      → c.variables ≡ vars
      → (c.promise ≡ none) ⊎ (c.promise ≡ some rejected)
      → Settled es vars (settle_digits flow node v c)
  unfolding settle_digits
  settle_digits-Settled es vars v c r open_still same p =
      rw open_still (refl, (v, r, ap (store_digits flow node v) same, by_promise p), refl, refl)
    where
      by_promise :
          (c.promise ≡ none) ⊎ (c.promise ≡ some rejected)
          → (or_else c.promise (some (resolved v)) ≡ some (resolved v))
            ⊎ (or_else c.promise (some (resolved v)) ≡ some rejected)
      by_promise (inl e) = rw e (inl refl)
      by_promise (inr e) = rw e (inr refl)

  settles :
      (es : List Event) (vars : Variables) (v : String) (c : Collection)
      → IsResult es v
      → Listening es vars c
      → Settled es vars (settle_digits flow node v c)
  settles es vars v c r (open_still, same, timer, gathered, promise, inter) =
      settle_digits-Settled es vars v c r open_still same promise

  -- A digit that does not complete a pair is the first.
  single-first :
      (es : List Event) (s digit : String)
      → Gathered es s
      → is_one_digit digit ≡ true
      → two_or_more (push_digit s digit) ≡ false
      → push_digit s digit ≡ digit
  unfolding push_digit
  single-first es s digit (inl e) one short = rw e refl
  single-first es s digit (inr (double, p, d)) one short =
      absurd (cc (pair-two s digit d one, short))

  pair-Pressed :
      (es : List Event) (s digit : String)
      → Gathered es s
      → Pressed es digit
      → is_one_digit digit ≡ true
      → two_or_more (push_digit s digit) ≡ true
      → (x : String) × (y : String) × Pressed es x
        × Pressed es y
        × (first_two (push_digit s digit) ≡ first_two (push_digit x y))
  unfolding push_digit
  pair-Pressed es s digit (inl e) p one long =
      absurd
        (cc (one_digit-single digit one, ap (λ t. two_or_more (push_digit t digit)) (sym e) ∙ long))
  pair-Pressed es s digit (inr (double, q, d)) p one long = (s, digit, q, p, refl)

  on_key-IsKept :
      (es : List Event) (vars : Variables) (raw : String) (c : Collection)
      → In (key true raw) es
      → Listening es vars c
      → IsKept es vars (on_key flow node raw c)
  unfolding on_key
  on_key-IsKept es vars raw c heard (open_still, same, timer, gathered, promise, inter) =
      let digit = trim raw in
      let digits = push_digit c.collected digit in
      if-holds (IsKept es vars) (is_empty digit)
        (λ _. inl (open_still, same, timer, gathered, promise, inter))
        λ _.
          if-holds (IsKept es vars)
            (not (has_double_digit_condition flow node) || not (is_one_digit digit))
            (λ _. inr (
              settle_digits-Settled es vars digit c (inr (inr (inl (raw, heard, refl)))) open_still
                same promise))
            λ pair.
              if-holds (IsKept es vars) (two_or_more digits)
                (λ long. inr (
                  settle_digits-Settled es vars (first_two digits) (record c { collected = digits })
                    (inr (
                      inr (
                        inr (
                          both_of pair,
                          pair-Pressed es c.collected digit gathered (raw, heard, refl)
                              (one_of pair) long,
                        ))))
                    open_still same promise))
                (λ short.
                  let first = single-first es c.collected digit gathered (one_of pair) short in
                  inl (
                    open_still,
                    same,
                    timer,
                    inr (both_of pair, (raw, heard, first), ap is_one_digit first ∙ one_of pair),
                    promise,
                    inr (raw, heard, first),
                  ))
    where
      both_of :
          not (has_double_digit_condition flow node) || not (is_one_digit (trim raw)) ≡ false
          → has_double_digit_condition flow node ≡ true
      both_of h = ground arith

      one_of :
          not (has_double_digit_condition flow node) || not (is_one_digit (trim raw)) ≡ false
          → is_one_digit (trim raw) ≡ true
      one_of h = ground arith

  kept_Pressed :
      (es : List Event) (vars : Variables) (c : Collection)
      → c.inter_digit_set ≡ true
      → Listening es vars c
      → Pressed es c.collected
  kept_Pressed es vars c set (o, same, timer, gathered, promise, inl off) = absurd (cc (set, off))
  kept_Pressed es vars c set (o, same, timer, gathered, promise, inr p) = p

  fails_open :
      (o : Option Answer)
      → (o ≡ none) ⊎ (o ≡ some rejected)
      → or_else o (some rejected) ≡ some rejected
  fails_open none p = refl
  fails_open (some a) (inl e) = cc
  fails_open (some a) (inr e) = e

  fails_settled :
      (o : Option Answer) (v : String)
      → (o ≡ some (resolved v)) ⊎ (o ≡ some rejected)
      → (or_else o (some rejected) ≡ some (resolved v))
        ⊎ (or_else o (some rejected) ≡ some rejected)
  fails_settled none v p = inr refl
  fails_settled (some a) v p = p

  on_event-IsKept :
      (es : List Event) (vars : Variables) (e : Event) (c : Collection)
      → In e es
      → IsKept es vars c
      → IsKept es vars (on_event flow node e c)
  unfolding on_event settle_digits
  on_event-IsKept es vars (key ours raw) c here (inl l) =
      if-holds (IsKept es vars) c.finished (λ _. inl l) λ _. if_ours ours refl
    where
      if_ours : (b : Bool) → ours ≡ b → IsKept es vars (if ours then on_key flow node raw c else c)
      if_ours true e = rw e (on_key-IsKept es vars raw c (subst (λ b. In (key b raw) es) e here) l)
      if_ours false e = rw e (inl l)
  on_event-IsKept es vars (channel_gone ours) c here (inl l) =
      if-holds (IsKept es vars) ours (λ _. inr (settles es vars "hangup" c (inl refl) l))
        (λ _. inl l)
  on_event-IsKept es vars timeout_fires c here (inl l) =
      if-holds (IsKept es vars) c.timer_set
        (λ _. inr (settles es vars "timeout" c (inr (inl refl)) l)) (λ _. inl l)
  on_event-IsKept es vars inter_digit_fires c here (inl l) =
      if-holds (IsKept es vars) c.inter_digit_set
        (λ set.
          inr (settles es vars c.collected c (inr (inr (inl (kept_Pressed es vars c set l)))) l))
        (λ _. inl l)
  on_event-IsKept es vars prompt_fails c here (inl (o, same, timer, g, p, inter)) =
      inl (o, same, timer, g, inr (fails_open c.promise p), inter)
  on_event-IsKept es vars (key ours raw) c here (inr (f, v, t, i)) =
      if-holds (IsKept es vars) c.finished (λ _. inr (f, v, t, i)) (λ no. absurd (cc (f, no)))
  on_event-IsKept es vars (channel_gone ours) c here (inr (f, v, t, i)) =
      if-holds (IsKept es vars) ours
        (λ _.
          if-holds (IsKept es vars) c.finished (λ _. inr (f, v, t, i)) (λ no. absurd (cc (f, no))))
        (λ _. inr (f, v, t, i))
  on_event-IsKept es vars timeout_fires c here (inr (f, v, t, i)) =
      if-holds (IsKept es vars) c.timer_set (λ set. absurd (cc (t, set))) (λ _. inr (f, v, t, i))
  on_event-IsKept es vars inter_digit_fires c here (inr (f, v, t, i)) =
      if-holds (IsKept es vars) c.inter_digit_set (λ set. absurd (cc (i, set)))
        (λ _. inr (f, v, t, i))
  on_event-IsKept es vars prompt_fails c here (inr (f, (v, r, same, p), t, i)) =
      inr (f, (v, r, same, fails_settled c.promise v p), t, i)

  pub execute_get_digits-IsKept :
      (all_es es : List Event) (vars : Variables) (c : Collection)
      → All (λ e. In e all_es) es
      → IsKept all_es vars c
      → IsKept all_es vars (execute_get_digits flow node es c)
  unfolding execute_get_digits
  execute_get_digits-IsKept all_es [] vars c here k = k
  execute_get_digits-IsKept all_es (e ∷ es) vars c (h, here) k =
      execute_get_digits-IsKept all_es es vars (on_event flow node e c) here
        (on_event-IsKept all_es vars e c h k)

  pub listen-IsKept : (es : List Event) (vars : Variables) → IsKept es vars (listen vars)
  unfolding listen
  listen-IsKept es vars = inl (refl, refl, refl, inl refl, inl refl, inl refl)
