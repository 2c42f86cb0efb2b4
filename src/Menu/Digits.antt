-- ===== src/Menu/Digits.antt =====
-- One attempt of `collectMenuAttempt` (stasis/src/executors/menu.executor.ts).
use callytics.Flow.{FlowNode}
use callytics.Menu.{
  configured_branches, resolve_menu_digit, is_one_digit, has_double_digit_menu_branch, Signal, dtmf,
  channel_gone, playback_finished, timeout_fires, inter_digit_fires, Attempt, start_attempt, settle,
  on_dtmf, on_signal, run_attempt, first_two, push_digit, live, two_or_more,
}
use Prim.Native.Char.{Char, code}
use mathlib.Core.Path.{subst}
use callytics.Prelude.{
  String, ◌≡◌, refl, sym, ◌⊎◌, inl, inr, Bool, true, false, not, ◌||◌, Option, none, some, List, [],
  ◌∷◌, arith, ◌==◌, eq_iff, Bool-cases, if-holds, option-holds, any, In, is_digit,
}

module _ (node : FlowNode) where
  -- What an attempt may yield.
  abbrev pub IsChoice : String → Type 0
  IsChoice r = (r ≡ "hangup") ⊎ (r ≡ "timeout") ⊎ (r ≡ "invalid") ⊎ In r (configured_branches node)

  abbrev pub Yields : Option String → Type 0
  Yields none = Unit
  Yields (some r) = IsChoice r

  any-In : (xs : List String) (r : String) → any xs (λ b. b == r) ≡ true → In r xs
  any-In [] r h = cc
  any-In (x ∷ xs) r h = elim (Bool-cases (x == r)) [
    | inl e ↦ inl (sym ((eq_iff x r).0 e))
    | inr e ↦ inr (any-In xs r (rw e at h))
  ]

  resolve_menu_digit-IsChoice : (raw : String) → IsChoice (resolve_menu_digit node raw)
  unfolding resolve_menu_digit
  resolve_menu_digit-IsChoice raw =
      if-holds IsChoice (any (configured_branches node) (λ b. b == raw))
        (λ h. inr (inr (inr (any-In _ raw h)))) (λ _. inr (inr (inl refl)))

  settle-Yields :
      (r : String) (a : Attempt) → IsChoice r → Yields a.finished → Yields (settle r a).finished
  unfolding settle
  settle-Yields r a c y = by_state a.finished refl
    where
      by_state : (o : Option String) → a.finished ≡ o → Yields (settle r a).finished
      by_state none e = rw (e, settle) c
      by_state (some v) e = rw (e, settle) y

  live-Yields :
      (f : Attempt → Attempt) (a : Attempt)
      → Yields a.finished
      → Yields (f a).finished
      → Yields (live a f).finished
  live-Yields f a y fy =
      option-holds (λ (x : Attempt). Yields x.finished) a.finished (λ _. fy) (λ v _. y)

  on_dtmf-Yields :
      (digit : String) (a : Attempt) → Yields a.finished → Yields (on_dtmf node digit a).finished
  unfolding on_dtmf
  on_dtmf-Yields digit a y =
      let digits = push_digit a.collected digit in
      if-holds (λ (x : Attempt). Yields x.finished)
        (not (has_double_digit_menu_branch node) || not (is_one_digit digit))
        (λ _. settle-Yields _ a (resolve_menu_digit-IsChoice digit) y)
        λ _.
          if-holds (λ (x : Attempt). Yields x.finished) (two_or_more digits)
            (λ _.
              settle-Yields _ (record a { collected = digits }) (resolve_menu_digit-IsChoice _) y)
            (λ _. y)

  on_signal-Yields :
      (e : Signal) (a : Attempt) → Yields a.finished → Yields (on_signal node e a).finished
  unfolding on_signal
  on_signal-Yields (dtmf ours digit) a y =
      if-holds (λ (x : Attempt). Yields x.finished) ours
        (λ _. live-Yields (on_dtmf node digit) a y (on_dtmf-Yields digit a y)) (λ _. y)
  on_signal-Yields (channel_gone ours) a y =
      if-holds (λ (x : Attempt). Yields x.finished) ours
        (λ _. settle-Yields "hangup" a (inl refl) y) (λ _. y)
  on_signal-Yields (playback_finished ours) a y =
      if-holds (λ (x : Attempt). Yields x.finished) ours
        (λ _. live-Yields (λ x. record x { timeout_armed = true }) a y y) (λ _. y)
  on_signal-Yields timeout_fires a y =
      if-holds (λ (x : Attempt). Yields x.finished) a.timeout_armed
        (λ _. settle-Yields "timeout" a (inr (inl refl)) y) (λ _. y)
  on_signal-Yields inter_digit_fires a y =
      if-holds (λ (x : Attempt). Yields x.finished) a.inter_digit_set
        (λ _. settle-Yields _ a (resolve_menu_digit-IsChoice _) y) (λ _. y)

  run_attempt-Yields :
      (es : List Signal) (a : Attempt) → Yields a.finished → Yields (run_attempt node es a).finished
  unfolding run_attempt
  run_attempt-Yields [] a y = y
  run_attempt-Yields (e ∷ es) a y =
      run_attempt-Yields es (on_signal node e a) (on_signal-Yields e a y)

  -- Whatever signals arrive, in whatever order, an attempt yields a configured branch, or one of
  -- `hangup`, `timeout` and `invalid`.
  pub run_attempt-IsChoice :
      (has_prompt : Bool) (es : List Signal) (r : String)
      → (run_attempt node es (start_attempt has_prompt)).finished ≡ some r
      → IsChoice r
  unfolding start_attempt
  run_attempt-IsChoice has_prompt es r h =
      subst Yields h (run_attempt-Yields es (start_attempt has_prompt) tt)

  on_signal-settled :
      (e : Signal) (a : Attempt) (r : String)
      → a.finished ≡ some r
      → (on_signal node e a).finished ≡ some r
  unfolding on_signal settle
  on_signal-settled (dtmf ours digit) a r h = ground arith
  on_signal-settled (channel_gone ours) a r h = ground arith
  on_signal-settled (playback_finished ours) a r h = ground arith
  on_signal-settled timeout_fires a r h = ground arith
  on_signal-settled inter_digit_fires a r h = ground arith

  run_attempt-settled :
      (es : List Signal) (a : Attempt) (r : String)
      → a.finished ≡ some r
      → (run_attempt node es a).finished ≡ some r
  unfolding run_attempt
  run_attempt-settled [] a r h = h
  run_attempt-settled (e ∷ es) a r h =
      run_attempt-settled es (on_signal node e a) r (on_signal-settled e a r h)

  key_settles :
      (key : String) (a : Attempt)
      → has_double_digit_menu_branch node ≡ false
      → a.finished ≡ none
      → (on_signal node (dtmf true key) a).finished ≡ some (resolve_menu_digit node key)
  unfolding on_signal on_dtmf settle
  key_settles key a single open_still = ground (arith, single, open_still)

  pair_settles :
      (c d : Char) (has_prompt : Bool)
      → has_double_digit_menu_branch node ≡ true
      → is_digit (code c) ≡ true
      → is_digit (code d) ≡ true
      → (on_signal node
          (dtmf true (String.◌∷◌ d String.[]))
          (on_signal node (dtmf true (String.◌∷◌ c String.[])) (start_attempt has_prompt))).finished
        ≡ some (resolve_menu_digit node (String.◌∷◌ c (String.◌∷◌ d String.[])))
  unfolding on_signal on_dtmf settle start_attempt is_one_digit push_digit first_two
  pair_settles c d has_prompt double hc hd = rw (double, hc) (rw (double, hd) refl)

  -- Where no branch has two digits, the first key decides, and nothing that arrives later matters.
  pub first_key_decides :
      (key : String) (es : List Signal) (a : Attempt)
      → has_double_digit_menu_branch node ≡ false
      → a.finished ≡ none
      → (run_attempt node (dtmf true key ∷ es) a).finished ≡ some (resolve_menu_digit node key)
  unfolding run_attempt
  first_key_decides key es a single open_still =
      run_attempt-settled es (on_signal node (dtmf true key) a) (resolve_menu_digit node key)
        (key_settles key a single open_still)

  -- Where some branch has two digits, two digits in a row decide together, even if a third key, a
  -- timer or the end of the call follows.
  pub two_digits_decide :
      (c d : Char) (es : List Signal) (has_prompt : Bool)
      → has_double_digit_menu_branch node ≡ true
      → is_digit (code c) ≡ true
      → is_digit (code d) ≡ true
      → (run_attempt node
          (dtmf true (String.◌∷◌ c String.[]) ∷ dtmf true (String.◌∷◌ d String.[]) ∷ es)
          (start_attempt has_prompt)).finished
        ≡ some (resolve_menu_digit node (String.◌∷◌ c (String.◌∷◌ d String.[])))
  unfolding run_attempt
  two_digits_decide c d es has_prompt double hc hd =
      run_attempt-settled es _ (resolve_menu_digit node (String.◌∷◌ c (String.◌∷◌ d String.[])))
        (pair_settles c d has_prompt double hc hd)
