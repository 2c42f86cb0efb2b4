-- ===== src/Menu/Attempts.antt =====
-- The loop of `executeMenu` (stasis/src/executors/menu.executor.ts) over failed attempts.
use callytics.Flow.{FlowNode, Flow}
use callytics.Js.Numerals.{to_number-show_ℕ}
use callytics.Session.{Variables, lookup, insert, remove, lookup-insert, lookup-remove}
use callytics.Menu.{
  Counter, timeout, invalid, counter_key, get_counter, limit, MenuRun, Round, again, done,
  clear_counters, count_failure, menu_round, execute_menu, max_attempts,
}
use callytics.Js.{nat, get, Value, Number, nan, negative, number_or}
use mathlib.Core.Path.{ap₂}
use callytics.Prelude.{
  ℕ, zero, suc, ◌+◌, ◌≤◌, ◌<◌, String, ◌≡◌, refl, sym, ap, ◌∙◌, ◌≢◌, ◌⊎◌, inl, inr, Bool, true,
  false, ◌||◌, Option, none, some, arith, ◌==◌, eq_iff, eq_refl, ltb, leb, if◌then◌else◌,
  Bool-cases, if-holds, show_ℕ, show_ℕ-not_empty, concat, concat-cancel,
}

max_attempts-pos : (v : Value) → 0 < max_attempts v
unfolding max_attempts
max_attempts-pos v = by_number (number_or v 3)
  where
    by_number :
        (n : Number) → 0 < (elim n [ nan ↦ 3 | nat k ↦ if ltb k 1 then 1 else k | negative k ↦ 1 ])
    by_number nan = omega arith
    by_number (nat k) = ground arith
    by_number (negative k) = omega arith

leb-false : (a b : ℕ) → leb a b ≡ false → b < a
leb-false a b h = ground arith

module _ (flow : Flow) (node : FlowNode) where
  -- The two counters have keys of their own.
  counter_key-ne : counter_key flow node timeout ≢ counter_key flow node invalid
  unfolding counter_key
  counter_key-ne h =
      let k = λ (t : String). concat t "_count" in
      let tail = concat-cancel node.node_key (concat ":" (k "timeout")) (concat ":" (k "invalid")) (
        concat-cancel ":" _ _ (concat-cancel (show_ℕ flow.id) _ _ (concat-cancel "menu:" _ _ h))) in
      cc ((eq_iff _ _).1 tail)

  get_counter-insert :
      (key : String) (n : ℕ) (vars : Variables)
      → get_counter (insert key (show_ℕ n) vars) key ≡ nat n
  unfolding get_counter
  get_counter-insert key n vars =
      rw (lookup-insert key key (show_ℕ n) vars)
        (rw (eq_refl key) (rw (show_ℕ-not_empty n) (to_number-show_ℕ n)))

  get_counter-insert_ne :
      (key other text : String) (vars : Variables)
      → (key == other) ≡ false
      → get_counter (insert key text vars) other ≡ get_counter vars other
  unfolding get_counter
  get_counter-insert_ne key other text vars h = rw (lookup-insert key other text vars) (rw h refl)

  -- The counters hold t timeouts and v invalid choices.
  abbrev pub Counts : MenuRun → ℕ → ℕ → Type 0
  Counts m t v =
      (get_counter m.variables (counter_key flow node timeout) ≡ nat t)
      × (get_counter m.variables (counter_key flow node invalid) ≡ nat v)

  -- A finished menu has cleared its counters.
  abbrev pub IsCleared : MenuRun → Type 0
  IsCleared m =
      (lookup (counter_key flow node timeout) m.variables ≡ none)
      × (lookup (counter_key flow node invalid) m.variables ≡ none)

  clear_counters-IsCleared : (m : MenuRun) → IsCleared (clear_counters flow node m)
  unfolding clear_counters
  clear_counters-IsCleared m =
      let kt = counter_key flow node timeout in
      let kv = counter_key flow node invalid in
      (
        lookup-remove kv kt (remove kt m.variables)
            ∙ ap (λ o. if kv == kt then none else o)
                (lookup-remove kt kt m.variables
                  ∙ ap (λ b. if b then none else lookup kt m.variables) (eq_refl kt))
            ∙ twice (kv == kt),
        lookup-remove kv kv (remove kt m.variables)
            ∙ ap (λ b. if b then none else lookup kv (remove kt m.variables)) (eq_refl kv),
      )
    where
      twice : (b : Bool) → ◌≡◌ {A = Option String} (if b then none else none) none
      twice true = refl
      twice false = refl

  -- After a round: at the limit the menu hangs up with its counters cleared, and below it the
  -- counter of that kind has grown by one.
  abbrev Counted : ℕ → ℕ → ℕ → Round → Type 0
  Counted limit t v (again m) = (t < limit) × Counts m t v
  Counted limit t v (done r m) = (r ≡ "hangup") × IsCleared m

  abbrev CountedInvalid : ℕ → ℕ → ℕ → Round → Type 0
  CountedInvalid limit t v (again m) = (v < limit) × Counts m t v
  CountedInvalid limit t v (done r m) = (r ≡ "hangup") × IsCleared m

  timeout-invalid : (counter_key flow node timeout == counter_key flow node invalid) ≡ false
  timeout-invalid =
      elim (Bool-cases (counter_key flow node timeout == counter_key flow node invalid)) [
        | inl e ↦ absurd (counter_key-ne ((eq_iff _ _).0 e))
        | inr e ↦ e
      ]

  invalid-timeout : (counter_key flow node invalid == counter_key flow node timeout) ≡ false
  invalid-timeout =
      elim (Bool-cases (counter_key flow node invalid == counter_key flow node timeout)) [
        | inl e ↦ absurd (counter_key-ne (sym ((eq_iff _ _).0 e)))
        | inr e ↦ e
      ]

  count_timeout :
      (m : MenuRun) (t v : ℕ)
      → Counts m t v
      → Counted (limit flow node timeout) (suc t) v (count_failure flow node timeout m)
  unfolding count_failure
  count_timeout m t v c =
      let key = counter_key flow node timeout in
      rw (c.0) (
        if-holds (Counted (limit flow node timeout) (suc t) v)
          (leb (limit flow node timeout) (suc t)) (λ _. (refl, clear_counters-IsCleared _))
          (λ below. (
            leb-false (limit flow node timeout) (suc t) below,
            (
              get_counter-insert key (suc t) m.variables,
              get_counter-insert_ne key (counter_key flow node invalid) (show_ℕ (suc t)) m.variables
                    timeout-invalid
                  ∙ c.1,
            ),
          )))

  count_invalid :
      (m : MenuRun) (t v : ℕ)
      → Counts m t v
      → CountedInvalid (limit flow node invalid) t (suc v) (count_failure flow node invalid m)
  unfolding count_failure
  count_invalid m t v c =
      let key = counter_key flow node invalid in
      rw (c.1) (
        if-holds (CountedInvalid (limit flow node invalid) t (suc v))
          (leb (limit flow node invalid) (suc v)) (λ _. (refl, clear_counters-IsCleared _))
          (λ below. (
            leb-false (limit flow node invalid) (suc v) below,
            (
              get_counter-insert_ne key (counter_key flow node timeout) (show_ℕ (suc v)) m.variables
                    invalid-timeout
                  ∙ c.0,
              get_counter-insert key (suc v) m.variables,
            ),
          )))

  abbrev is_failure : String → Bool
  is_failure r = r == "timeout" || r == "invalid"

  -- The menu ended after at most `left` more attempts, with its counters cleared, and its result is
  -- `hangup` or what one of the attempts chose.
  abbrev pub Finishes : (ℕ → String) → Option (String × MenuRun) → Type 0
  Finishes attempt none = ⊥
  Finishes attempt (some (r, m)) =
      IsCleared m × ((r ≡ "hangup") ⊎ ((i : ℕ) × (r ≡ attempt i) × (is_failure r ≡ false)))

  execute_menu-Finishes_from :
      (attempt : ℕ → String) (fuel i t v : ℕ) (m : MenuRun)
      → Counts m t v
      → t < limit flow node timeout
      → v < limit flow node invalid
      → limit flow node timeout + limit flow node invalid ≤ fuel + t + v + 1
      → Finishes attempt (execute_menu flow node attempt fuel i m)
  unfolding execute_menu menu_round
  execute_menu-Finishes_from attempt zero i t v m c ht hv enough = absurd (omega arith)
  execute_menu-Finishes_from attempt (suc fuel) i t v m c ht hv enough =
      if-holds Goal (attempt i == "hangup") (λ _. (clear_counters-IsCleared m, inl refl))
        λ _.
          if-holds Goal (attempt i == "timeout")
            (λ _.
              after_timeout (count_failure flow node timeout m) (count_timeout m t v c)
                (execute_menu-Finishes_from attempt fuel (suc i)))
            λ nt.
              if-holds Goal (attempt i == "invalid")
                (λ _.
                  after_invalid (count_failure flow node invalid m) (count_invalid m t v c)
                    (execute_menu-Finishes_from attempt fuel (suc i)))
                (λ nv. (clear_counters-IsCleared m, inr (i, refl, ap₂ ◌||◌ nt nv)))
    where
      Goal : Round → Type 0
      Goal o = Finishes attempt (elim o [
        | again m' ↦ execute_menu flow node attempt fuel (suc i) m'
        | done r m' ↦ some (r, m')
      ])

      Later : Type 0
      Later =
          (t' v' : ℕ) (m' : MenuRun)
          → Counts m' t' v'
          → t' < limit flow node timeout
          → v' < limit flow node invalid
          → limit flow node timeout + limit flow node invalid ≤ fuel + t' + v' + 1
          → Finishes attempt (execute_menu flow node attempt fuel (suc i) m')

      after_timeout :
          (o : Round)
          → Counted (limit flow node timeout) (suc t) v o
          → Later
          → Finishes attempt (elim o [
            | again m' ↦ execute_menu flow node attempt fuel (suc i) m'
            | done r m' ↦ some (r, m')
          ])
      after_timeout (again m') (low, c') rec = rec (suc t) v m' c' low hv (omega arith)
      after_timeout (done r m') (e, cleared) rec = (cleared, inl e)

      after_invalid :
          (o : Round)
          → CountedInvalid (limit flow node invalid) t (suc v) o
          → Later
          → Finishes attempt (elim o [
            | again m' ↦ execute_menu flow node attempt fuel (suc i) m'
            | done r m' ↦ some (r, m')
          ])
      after_invalid (again m') (low, c') rec = rec t (suc v) m' c' ht low (omega arith)
      after_invalid (done r m') (e, cleared) rec = (cleared, inl e)

  limit-pos : (k : Counter) → 0 < limit flow node k
  unfolding limit
  limit-pos timeout = max_attempts-pos (get node.config "max_timeout_attempts")
  limit-pos invalid = max_attempts-pos (get node.config "max_invalid_attempts")

  -- A menu that is entered with fresh counters ends, whatever the caller does, with fuel for all the
  -- attempts of its two limits together but one. Its counters are then cleared, and its result is
  -- `hangup` or what an attempt yielded that was neither `timeout` nor `invalid`.
  pub execute_menu-Finishes :
      (attempt : ℕ → String) (fuel : ℕ) (m : MenuRun)
      → Counts m 0 0
      → limit flow node timeout + limit flow node invalid ≤ fuel + 1
      → Finishes attempt (execute_menu flow node attempt fuel 0 m)
  execute_menu-Finishes attempt fuel m c enough =
      execute_menu-Finishes_from attempt fuel 0 0 0 m c (limit-pos timeout) (limit-pos invalid)
        (omega arith)
