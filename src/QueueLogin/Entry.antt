-- ===== src/QueueLogin/Entry.antt =====
-- Who gets in through a queue login node (stasis/src/executors/queue_login.executor.ts), and how the
-- queues are left.
use callytics.Flow.{FlowNode, Flow}
use callytics.Queue.{Redis, member, s_rem, update, logout_operator}
use callytics.Queue.Sets.{member-s_rem}
use callytics.QueueLogin.{
  PinEvent, no_digits, wait_for_dtmf_digits, QueueRow, OperatorPinRow, Tables, selected_queue_ids,
  load_queues, load_operators, least_attempts, LoginAnswer, authenticated,
  route_back_to_menu_on_failure, login_all, logout_all, leaves, Login, hold_line, attempt_pins,
  execute_queue_login,
}
use mathlib.Core.Path.{subst}
use callytics.Prelude.{
  ℕ, zero, suc, ◌≤◌, String, ◌≡◌, refl, sym, ap, ◌∙◌, ◌⊎◌, inl, inr, Bool, true, false, not, ◌&&◌,
  none, some, List, [], ◌∷◌, arith, eqb, if◌then◌else◌, Bool-cases, if-holds, option-holds, length,
  find?, any, All, find?-test, In, find?-In, In-filter, All-weaken, eqb-true,
}

-- One of the first inputs, up to a number of them.
abbrev pub InFirst : ℕ → List PinEvent → List (List PinEvent) → Type 0
InFirst zero es inputs = ⊥
InFirst (suc n) es [] = ⊥
InFirst (suc n) es (i ∷ inputs) = (i ≡ es) ⊎ InFirst n es inputs

InFirst-more :
    (n m : ℕ) (es : List PinEvent) (inputs : List (List PinEvent))
    → n ≤ m
    → InFirst n es inputs
    → InFirst m es inputs
InFirst-more zero m es inputs h i = absurd i
InFirst-more (suc n) zero es inputs h i = absurd (omega (arith, h))
InFirst-more (suc n) (suc m) es [] h i = absurd i
InFirst-more (suc n) (suc m) es (j ∷ inputs) h (inl e) = inl e
InFirst-more (suc n) (suc m) es (j ∷ inputs) h (inr i) =
    inr (InFirst-more n m es inputs (omega (arith, h)) i)

-- The operator is neither free nor busy in the queue.
abbrev pub IsGone : ℕ → Redis → ℕ → Type 0
IsGone op r q = (member op (r.operators q) ≡ false) × (member op (r.busy q) ≡ false)

removed : (op : ℕ) (xs : List ℕ) → member op (s_rem op xs) ≡ false
removed op xs = ground (arith, member-s_rem op op xs, eqb-true op op refl)

still_removed :
    (op q p : ℕ) (sets : ℕ → List ℕ)
    → member op (sets p) ≡ false
    → member op (update sets q (s_rem op (sets q)) p) ≡ false
still_removed op q p sets h = elim (Bool-cases (eqb q p)) [
  | inl t ↦ rw t (removed op (sets q))
  | inr t ↦ rw t h
]

logout-IsGone : (op q : ℕ) (r : Redis) → IsGone op (logout_operator op q r) q
unfolding logout_operator
logout-IsGone op q r = (
  rw (eqb-true q q refl) (removed op (r.operators q)),
  rw (eqb-true q q refl) (removed op (r.busy q)),
)

logout_all-keeps :
    (op p : ℕ) (ids : List ℕ) (r : Redis) → IsGone op r p → IsGone op (logout_all op ids r) p
unfolding logout_all logout_operator
logout_all-keeps op p [] r h = h
logout_all-keeps op p (q ∷ ids) r (free, busy) =
    logout_all-keeps op p ids (logout_operator op q r)
      (still_removed op q p r.operators free, still_removed op q p r.busy busy)

logout_all-IsGone : (op : ℕ) (ids : List ℕ) (r : Redis) → All (IsGone op (logout_all op ids r)) ids
unfolding logout_all
logout_all-IsGone op [] r = tt
logout_all-IsGone op (q ∷ ids) r = (
  logout_all-keeps op q ids (logout_operator op q r) (logout-IsGone op q r),
  logout_all-IsGone op ids (logout_operator op q r),
)

least_attempts-least :
    (q : QueueRow) (rows : List QueueRow)
    → All (λ (row : QueueRow). least_attempts q rows ≤ row.pin_retry_attempts) (q ∷ rows)
unfolding least_attempts
least_attempts-least q [] = (omega arith, tt)
least_attempts-least q (r ∷ rest) = (
  ground arith,
  All-weaken (λ (row : QueueRow). least_attempts r rest ≤ row.pin_retry_attempts)
      (λ (row : QueueRow). least_attempts q (r ∷ rest) ≤ row.pin_retry_attempts) (r ∷ rest)
      (λ row h. ground (arith, h)) (least_attempts-least r rest),
)

module _ (pin_matches : String → String → Bool) (channel : String) (meanwhile : Redis → Redis) where
  -- The operator's PIN was entered in some attempt for which a condition holds.
  abbrev pub Entered : (List PinEvent → Type 0) → OperatorPinRow → Type 0
  Entered P o =
      (es : List PinEvent) × P es
      × ((pin : String) × (wait_for_dtmf_digits channel es no_digits ≡ some (some pin))
          × (pin_matches pin o.pin_hash ≡ true))

  -- The operator is on the line, or has left it and the queues.
  abbrev pub IsHeld : List ℕ → OperatorPinRow → Redis → Login → Type 0
  IsHeld ids o r l =
      ((l.answer ≡ none) × (l.redis ≡ login_all o.id channel ids r))
      ⊎ ((l.answer ≡ some authenticated)
          × (l.redis ≡ logout_all o.id ids (meanwhile (login_all o.id channel ids r)))
          × All (IsGone o.id l.redis) ids)

  abbrev pub IsRefused : LoginAnswer → Redis → Login → Type 0
  IsRefused back r l = (l.redis ≡ r) × ((l.answer ≡ none) ⊎ (l.answer ≡ some back))

  abbrev IsAttempted :
      LoginAnswer → List ℕ → List OperatorPinRow → ℕ → List (List PinEvent) → Redis → Login → Type 0
  IsAttempted back ids ops n inputs r l =
      IsRefused back r l
      ⊎ ((o : OperatorPinRow) × In o ops × Entered (λ es. InFirst n es inputs) o × IsHeld ids o r l)

  hold_line-IsHeld :
      (o : OperatorPinRow) (ids : List ℕ) (later : List PinEvent) (r : Redis)
      → IsHeld ids o r (hold_line pin_matches channel meanwhile o.id ids later r)
  unfolding hold_line
  hold_line-IsHeld o ids later r =
      if-holds (IsHeld ids o r) (any later (leaves channel))
        (λ t.
          inr (refl, refl, logout_all-IsGone o.id ids (meanwhile (login_all o.id channel ids r))))
        (λ f. inl (refl, refl))

  attempt_pins-IsAttempted :
      (back : LoginAnswer) (ids : List ℕ) (ops : List OperatorPinRow) (n : ℕ)
      (inputs : List (List PinEvent)) (later : List PinEvent) (r : Redis)
      → IsAttempted back ids ops n inputs r
          (attempt_pins pin_matches channel meanwhile back ids ops n inputs later r)
  unfolding attempt_pins
  attempt_pins-IsAttempted back ids ops zero inputs later r = inl (refl, inr refl)
  attempt_pins-IsAttempted back ids ops (suc n) [] later r = inl (refl, inl refl)
  attempt_pins-IsAttempted back ids ops (suc n) (es ∷ inputs) later r =
      option-holds Here (wait_for_dtmf_digits channel es no_digits) (λ _. inl (refl, inl refl))
        λ answer settled.
          option-holds Here answer (λ _. inl (refl, inr refl))
            λ pin typed.
              option-holds Here (find? (λ (o : OperatorPinRow). pin_matches pin o.pin_hash) ops)
                (λ _. later_attempt (attempt_pins-IsAttempted back ids ops n inputs later r))
                λ o found. inr (
                  o,
                  find?-In (λ (p : OperatorPinRow). pin_matches pin p.pin_hash) ops found,
                  (
                    es,
                    inl refl,
                    (
                      pin,
                      settled ∙ ap some typed,
                      find?-test (λ (p : OperatorPinRow). pin_matches pin p.pin_hash) ops found,
                    ),
                  ),
                  hold_line-IsHeld o ids later r,
                )
    where
      Here : Login → Type 0
      Here l = IsAttempted back ids ops (suc n) (es ∷ inputs) r l

      later_attempt : {l : Login} → IsAttempted back ids ops n inputs r l → Here l
      later_attempt (inl h) = inl h
      later_attempt (inr (o, m, (fs, i, entered), held)) = inr (o, m, (fs, inr i, entered), held)

  -- The operator is assigned to one of the queues, and the attempt is among those that each of them
  -- allows.
  abbrev pub IsAdmitted : FlowNode → Tables → List (List PinEvent) → OperatorPinRow → Type 0
  IsAdmitted node db inputs o =
      In o db.operators
      × (any db.queue_operators
            (λ (op, queue). eqb op o.id && member queue (selected_queue_ids node))
          ≡ true)
      × Entered
          (λ es.
            All (λ (q : QueueRow). InFirst q.pin_retry_attempts es inputs)
              (load_queues (selected_queue_ids node) db))
          o

  abbrev pub IsLogin : Flow → FlowNode → Tables → List (List PinEvent) → Redis → Login → Type 0
  IsLogin flow node db inputs r l =
      IsRefused (route_back_to_menu_on_failure flow node) r l
      ⊎ ((o : OperatorPinRow) × IsAdmitted node db inputs o
          × IsHeld (selected_queue_ids node) o r l)

  -- A queue login node changes the queues only for an operator who is assigned to one of them and
  -- whose PIN was typed within the number of attempts of each of them. That operator is then on the
  -- line, or has left it and is neither free nor busy in any of the queues, whatever happened to
  -- them meanwhile. In every other case the node waits, or goes back to the menu that led to it, or
  -- fails where none did.
  pub execute_queue_login-IsLogin :
      (flow : Flow) (node : FlowNode) (db : Tables) (inputs : List (List PinEvent))
      (later : List PinEvent) (r : Redis)
      → IsLogin flow node db inputs r
          (execute_queue_login pin_matches channel meanwhile flow node db inputs later r)
  unfolding execute_queue_login load_operators
  execute_queue_login-IsLogin flow node db inputs later r = by_rows (load_queues ids db) refl
    where
      ids : List ℕ
      ids = selected_queue_ids node

      back : LoginAnswer
      back = route_back_to_menu_on_failure flow node

      ops : List OperatorPinRow
      ops = load_operators ids db

      admitted :
          (q : QueueRow) (rows : List QueueRow) {l : Login}
          → load_queues ids db ≡ q ∷ rows
          → IsAttempted back ids ops (least_attempts q rows) inputs r l
          → IsLogin flow node db inputs r l
      admitted q rows e (inl h) = inl h
      admitted q rows e (inr (o, m, (es, i, entered), held)) =
          let (known, assigned) =
            In-filter
              (λ (p : OperatorPinRow).
                any db.queue_operators (λ (op, queue). eqb op p.id && member queue ids))
              db.operators o m in
          inr (
            o,
            (
              known,
              assigned,
              (
                es,
                subst
                    (λ found.
                      All (λ (row : QueueRow). InFirst row.pin_retry_attempts es inputs) found)
                    (sym e)
                    (All-weaken (λ (row : QueueRow). least_attempts q rows ≤ row.pin_retry_attempts)
                      (λ (row : QueueRow). InFirst row.pin_retry_attempts es inputs) (q ∷ rows)
                      (λ row h.
                        InFirst-more (least_attempts q rows) row.pin_retry_attempts es inputs h i)
                      (least_attempts-least q rows)),
                entered,
              ),
            ),
            held,
          )

      refused : Login
      refused = record { answer = some back; redis = r }

      by_rows :
          (found : List QueueRow)
          → load_queues ids db ≡ found
          → IsLogin flow node db inputs r (elim found [
            | [] ↦ refused
            | q ∷ rows ↦
                if eqb (length (q ∷ rows)) (length ids) && not (eqb (length ops) 0)
                then attempt_pins pin_matches channel meanwhile back ids ops
                    (least_attempts q rows)
                    inputs
                    later
                    r
                else refused
          ])
      by_rows [] e = inl (refl, inr refl)
      by_rows (q ∷ rows) e =
          if-holds (IsLogin flow node db inputs r)
            (eqb (length (q ∷ rows)) (length ids) && not (eqb (length ops) 0))
            (λ _.
              admitted q rows e
                (attempt_pins-IsAttempted back ids ops (least_attempts q rows) inputs later r))
            (λ _. inl (refl, inr refl))
