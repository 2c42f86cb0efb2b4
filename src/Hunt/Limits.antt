-- ===== src/Hunt/Limits.antt =====
-- The attempts of `executeHunt` (stasis/src/nodes/hunt.executor.ts): how long they ring, and that
-- the loop ends.
use callytics.Js.{Value, Number, nan, nat, negative, number_or}
use callytics.Hunt.{at_least_one}
use callytics.Hunt.Attempts.{
  LegEnd, answered, timed_out, failed, hung_up, Busy, played, caller_gone, broken, Leg, Dial, Hunt,
  HuntConfig, pick, dial_of, next_round, dialling, Turn, ends, goes_on, after_leg, attempt, turn,
  hunt_loop,
}
use callytics.Prelude.{
  ℕ, zero, suc, ◌+◌, ◌-◌, ◌≤◌, ◌<◌, String, ◌≡◌, refl, ◌⊎◌, inl, inr, true, false, not, Option,
  none, some, arith, ltb, leb, if◌then◌else◌, if-holds, length, All, is_empty,
}

pub at_least_one-pos : (v : Value) (standard : ℕ) → 1 ≤ at_least_one v standard
unfolding at_least_one
at_least_one-pos v standard = by_number (number_or v standard)
  where
    by_number :
        (n : Number) → 1 ≤ (elim n [ nan ↦ 1 | nat k ↦ if ltb k 1 then 1 else k | negative k ↦ 1 ])
    by_number nan = omega arith
    by_number (nat k) = ground arith
    by_number (negative k) = omega arith

module _ (config : HuntConfig) (legs : ℕ → Leg) (choices : ℕ → ℕ) where
  -- An attempt rings for a moment at least, no longer than an attempt may, and not past the end of
  -- the whole hunt.
  abbrev pub IsTimed : Dial → Type 0
  IsTimed d =
      (1 ≤ d.timeout_ms)
      × (d.timeout_ms ≤ config.attempt_timeout_ms)
      × (d.at + d.timeout_ms ≤ config.total_timeout_ms)

  abbrev pub IsResult : String → Type 0
  IsResult r = (r ≡ "done") ⊎ (r ≡ "hangup") ⊎ (r ≡ config.no_answer)

  abbrev pub Finishes : Option (String × Hunt) → Type 0
  Finishes none = ⊥
  Finishes (some (r, h)) = IsResult r × All IsTimed h.dialled

  -- A turn ends with a result, or takes time.
  abbrev Goes : Hunt → Turn config legs choices → Type 0
  Goes h (ends r h') = IsResult r × All IsTimed h'.dialled
  Goes h (goes_on h') =
      All IsTimed h'.dialled × (h.now < config.total_timeout_ms) × (h.now < h'.now)

  after_leg-Goes :
      (leg : Leg) (h h' : Hunt)
      → All IsTimed h'.dialled
      → h.now < config.total_timeout_ms
      → h.now < h'.now
      → Goes h (after_leg config legs choices leg h')
  unfolding after_leg
  after_leg-Goes leg h h' timed low more =
      if-holds (Goes h) leg.inbound_ended (λ _. (inr (inl refl), timed))
        λ _.
          if-holds (Goes h) (leb config.total_timeout_ms h'.now) (λ _. (inr (inr refl), timed))
            λ _.
              if-holds (Goes h) config.has_busy_media (λ _. by_busy leg.busy)
                (λ _. (timed, low, more))
    where
      by_busy :
          (b : Busy)
          → Goes h (elim b [
            | played t ↦ goes_on (record h' { now = h'.now + t })
            | caller_gone ↦ ends "hangup" h'
            | broken ↦ ends config.no_answer h'
          ])
      by_busy (played t) = (timed, low, omega (arith, more))
      by_busy caller_gone = (inr (inl refl), timed)
      by_busy broken = (inr (inr refl), timed)

  dialling-IsTimed :
      (endpoint : String) (leg : Leg) (h : Hunt)
      → 1 ≤ config.attempt_timeout_ms
      → h.now < config.total_timeout_ms
      → All IsTimed h.dialled
      → All IsTimed (dialling config legs choices endpoint leg h).dialled
  unfolding dialling
  dialling-IsTimed endpoint leg h some_time low timed =
      ((ground (arith, some_time, low), ground arith, ground (arith, low)), timed)

  attempt-Goes :
      (endpoint : String) (h : Hunt)
      → ((i : ℕ) → 1 ≤ (legs i).took)
      → 1 ≤ config.attempt_timeout_ms
      → h.now < config.total_timeout_ms
      → All IsTimed h.dialled
      → Goes h (attempt config legs choices endpoint h)
  unfolding attempt dialling
  attempt-Goes endpoint h takes some_time low timed =
      by_end (legs (length h.dialled)).leg_end
        (dialling-IsTimed endpoint (legs (length h.dialled)) h some_time low timed)
        (takes (length h.dialled))
    where
      by_end :
          (e : LegEnd)
          → All IsTimed (dialling config legs choices endpoint (legs (length h.dialled)) h).dialled
          → 1 ≤ (legs (length h.dialled)).took
          → Goes h (
              let leg = legs (length h.dialled) in
              let dialled = dialling config legs choices endpoint leg h in
              elim e [
                | answered bridged ↦
                    if bridged
                    then ends "done" dialled
                    else ends (if leg.inbound_ended then "hangup" else config.no_answer) dialled
                | hung_up ↦ ends "hangup" dialled
                | _ ↦ after_leg config legs choices leg dialled
              ])
      by_end (answered true) rings time = (inl refl, rings)
      by_end (answered false) rings time = (
        if-holds IsResult (legs (length h.dialled)).inbound_ended (λ _. inr (inl refl))
            (λ _. inr (inr refl)),
        rings,
      )
      by_end hung_up rings time = (inr (inl refl), rings)
      by_end timed_out rings time =
          after_leg-Goes (legs (length h.dialled)) h
            (dialling config legs choices endpoint (legs (length h.dialled)) h) rings low
            (omega (arith, time))
      by_end failed rings time =
          after_leg-Goes (legs (length h.dialled)) h
            (dialling config legs choices endpoint (legs (length h.dialled)) h) rings low
            (omega (arith, time))

  turn-Goes :
      (h : Hunt)
      → ((x : Hunt) → is_empty (dial_of config legs choices (pick config legs choices x)) ≡ false)
      → ((i : ℕ) → 1 ≤ (legs i).took)
      → 1 ≤ config.attempt_timeout_ms
      → All IsTimed h.dialled
      → Goes h (turn config legs choices h)
  unfolding turn next_round
  turn-Goes h resolves takes some_time timed =
      if-holds (Goes h) (not (ltb h.now config.total_timeout_ms)) (λ _. (inr (inr refl), timed))
        λ low.
          if-holds (Goes h) h.inbound_ended (λ _. (inr (inl refl), timed))
            λ _.
              if-holds (Goes h)
                (is_empty (dial_of config legs choices (pick config legs choices h)))
                (λ e. absurd (cc (e, resolves h)))
                (λ _.
                  attempt-Goes _ (next_round config legs choices h) takes some_time
                    (ground (arith, low)) timed)

  pub hunt_loop-Finishes :
      (fuel : ℕ) (h : Hunt)
      → ((x : Hunt) → is_empty (dial_of config legs choices (pick config legs choices x)) ≡ false)
      → ((i : ℕ) → 1 ≤ (legs i).took)
      → 1 ≤ config.attempt_timeout_ms
      → All IsTimed h.dialled
      → config.total_timeout_ms - h.now < fuel
      → Finishes (hunt_loop config legs choices fuel h)
  unfolding hunt_loop
  hunt_loop-Finishes zero h resolves takes some_time timed enough = absurd (omega arith)
  hunt_loop-Finishes (suc fuel) h resolves takes some_time timed enough =
      by_turn (turn config legs choices h) (turn-Goes h resolves takes some_time timed)
        (λ h' t e. hunt_loop-Finishes fuel h' resolves takes some_time t e)
    where
      by_turn :
          (t : Turn config legs choices)
          → Goes h t
          → ((h' : Hunt)
              → All IsTimed h'.dialled
              → config.total_timeout_ms - h'.now < fuel
              → Finishes (hunt_loop config legs choices fuel h'))
          → Finishes (elim t [
            | ends r h' ↦ some (r, h')
            | goes_on h' ↦ hunt_loop config legs choices fuel h'
          ])
      by_turn (ends r h') g rec = g
      by_turn (goes_on h') (timed, low, more) rec = rec h' timed (omega (arith, enough, low, more))
