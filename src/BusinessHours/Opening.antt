-- ===== src/BusinessHours/Opening.antt =====
-- When a node's hours are open (stasis/src/executors/business_hours.executor.ts).
use callytics.BusinessHours.{
  clock, digit, to_minutes, property, Now, resolve_now_parts, window, at_day, timezone_of,
  evaluate_business_hours,
}
use Prim.Native.Char.{Char, code}
use callytics.Js.{Value, Fields, get, truthy, text_of, Number}
use callytics.Prelude.{
  ℕ, ◌+◌, ◌-◌, ◌*◌, ◌≤◌, ◌<◌, String, ◌≡◌, refl, sym, ap, ◌≢◌, ◌↔◌, inl, inr, Bool, true, false,
  ◌&&◌, Option, none, some, arith, eq_iff, leb, eqb, if◌then◌else◌, Bool-cases, trim, is_empty,
  is_digit,
}

abbrev pub IsDigit : Char → Type 0
IsDigit c = (48 ≤ code c) × (code c ≤ 57)

-- The number of a two-digit numeral.
abbrev pub two_digit : Char → Char → ℕ
two_digit a b = (code a - 48) * 10 + (code b - 48)

-- A text is a clock's time, `HH:MM` from 00:00 to 23:59, and stands for a minute of the day.
abbrev pub IsClock : String → ℕ → Type 0
IsClock s t =
    (a : Char) × (b : Char) × (colon : Char) × (c : Char) × (d : Char) × (s
      ≡ String.◌∷◌ a (String.◌∷◌ b (String.◌∷◌ colon (String.◌∷◌ c (String.◌∷◌ d String.[])))))
    × (code colon ≡ 58)
    × IsDigit a
    × IsDigit b
    × IsDigit c
    × IsDigit d
    × (two_digit a b ≤ 23)
    × (two_digit c d ≤ 59)
    × (t ≡ two_digit a b * 60 + two_digit c d)

clock-IsClock : (s : String) (t : ℕ) → clock s ≡ some t → IsClock s t
unfolding clock digit
clock-IsClock String.[] t h = absurd (cc)
clock-IsClock (String.◌∷◌ a String.[]) t h = absurd (cc)
clock-IsClock (String.◌∷◌ a (String.◌∷◌ b String.[])) t h = absurd (cc)
clock-IsClock (String.◌∷◌ a (String.◌∷◌ b (String.◌∷◌ colon String.[]))) t h = absurd (cc)
clock-IsClock (String.◌∷◌ a (String.◌∷◌ b (String.◌∷◌ colon (String.◌∷◌ c String.[])))) t h =
    absurd (cc)
clock-IsClock
      (String.◌∷◌ a (String.◌∷◌ b (String.◌∷◌ colon (String.◌∷◌ c (String.◌∷◌ d String.[]))))) t h =
    by_test
      (is_digit (code a)
        && is_digit (code b)
        && eqb (code colon) 58
        && is_digit (code c)
        && is_digit (code d)
        && leb (two_digit a b) 23
        && leb (two_digit c d) 59)
      refl h
  where
    time : String
    time = String.◌∷◌ a (String.◌∷◌ b (String.◌∷◌ colon (String.◌∷◌ c (String.◌∷◌ d String.[]))))

    by_test :
        (holds : Bool)
        → (is_digit (code a)
            && is_digit (code b)
            && eqb (code colon) 58
            && is_digit (code c)
            && is_digit (code d)
            && leb (two_digit a b) 23
            && leb (two_digit c d) 59)
          ≡ holds
        → ◌≡◌ {A = Option ℕ}
            (if holds then some (two_digit a b * 60 + two_digit c d) else none)
            (some t)
        → IsClock time t
    by_test false e k = absurd (cc)
    by_test true e k =
        let value : two_digit a b * 60 + two_digit c d ≡ t = cc in
        (
          a,
          b,
          colon,
          c,
          d,
          refl,
          ground (arith, e),
          (ground (arith, e), ground (arith, e)),
          (ground (arith, e), ground (arith, e)),
          (ground (arith, e), ground (arith, e)),
          (ground (arith, e), ground (arith, e)),
          ground (arith, e),
          ground (arith, e),
          sym value,
        )
clock-IsClock
      (String.◌∷◌ a
        (String.◌∷◌ b (String.◌∷◌ colon (String.◌∷◌ c (String.◌∷◌ d (String.◌∷◌ e s))))))
      t h =
    absurd (cc)

IsClock-clock : (s : String) (t : ℕ) → IsClock s t → clock s ≡ some t
unfolding clock digit
IsClock-clock s t
      (a, b, colon, c, d, shape, mark, (al, ah), (bl, bh), (cl, ch), (dl, dh), hours, minutes, at) =
    let holds : (is_digit (code a)
          && is_digit (code b)
          && eqb (code colon) 58
          && is_digit (code c)
          && is_digit (code d)
          && leb (two_digit a b) 23
          && leb (two_digit c d) 59)
        ≡ true =
      ground (arith, mark, al, ah, bl, bh, cl, ch, dl, dh, hours, minutes) in
    rw shape (rw holds (ap some (sym at)))

to_minutes-IsClock : (s : String) (t : ℕ) → (to_minutes s ≡ some t) ↔ IsClock (trim s) t
unfolding to_minutes
to_minutes-IsClock s t = (clock-IsClock (trim s) t, IsClock-clock (trim s) t)

module _ (format : String → Option (String × Number × Number)) where
  -- The day is enabled, both of its times are times of a clock, and the minute lies between them,
  -- the ends included.
  abbrev pub IsWithin : Value → ℕ → Type 0
  IsWithin day t =
      (o : ℕ) × (c : ℕ) × (truthy (property day "enabled") ≡ true)
      × IsClock (trim (text_of (property day "open"))) o
      × IsClock (trim (text_of (property day "close"))) c
      × (o < c)
      × (o ≤ t)
      × (t ≤ c)

  abbrev pub IsOpen : Fields → Type 0
  IsOpen config =
      (now : Now) × (is_empty (timezone_of format config) ≡ false)
      × (resolve_now_parts format (timezone_of format config) ≡ some now)
      × IsWithin (property (get config "schedule") (now.0)) ((now.1) * 60 + now.2)

  closed-open : ◌≢◌ {A = String} "closed" "open"
  closed-open h = ground (arith, eq_iff "closed" "open", h)

  window-open :
      (o c : Option ℕ) (t : ℕ)
      → window format o c t ≡ "open"
      → (a : ℕ) × (b : ℕ) × (o ≡ some a) × (c ≡ some b) × (a < b) × (a ≤ t) × (t ≤ b)
  unfolding window
  window-open none c t h = absurd (closed-open h)
  window-open (some o) none t h = absurd (closed-open h)
  window-open (some o) (some c) t h = elim (Bool-cases (leb c o)) [
    | inl e ↦ absurd (closed-open (rw e at h))
    | inr e ↦ elim (Bool-cases (leb o t && leb t c)) [
      | inl f ↦ (o, c, refl, refl, ground (arith, e), ground (arith, f), ground (arith, f))
      | inr f ↦ absurd (closed-open (rw (e, f) at h))
    ]
  ]

  window-within : (o c t : ℕ) → o < c → o ≤ t → t ≤ c → window format (some o) (some c) t ≡ "open"
  unfolding window
  window-within o c t low from until =
      let later : leb c o ≡ false = ground (arith, low) in
      let inside : (leb o t && leb t c) ≡ true = ground (arith, from, until) in
      rw (later, inside) refl

  at_day-IsWithin : (day : Value) (t : ℕ) → at_day format day t ≡ "open" → IsWithin day t
  unfolding at_day
  at_day-IsWithin day t h = elim (Bool-cases (truthy (property day "enabled"))) [
    | inl e ↦
        let (o, c, eo, ec, low, from, until) =
          window-open (to_minutes (text_of (property day "open")))
            (to_minutes (text_of (property day "close"))) t (rw e at h) in
        (
          o,
          c,
          e,
          (to_minutes-IsClock (text_of (property day "open")) o).0 eo,
          (to_minutes-IsClock (text_of (property day "close")) c).0 ec,
          low,
          from,
          until,
        )
    | inr e ↦ absurd (closed-open (rw e at h))
  ]

  within-at_day : (day : Value) (t : ℕ) → IsWithin day t → at_day format day t ≡ "open"
  unfolding at_day
  within-at_day day t (o, c, enabled, eo, ec, low, from, until) =
      let opening = (to_minutes-IsClock (text_of (property day "open")) o).1 eo in
      let closing = (to_minutes-IsClock (text_of (property day "close")) c).1 ec in
      rw enabled (rw (opening, closing) (window-within o c t low from until))

  forth : (config : Fields) → evaluate_business_hours format config ≡ "open" → IsOpen config
  unfolding evaluate_business_hours
  forth config h =
      by_zone (is_empty (timezone_of format config))
        (resolve_now_parts format (timezone_of format config)) refl refl h
    where
      day : String → Value
      day weekday = property (get config "schedule") weekday

      by_zone :
          (b : Bool) (o : Option Now)
          → is_empty (timezone_of format config) ≡ b
          → resolve_now_parts format (timezone_of format config) ≡ o
          → (if b then "closed" else elim o as (λ _. String) [
            | none ↦ "closed"
            | some (weekday, hour, minute) ↦ at_day format (day weekday) (hour * 60 + minute)
          ])
            ≡ "open"
          → IsOpen config
      by_zone true o eb eo e = absurd (closed-open e)
      by_zone false none eb eo e = absurd (closed-open e)
      by_zone false (some now) eb eo e = (now, eb, eo, at_day-IsWithin _ _ e)

  back : (config : Fields) → IsOpen config → evaluate_business_hours format config ≡ "open"
  unfolding evaluate_business_hours
  back config (now, zone, parts, within) = rw zone (
      rw parts
        (within-at_day (property (get config "schedule") (now.0)) ((now.1) * 60 + now.2) within))

  -- A node is open exactly when its time zone is known, the day's schedule is enabled with an
  -- opening time before its closing time, both written `HH:MM` from 00:00 to 23:59 but for white
  -- space around them, and the present minute lies between the two, the ends included.
  pub evaluate_business_hours-IsOpen :
      (config : Fields) → (evaluate_business_hours format config ≡ "open") ↔ IsOpen config
  evaluate_business_hours-IsOpen config = (forth config, back config)
