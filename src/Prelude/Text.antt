-- ===== src/Prelude/Text.antt =====
-- Texts: white space, prefixes and decimal numerals, as JavaScript's `String` has them.
use Prim.Native.Char.{Char, code}
use Prim.Native.String.{String}
use mathlib.Core.Bool.{Bool, true, false, ◌&&◌, ◌||◌}
use mathlib.Core.Option.{Option, none, some}
use mathlib.Core.List.{List, [], ◌∷◌}
use Prim.Native.Nat.{ℕ, zero, suc, ◌+◌, ◌-◌, ◌*◌, ◌/◌, ◌%◌, ◌<◌}
use mathlib.Core.Path.{◌≡◌, refl, ap, ◌∙◌}
use mathlib.Core.Logic.{inl, inr}
use native.Mathlib.Omega.{arith}
use callytics.Prelude.Tests.{eqb, leb, if◌then◌else◌, Bool-cases, if-holds}

-- The code points of a text.
abbrev pub codes : String → List ℕ
codes String.[] = []
codes (String.◌∷◌ c s) = code c ∷ codes s

-- `WhiteSpace` and `LineTerminator` of ECMAScript, which `trim` and `\s` read.
pub is_space : ℕ → Bool
is_space c =
    (leb 9 c && leb c 13)
    || eqb c 32
    || eqb c 160
    || eqb c 5760
    || (leb 8192 c && leb c 8202)
    || eqb c 8232
    || eqb c 8233
    || eqb c 8239
    || eqb c 8287
    || eqb c 12288
    || eqb c 65279

pub trim_start : String → String
trim_start String.[] = String.[]
trim_start (String.◌∷◌ c s) = if is_space (code c) then trim_start s else String.◌∷◌ c s

-- A character goes before what is left of the rest, unless it is white space before nothing.
abbrev put_before : Char → String → String
put_before c String.[] = if is_space (code c) then String.[] else String.◌∷◌ c String.[]
put_before c (String.◌∷◌ d s) = String.◌∷◌ c (String.◌∷◌ d s)

pub trim_end : String → String
trim_end String.[] = String.[]
trim_end (String.◌∷◌ c s) = put_before c (trim_end s)

unfoldable pub trim : String → String
unfolding trim_start trim_end is_space
trim s = trim_start (trim_end s)

-- `s.startsWith(p)` with `s.slice(p.length)`.
abbrev pub drop_prefix : String → String → Option String
drop_prefix String.[] s = some s
drop_prefix (String.◌∷◌ c p) String.[] = none
drop_prefix (String.◌∷◌ c p) (String.◌∷◌ d s) =
    if eqb (code c) (code d) then drop_prefix p s else none

abbrev pub is_empty : String → Bool
is_empty String.[] = true
is_empty (String.◌∷◌ c s) = false

abbrev pub is_digit : ℕ → Bool
is_digit c = leb 48 c && leb c 57

-- The value of a row of digits behind `acc`; `none` where another character stands in it.
pub digits_value : ℕ → String → Option ℕ
digits_value acc String.[] = some acc
digits_value acc (String.◌∷◌ c s) =
    let rest = digits_value (acc * 10 + (code c - 48)) s in if is_digit (code c) then rest else none

-- The digit `0` to `9`.
digit_char : ℕ → Char
digit_char n =
    if eqb n 0
    then "0"
    else if eqb n 1
    then "1"
    else if eqb n 2
    then "2"
    else if eqb n 3
    then "3"
    else if eqb n 4
    then "4"
    else if eqb n 5
    then "5"
    else if eqb n 6
    then "6"
    else if eqb n 7
    then "7"
    else if eqb n 8
    then "8"
    else "9"

-- A number has at most as many digits as `n + 1`.
show_from : ℕ → ℕ → String → String
show_from zero n rest = rest
show_from (suc f) n rest =
    let more = show_from f (n / 10) (String.◌∷◌ (digit_char (n % 10)) rest) in
    if eqb (n / 10) 0 then String.◌∷◌ (digit_char (n % 10)) rest else more

-- `String(n)` of a natural number.
unfoldable pub show_ℕ : ℕ → String
unfolding show_from digit_char
show_ℕ n = show_from (suc n) n String.[]

digit_step :
    (a m : ℕ) (rest : String)
    → m < 10
    → digits_value a (String.◌∷◌ (digit_char m) rest) ≡ digits_value (a * 10 + m) rest
unfolding digits_value digit_char
digit_step a zero rest h = refl
digit_step a (suc zero) rest h = refl
digit_step a (suc (suc zero)) rest h = refl
digit_step a (suc (suc (suc zero))) rest h = refl
digit_step a (suc (suc (suc (suc zero)))) rest h = refl
digit_step a (suc (suc (suc (suc (suc zero))))) rest h = refl
digit_step a (suc (suc (suc (suc (suc (suc zero)))))) rest h = refl
digit_step a (suc (suc (suc (suc (suc (suc (suc zero))))))) rest h = refl
digit_step a (suc (suc (suc (suc (suc (suc (suc (suc zero)))))))) rest h = refl
digit_step a (suc (suc (suc (suc (suc (suc (suc (suc (suc zero))))))))) rest h = refl
digit_step a (suc (suc (suc (suc (suc (suc (suc (suc (suc (suc m)))))))))) rest h =
    absurd (omega arith)

digits_value-show_from :
    (f n : ℕ) (rest : String) → n < f → digits_value 0 (show_from f n rest) ≡ digits_value n rest
unfolding show_from
digits_value-show_from zero n rest h = absurd (omega arith)
digits_value-show_from (suc f) n rest h = elim (Bool-cases (eqb (n / 10) 0)) [
  | inl small ↦ rw small (
      digit_step 0 (n % 10) rest (omega arith)
      ∙ ap (λ k. digits_value k rest) (ground (arith, small)))
  | inr large ↦ rw large (
      digits_value-show_from f (n / 10) _ (ground (arith, large))
      ∙ digit_step (n / 10) (n % 10) rest (omega arith)
      ∙ ap (λ k. digits_value k rest) (omega arith))
]

-- The digits that `String(n)` writes have the value n.
pub digits_value-show_ℕ : (n : ℕ) → digits_value 0 (show_ℕ n) ≡ some n
unfolding show_ℕ digits_value
digits_value-show_ℕ n = digits_value-show_from (suc n) n String.[] (omega arith)

abbrev pub all_digits : String → Bool
all_digits String.[] = true
all_digits (String.◌∷◌ c s) = is_digit (code c) && all_digits s

digit_char-is_digit : (m : ℕ) → is_digit (code (digit_char m)) ≡ true
unfolding digit_char
digit_char-is_digit m =
    let Holds = λ (c : Char). is_digit (code c) ≡ true in
    if-holds Holds (eqb m 0) (λ _. refl)
      λ _.
        if-holds Holds (eqb m 1) (λ _. refl)
          λ _.
            if-holds Holds (eqb m 2) (λ _. refl)
              λ _.
                if-holds Holds (eqb m 3) (λ _. refl)
                  λ _.
                    if-holds Holds (eqb m 4) (λ _. refl)
                      λ _.
                        if-holds Holds (eqb m 5) (λ _. refl)
                          λ _.
                            if-holds Holds (eqb m 6) (λ _. refl)
                              λ _.
                                if-holds Holds (eqb m 7) (λ _. refl)
                                  λ _. if-holds Holds (eqb m 8) (λ _. refl) (λ _. refl)

show_from-digits :
    (f n : ℕ) (rest : String) → all_digits rest ≡ true → all_digits (show_from f n rest) ≡ true
unfolding show_from
show_from-digits zero n rest h = h
show_from-digits (suc f) n rest h =
    let next : all_digits (String.◌∷◌ (digit_char (n % 10)) rest) ≡ true =
      rw (digit_char-is_digit (n % 10)) h in
    if-holds (λ s. all_digits s ≡ true) (eqb (n / 10) 0) (λ _. next)
      (λ _. show_from-digits f (n / 10) _ next)

pub show_ℕ-digits : (n : ℕ) → all_digits (show_ℕ n) ≡ true
unfolding show_ℕ
show_ℕ-digits n = show_from-digits (suc n) n String.[] refl

digit-not_space : (c : ℕ) → is_digit c ≡ true → is_space c ≡ false
unfolding is_space
digit-not_space c h = ground arith

trim_start-digits : (s : String) → all_digits s ≡ true → trim_start s ≡ s
unfolding trim_start
trim_start-digits String.[] h = refl
trim_start-digits (String.◌∷◌ c s) h = rw (digit-not_space (code c) (ground arith)) refl

trim_end-digits : (s : String) → all_digits s ≡ true → trim_end s ≡ s
unfolding trim_end
trim_end-digits String.[] h = refl
trim_end-digits (String.◌∷◌ c s) h = rw (trim_end-digits s (ground arith)) (put_back s)
  where
    put_back : (t : String) → put_before c t ≡ String.◌∷◌ c t
    put_back String.[] = rw (digit-not_space (code c) (ground arith)) refl
    put_back (String.◌∷◌ d t) = refl

-- A row of digits has no white space to trim.
pub trim-digits : (s : String) → all_digits s ≡ true → trim s ≡ s
unfolding trim
trim-digits s h = ap trim_start (trim_end-digits s h) ∙ trim_start-digits s h

show_from-not_empty :
    (f n : ℕ) (rest : String) → is_empty rest ≡ false → is_empty (show_from f n rest) ≡ false
unfolding show_from
show_from-not_empty zero n rest h = h
show_from-not_empty (suc f) n rest h =
    if-holds (λ s. is_empty s ≡ false) (eqb (n / 10) 0) (λ _. refl)
      (λ _. show_from-not_empty f (n / 10) _ refl)

pub show_ℕ-not_empty : (n : ℕ) → is_empty (show_ℕ n) ≡ false
unfolding show_ℕ show_from
show_ℕ-not_empty n =
    if-holds (λ s. is_empty s ≡ false) (eqb (n / 10) 0) (λ _. refl)
      (λ _. show_from-not_empty n (n / 10) _ refl)

-- `a + b` of texts, by recursion.
abbrev pub concat : String → String → String
concat String.[] t = t
concat (String.◌∷◌ c s) t = String.◌∷◌ c (concat s t)

pub concat-cancel : (s t u : String) → concat s t ≡ concat s u → t ≡ u
concat-cancel String.[] t u h = h
concat-cancel (String.◌∷◌ c s) t u h = concat-cancel s t u (cc)
