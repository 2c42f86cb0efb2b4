-- ===== src/Js/Numerals.antt =====
-- `Number(String(n))` is n for a natural number.
use Prim.Native.Char.{code}
use callytics.Js.{nat, str, to_number, number_of_text, unsigned}
use callytics.Prelude.{
  ℕ, String, ◌≡◌, refl, ap, ◌∙◌, true, false, some, arith, eqb, is_empty, is_digit, digits_value,
  show_ℕ, digits_value-show_ℕ, all_digits, show_ℕ-digits, trim-digits, show_ℕ-not_empty,
}

number_of_text-digits :
    (s : String) (n : ℕ)
    → all_digits s ≡ true
    → is_empty s ≡ false
    → digits_value 0 s ≡ some n
    → number_of_text s ≡ nat n
unfolding number_of_text
number_of_text-digits String.[] n d e v = cc
number_of_text-digits (String.◌∷◌ c s) n d e v =
    let first : is_digit (code c) ≡ true = ground arith in
    let plain : eqb (code c) 45 ≡ false = ground arith in
    let plus : eqb (code c) 43 ≡ false = ground arith in rw (plain, plus) (rw (v, unsigned) refl)

pub to_number-show_ℕ : (n : ℕ) → to_number (str (show_ℕ n)) ≡ nat n
unfolding to_number
to_number-show_ℕ n =
    ap number_of_text (trim-digits (show_ℕ n) (show_ℕ-digits n))
    ∙ number_of_text-digits (show_ℕ n) n (show_ℕ-digits n) (show_ℕ-not_empty n)
        (digits_value-show_ℕ n)
