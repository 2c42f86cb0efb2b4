-- ===== src/Csv.antt =====
-- backend/src/campaigns/campaigns.service.ts: `parseCsvLine`, which reads a line of an uploaded list
-- of contacts.
pub mod RoundTrip
mod Tests
use Prim.Native.Char.{Char, code}
use callytics.Prelude.{
  ℕ, zero, suc, ◌+◌, ◌-◌, ◌*◌, ◌/◌, ◌%◌, ◌≤◌, ◌<◌, String, ◌≡◌, refl, sym, ap, ◌∙◌, ◌≢◌, ◌↔◌, ◌⊎◌,
  inl, inr, Bool, true, false, not, ◌&&◌, ◌||◌, Option, none, some, List, [], ◌∷◌, ◌++◌, map, arith,
  ◌==◌, eq_iff, eq_refl, ltb, leb, eqb, if◌then◌else◌, Bool-cases, Option-cases, or_else, is_some,
  if-holds, option-holds, length, find?, filter, any, all, All, length-append, find?-test, In,
  find?-In, find?-none, In-filter, filter-In, All-In, codes, is_space, trim_start, trim_end, trim,
  drop_prefix, is_empty, is_digit, digits_value, show_ℕ, digits_value-show_ℕ, all_digits,
  show_ℕ-digits, trim-digits, show_ℕ-not_empty, concat, concat-cancel,
}

-- `value += char`
unfoldable pub add_char : String → Char → String
add_char String.[] d = String.◌∷◌ d String.[]
add_char (String.◌∷◌ c s) d = String.◌∷◌ c (add_char s d)

abbrev pub quote : Char
quote = "\""

abbrev pub is_quote : Char → Bool
is_quote c = eqb (code c) 34

abbrev pub is_comma : Char → Bool
is_comma c = eqb (code c) 44

-- The loop: whether it is inside of quotes, the value so far, and the characters that are left.
unfoldable pub csv_loop : Bool → String → String → List String
unfolding add_char
csv_loop in_quotes value String.[] = trim value ∷ []
csv_loop in_quotes value (String.◌∷◌ c String.[]) =
    let more = csv_loop in_quotes (add_char value c) String.[] in
    if is_quote c
    then trim value ∷ []
    else if is_comma c && not in_quotes
    then trim value ∷ trim String.[] ∷ []
    else more
csv_loop in_quotes value (String.◌∷◌ c (String.◌∷◌ d s)) =
    let toggled = csv_loop (not in_quotes) value (String.◌∷◌ d s) in
    let escaped = csv_loop in_quotes (add_char value c) s in
    let next = csv_loop in_quotes String.[] (String.◌∷◌ d s) in
    let more = csv_loop in_quotes (add_char value c) (String.◌∷◌ d s) in
    if is_quote c
    then if in_quotes && is_quote d then escaped else toggled
    else if is_comma c && not in_quotes
    then trim value ∷ next
    else more

unfoldable pub parse_csv_line : String → List String
unfolding csv_loop
parse_csv_line line = csv_loop false String.[] line
