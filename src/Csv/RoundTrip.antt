-- ===== src/Csv/RoundTrip.antt =====
-- A line that is written with every value in quotes, and its reading by `parseCsvLine`
-- (backend/src/campaigns/campaigns.service.ts).
use Prim.Native.Char.{Char}
use callytics.Csv.{add_char, quote, is_quote, is_comma, csv_loop, parse_csv_line}
use callytics.Prelude.{
  String, ◌≡◌, refl, sym, ap, ◌∙◌, inl, inr, Bool, true, false, not, ◌&&◌, List, [], ◌∷◌, map,
  arith, if◌then◌else◌, Bool-cases, trim, concat,
}

-- The rest of a value in quotes, with its quotes doubled, and what follows it.
pub quoted : String → String → String
quoted String.[] rest = String.◌∷◌ quote rest
quoted (String.◌∷◌ c s) rest =
    let more = quoted s rest in
    if is_quote c then String.◌∷◌ c (String.◌∷◌ c more) else String.◌∷◌ c more

abbrev comma : Char
comma = ","

pub print_line : String → List String → String
unfolding quoted
print_line value [] = String.◌∷◌ quote (quoted value String.[])
print_line value (next ∷ values) =
    String.◌∷◌ quote (quoted value (String.◌∷◌ comma (print_line next values)))

concat-nil : (s : String) → concat s String.[] ≡ s
concat-nil String.[] = refl
concat-nil (String.◌∷◌ c s) = ap (String.◌∷◌ c) (concat-nil s)

concat-add_char :
    (v : String) (c : Char) (s : String) → concat (add_char v c) s ≡ concat v (String.◌∷◌ c s)
unfolding add_char
concat-add_char String.[] c s = refl
concat-add_char (String.◌∷◌ d v) c s = ap (String.◌∷◌ d) (concat-add_char v c s)

-- A quote outside of quotes starts a value, and a comma there ends one.
opens : (v t : String) → csv_loop false v (String.◌∷◌ quote t) ≡ csv_loop true v t
unfolding csv_loop
opens v String.[] = refl
opens v (String.◌∷◌ d t) = refl

separates :
    (v t : String) → csv_loop false v (String.◌∷◌ comma t) ≡ trim v ∷ csv_loop false String.[] t
unfolding csv_loop
separates v String.[] = refl
separates v (String.◌∷◌ d t) = refl

and_false : (b : Bool) → (b && false) ≡ false
and_false true = refl
and_false false = refl

-- Inside of quotes a quote that is doubled, or any other character, is part of the value.
keeps :
    (v : String) (c : Char) (t : String)
    → is_quote c ≡ false
    → csv_loop true v (String.◌∷◌ c t) ≡ csv_loop true (add_char v c) t
unfolding csv_loop
keeps v c String.[] h = rw (h, and_false (is_comma c)) refl
keeps v c (String.◌∷◌ d t) h = rw (h, and_false (is_comma c)) refl

doubles :
    (v : String) (c : Char) (t : String)
    → is_quote c ≡ true
    → csv_loop true v (String.◌∷◌ c (String.◌∷◌ c t)) ≡ csv_loop true (add_char v c) t
unfolding csv_loop
doubles v c t h = rw h refl

-- What may follow a value: nothing, or a character that is no quote.
abbrev ends_value : String → Bool
ends_value String.[] = true
ends_value (String.◌∷◌ d t) = not (is_quote d)

closes :
    (v rest : String)
    → ends_value rest ≡ true
    → csv_loop true v (String.◌∷◌ quote rest) ≡ csv_loop false v rest
unfolding csv_loop
closes v String.[] h = refl
closes v (String.◌∷◌ d t) h = let other : is_quote d ≡ false = ground (arith, h) in rw other refl

quoted-read :
    (s v rest : String)
    → ends_value rest ≡ true
    → csv_loop true v (quoted s rest) ≡ csv_loop false (concat v s) rest
unfolding quoted
quoted-read String.[] v rest h =
    closes v rest h ∙ ap (λ w. csv_loop false w rest) (sym (concat-nil v))
quoted-read (String.◌∷◌ c s) v rest h =
    let onwards =
      quoted-read s (add_char v c) rest h
      ∙ ap (λ w. csv_loop false w rest) (concat-add_char v c s) in
    elim (Bool-cases (is_quote c)) [
      | inl e ↦ rw e (doubles v c (quoted s rest) e ∙ onwards)
      | inr e ↦ rw e (keeps v c (quoted s rest) e ∙ onwards)
    ]

line-read :
    (value : String) (values : List String)
    → csv_loop false String.[] (print_line value values) ≡ map trim (value ∷ values)
unfolding print_line csv_loop
line-read value [] =
    opens String.[] (quoted value String.[]) ∙ quoted-read value String.[] String.[] refl
line-read value (next ∷ values) =
    opens String.[] (quoted value (String.◌∷◌ comma (print_line next values)))
    ∙ quoted-read value String.[] (String.◌∷◌ comma (print_line next values)) refl
    ∙ separates value (print_line next values)
    ∙ ap (λ r. trim value ∷ r) (line-read next values)

-- A line with every value in quotes, and the quotes inside of a value doubled, is read as its values,
-- trimmed: commas and quotes inside of a value do no harm.
pub parse_csv_line-print_line :
    (value : String) (values : List String)
    → parse_csv_line (print_line value values) ≡ map trim (value ∷ values)
unfolding parse_csv_line
parse_csv_line-print_line value values = line-read value values
