-- ===== src/Js.antt =====
-- The values that a node's configuration (a JSON object) holds, and the conversions of ECMAScript
-- that the code applies to them. Numbers are integers; a text that `Number` reads in another
-- notation than plain decimal (`1e3`, `0x1f`, `2.5`) counts as NaN.
pub mod Numerals
use Prim.Native.Char.{code}
use Prim.Native.String
use callytics.Prelude.{
  ℕ, zero, suc, String, Bool, true, false, not, ◌&&◌, Option, none, some, List, [], ◌∷◌, ◌==◌, eqb,
  if◌then◌else◌, trim, is_empty, digits_value, show_ℕ,
}

mutual
  pub data Value : Type 0 where
    undefined : Value
    null : Value
    bool : Bool → Value
    num : ℕ → Value
    neg : ℕ → Value
    str : String → Value
    arr : Items → Value
    obj : Fields → Value

  pub data Fields : Type 0 where
    end : Fields
    field : String → Value → Fields → Fields

  pub data Items : Type 0 where
    nil : Items
    cons : Value → Items → Items

-- `config.key`
unfoldable pub get : Fields → String → Value
get end k = undefined
get (field j v fs) k = if j == k then v else get fs k

unfoldable pub items : Items → List Value
items nil = []
items (cons v vs) = v ∷ items vs

-- `neg n` is -(n + 1).
pub data Number : Type 0 where
  nan : Number
  nat : ℕ → Number
  negative : ℕ → Number

-- Falsy are undefined, null, false, 0 and the empty text.
unfoldable pub truthy : Value → Bool
truthy undefined = false
truthy null = false
truthy (bool b) = b
truthy (num n) = not (eqb n 0)
truthy (neg n) = true
truthy (str s) = not (is_empty s)
truthy (arr vs) = true
truthy (obj fs) = true

unfoldable pub sign_text : ℕ → String
sign_text n = String.◌++◌ "-" (show_ℕ (suc n))

abbrev pub comma : String → Items → String → String
comma first nil rest = first
comma first (cons v vs) rest = String.◌++◌ first (String.◌++◌ "," rest)

-- `String(v)`
unfoldable mutual
  unfolding sign_text

  pub to_string : Value → String
  to_string undefined = "undefined"
  to_string null = "null"
  to_string (bool true) = "true"
  to_string (bool false) = "false"
  to_string (num n) = show_ℕ n
  to_string (neg n) = sign_text n
  to_string (str s) = s
  to_string (arr vs) = join_items vs
  to_string (obj fs) = "[object Object]"

  pub join_items : Items → String
  join_items nil = String.[]
  join_items (cons undefined vs) = comma String.[] vs (join_items vs)
  join_items (cons null vs) = comma String.[] vs (join_items vs)
  join_items (cons v vs) = comma (to_string v) vs (join_items vs)

-- `String(v || '')`
unfoldable pub text_of : Value → String
unfolding to_string truthy
text_of v = if truthy v then to_string v else String.[]

unsigned : String → Number
unsigned s = elim (digits_value 0 s) [ none ↦ nan | some n ↦ nat n ]

negated : Number → Number
negated nan = nan
negated (nat zero) = nat 0
negated (nat (suc n)) = negative n
negated (negative n) = nan

-- `Number` of a trimmed text.
number_of_text : String → Number
unfolding unsigned negated
number_of_text String.[] = nat 0
number_of_text (String.◌∷◌ c s) =
    if eqb (code c) 45 && not (is_empty s)
    then negated (unsigned s)
    else if eqb (code c) 43 && not (is_empty s)
    then unsigned s
    else unsigned (String.◌∷◌ c s)

-- `Number(v)`
unfoldable pub to_number : Value → Number
unfolding number_of_text to_string trim
to_number undefined = nan
to_number null = nat 0
to_number (bool true) = nat 1
to_number (bool false) = nat 0
to_number (num n) = nat n
to_number (neg n) = negative n
to_number (str s) = number_of_text (trim s)
to_number (arr vs) = number_of_text (trim (join_items vs))
to_number (obj fs) = nan

-- `Number(v) || d`
unfoldable pub number_or : Value → ℕ → Number
unfolding to_number
number_or v d = elim (to_number v) [
  | nan ↦ nat d
  | nat n ↦ if eqb n 0 then nat d else nat n
  | negative n ↦ negative n
]

-- `Number(v || 0)` as an id: `none` unless it is positive.
unfoldable pub positive_id : Value → Option ℕ
unfolding to_number truthy
positive_id v = elim (to_number (if truthy v then v else num 0)) [
  | nan ↦ none
  | nat n ↦ if eqb n 0 then none else some n
  | negative n ↦ none
]
