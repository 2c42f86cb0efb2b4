-- ===== src/Hunt/Numbers.antt =====
-- stasis/src/lib/formatDialNumber.ts, and `resolveHuntDialString` of
-- stasis/src/nodes/hunt.executor.ts.
use Prim.Native.Char.{code}
use callytics.Js.{Number, nan, nat, negative, to_string, num, neg}
use callytics.Hunt.{Destination, extension, pstn}
use callytics.Prelude.{
  ℕ, zero, suc, ◌+◌, ◌-◌, ◌*◌, String, Bool, true, false, ◌&&◌, Option, none, some, ltb, leb, eqb,
  if◌then◌else◌, or_else, all, codes, trim, drop_prefix, is_empty, is_digit, concat,
}

-- `raw.replace(/\D/g, '')`
unfoldable pub only_digits : String → String
only_digits String.[] = String.[]
only_digits (String.◌∷◌ c s) =
    if is_digit (code c) then String.◌∷◌ c (only_digits s) else only_digits s

abbrev size : String → ℕ
size String.[] = 0
size (String.◌∷◌ c s) = suc (size s)

-- `pattern.replace('{number}', digits)` replaces the first place only.
unfoldable pub fill : String → String → String
fill digits String.[] = String.[]
fill digits (String.◌∷◌ c s) = elim (drop_prefix "{number}" (String.◌∷◌ c s)) [
  | some rest ↦ concat digits rest
  | none ↦ String.◌∷◌ c (fill digits s)
]

unfoldable pub format_dial_number : String → String → Option String
unfolding only_digits fill
format_dial_number raw dial_format =
    let digits = only_digits raw in
    if ltb (size digits) 9 then none else some (fill digits dial_format)

-- `/^\+?[0-9]{4,20}$/`
unfoldable pub is_pstn_target : String → Bool
is_pstn_target s =
    let digits : String = elim (drop_prefix "+" s) [ none ↦ s | some rest ↦ rest ] in
    all (codes digits) is_digit && leb 4 (size digits) && leb (size digits) 20

-- `parseInt(s, 10)` of a trimmed text.
leading_digits : Option ℕ → String → Option ℕ
leading_digits o String.[] = o
leading_digits o (String.◌∷◌ c s) =
    if is_digit (code c)
    then leading_digits (some (elim o [ none ↦ 0 | some n ↦ n ] * 10 + (code c - 48))) s
    else o

minus : ℕ → Number
minus zero = nat 0
minus (suc n) = negative n

unfoldable pub parse_int : String → Number
unfolding leading_digits minus
parse_int s = elim (drop_prefix "-" s) [
  | some rest ↦ elim (leading_digits none rest) [ none ↦ nan | some n ↦ minus n ]
  | none ↦ elim (leading_digits none (elim (drop_prefix "+" s) [ none ↦ s | some rest ↦ rest ])) [
    | none ↦ nan
    | some n ↦ nat n
  ]
]

pub record ContactNumber : Type 0 where
  pub number : String
  pub trunk_id : Option Number

-- What the resolution asks: the backend for the format of a trunk and for contacts by number and by
-- id, and libphonenumber for the E.164 form of a number, if it has one.
pub record Directory : Type 0 where
  pub trunk_dial_format : Number → String
  pub contact_by_phone : String → Option ContactNumber
  pub contact_by_id : Number → Option ContactNumber
  pub e164 : String → Option String

-- A trunk's id counts unless it is missing, 0 or NaN.
unfoldable pub real_trunk : Option Number → Option Number
real_trunk none = none
real_trunk (some nan) = none
real_trunk (some (nat n)) = if eqb n 0 then none else some (nat n)
real_trunk (some (negative n)) = some (negative n)

unfoldable pub number_text : Number → String
number_text nan = "NaN"
number_text (nat n) = to_string (num n)
number_text (negative n) = to_string (neg n)

abbrev is_nan : Number → Bool
is_nan nan = true
is_nan _ = false

module _ (directory : Directory) where
  -- What `normalizeDialNumber` makes of a number.
  unfoldable pub normalize_dial_number : String → String
  normalize_dial_number raw = elim (directory.e164 (trim raw)) [
    | none ↦ trim raw
    | some formatted ↦ formatted
  ]

  -- `PJSIP/${formatted}@trunk-${id}`, or `none` where the number cannot be formatted.
  unfoldable pub trunk_endpoint : Number → String → Option String
  unfolding format_dial_number normalize_dial_number number_text
  trunk_endpoint trunk number =
      elim (format_dial_number (normalize_dial_number number) (directory.trunk_dial_format trunk)) [
        | none ↦ none
        | some formatted ↦
            if is_empty formatted
            then none
            else some (concat "PJSIP/" (concat formatted (concat "@trunk-" (number_text trunk))))
      ]

  abbrev through : Option Number → String → Option String
  through trunk number = elim (real_trunk trunk) [
    | none ↦ none
    | some id ↦ trunk_endpoint id number
  ]

  by_contact : Option ContactNumber → Option String
  unfolding trunk_endpoint real_trunk
  by_contact none = none
  by_contact (some c) = through c.trunk_id c.number

  -- The dial string of a destination; the empty text where it has none. A number is tried on its own
  -- trunk, then as a contact's number, then as a contact's id.
  unfoldable pub resolve_hunt_dial_string : Destination → String
  unfolding by_contact is_pstn_target parse_int trunk_endpoint real_trunk
  resolve_hunt_dial_string d = elim d.target_type [
    | extension ↦ concat "PJSIP/" d.target_value
    | pstn ↦
        let own =
          if is_pstn_target d.target_value then through d.trunk_id d.target_value else none in
        let known =
          if is_pstn_target d.target_value
          then by_contact (directory.contact_by_phone d.target_value)
          else none in
        let id = parse_int d.target_value in
        let legacy = if is_nan id then none else by_contact (directory.contact_by_id id) in
        elim (or_else own (or_else known legacy)) [ none ↦ String.[] | some text ↦ text ]
  ]
