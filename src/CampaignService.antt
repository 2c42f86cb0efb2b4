-- ===== src/CampaignService.antt =====
-- backend/src/campaigns/campaigns.service.ts: the rows of the database that the service of the
-- campaigns keeps, and `normalizePayload`.
pub mod Rows
pub mod Actions
pub mod Contacts
pub mod Commands
pub mod Bounds
pub mod Sound
pub mod Reachable
pub mod Moves
pub mod Changes
pub mod Life
pub mod Due
pub mod Updates
pub mod Marks
pub mod Attempts
pub mod Upload
pub mod Numbers
pub mod Counting
pub mod Keeps
pub mod Counted
mod Tests
use Prim.Native.Char.{code}
use Prim.Native.String
use callytics.Js.{
  Value, undefined, null, Fields, Number, nan, nat, negative, get, text_of, to_string, to_number,
}
use callytics.Prelude.{
  ℕ, zero, suc, ◌+◌, ◌-◌, ◌*◌, ◌/◌, ◌%◌, ◌≤◌, ◌<◌, String, ◌≡◌, refl, sym, ap, ◌∙◌, ◌≢◌, ◌↔◌, ◌⊎◌,
  inl, inr, Bool, true, false, not, ◌&&◌, ◌||◌, Option, none, some, List, [], ◌∷◌, ◌++◌, map, arith,
  ◌==◌, eq_iff, eq_refl, ltb, leb, eqb, if◌then◌else◌, Bool-cases, Option-cases, or_else, is_some,
  if-holds, option-holds, length, find?, filter, any, all, All, length-append, find?-test, In,
  find?-In, find?-none, In-filter, filter-In, All-In, codes, is_space, trim_start, trim_end, trim,
  drop_prefix, is_empty, is_digit, digits_value, show_ℕ, digits_value-show_ℕ, all_digits,
  show_ℕ-digits, trim-digits, show_ℕ-not_empty, concat, concat-cancel,
}

pub data Status : Type 0 where
  draft scheduled running cancelling completed cancelled : Status

-- A row of `campaigns`, less its times of creation and update; times are in milliseconds.
pub record Campaign : Type 0 where
  pub id : ℕ
  pub name : String
  pub status : Status
  pub flow_id : Option ℕ
  pub trunk_id : Option ℕ
  pub caller_id : Option String
  pub default_country : String
  pub scheduled_at : Option ℕ
  pub max_concurrent : ℕ
  pub max_retries : ℕ
  pub retry_interval_minutes : ℕ
  pub total_contacts : ℕ
  pub dialed_count : ℕ
  pub answered_count : ℕ
  pub failed_count : ℕ

pub record Contact : Type 0 where
  pub campaign_id : ℕ
  pub phone_number : String
  pub name : Option String

-- What the service publishes on Redis.
pub data Message : Type 0 where
  campaign_start : ℕ → Message
  campaign_stop : ℕ → Message

-- `next_id` is the sequence of the campaigns' ids, `published` has the newest message first.
pub record Database : Type 0 where
  pub campaigns : List Campaign
  pub contacts : List Contact
  pub next_id : ℕ
  pub publisher_ready : Bool
  pub published : List Message

-- The exceptions, and the errors that the database raises.
pub data Error : Type 0 where
  bad_request : String → Error
  not_found : ℕ → Error
  database_error : Error

pub data Result (A : Type 0) : Type 0 where
  ok : A → Result A
  err : Error → Result A

infixl 10 ◌>>=◌
abbrev pub ◌>>=◌ : {A B : Type 0} → Result A → (A → Result B) → Result B
ok a >>= f = f a
err e >>= f = err e

-- What the service takes from outside: `toUpperCase` of the platform, the database's cast to
-- `timestamptz`, and the rows that the two foreign keys find.
pub record Platform : Type 0 where
  pub to_upper : String → String
  pub timestamptz : String → Option ℕ
  pub call_flow : Number → Option ℕ
  pub sip_trunk : Number → Option ℕ

-- What `normalizePayload` returns; a property that it does not set is `none`.
pub record Payload : Type 0 where
  pub name : Option String
  pub flow_id : Option (Option Number)
  pub trunk_id : Option (Option Number)
  pub caller_id : Option (Option String)
  pub default_country : Option String
  pub scheduled_at : Option Value
  pub max_concurrent : Option ℕ
  pub max_retries : Option ℕ
  pub retry_interval_minutes : Option ℕ

abbrev pub is_undefined : Value → Bool
is_undefined undefined = true
is_undefined _ = false

abbrev pub is_null : Value → Bool
is_null null = true
is_null _ = false

abbrev pub is_nullish : Value → Bool
is_nullish v = is_undefined v || is_null v

unfoldable pub name_field : Bool → Value → Result (Option String)
unfolding text_of
name_field partial v =
    let name = trim (text_of v) in
    if partial && is_undefined v
    then ok none
    else if is_empty name
    then err (bad_request "name is required")
    else ok (some name)

-- `payload.flowId` and `payload.trunkId`
unfoldable pub id_field : Value → Option (Option Number)
id_field v = if is_undefined v then none else some (if is_null v then none else some (to_number v))

unfoldable pub caller_field : Value → Option (Option String)
caller_field v =
    let caller_id = trim (to_string v) in
    if is_undefined v
    then none
    else some (if is_null v || is_empty caller_id then none else some caller_id)

-- `/^[A-Z]{2}$/`
unfoldable pub is_country : String → Bool
is_country s = elim (codes s) [
  | a ∷ b ∷ [] ↦ leb 65 a && leb a 90 && leb 65 b && leb b 90
  | _ ↦ false
]

unfoldable pub country_field : Platform → Bool → Value → Result (Option String)
country_field platform partial v =
    let value = platform.to_upper (trim (if is_nullish v then "US" else to_string v)) in
    if partial && is_undefined v
    then ok none
    else if is_country value
    then ok (some value)
    else err (bad_request "defaultCountry must be a 2-letter ISO country code")

-- `Number.isFinite(value) && value >= low && value <= high`, with `none` for no upper end.
unfoldable pub in_range : ℕ → Option ℕ → Number → Option ℕ
in_range low high nan = none
in_range low none (nat n) = if ltb n low then none else some n
in_range low (some high) (nat n) = if ltb n low || ltb high n then none else some n
in_range low high (negative n) = none

-- `Number(v ?? standard)` where it is in the range; `Math.floor` keeps an integer.
unfoldable pub number_field : Bool → Value → ℕ → ℕ → Option ℕ → String → Result (Option ℕ)
unfolding in_range
number_field partial v standard low high complaint =
    if partial && is_undefined v
    then ok none
    else elim (in_range low high (if is_nullish v then nat standard else to_number v)) [
      | none ↦ err (bad_request complaint)
      | some n ↦ ok (some n)
    ]

unfoldable pub max_concurrent_field : Bool → Fields → Result (Option ℕ)
unfolding number_field
max_concurrent_field partial payload =
    number_field partial (get payload "maxConcurrent") 3 1 (some 10)
      "maxConcurrent must be between 1 and 10"

unfoldable pub max_retries_field : Bool → Fields → Result (Option ℕ)
unfolding number_field
max_retries_field partial payload =
    number_field partial (get payload "maxRetries") 2 0 (some 5)
      "maxRetries must be between 0 and 5"

unfoldable pub retry_interval_field : Bool → Fields → Result (Option ℕ)
unfolding number_field
retry_interval_field partial payload =
    number_field partial (get payload "retryIntervalMinutes") 30 5 none
      "retryIntervalMinutes must be >= 5"

unfoldable pub normalize_payload : Platform → Fields → Bool → Result Payload
unfolding name_field country_field max_concurrent_field max_retries_field retry_interval_field
normalize_payload platform payload partial = do
  name ← name_field partial (get payload "name")
  country ← country_field platform partial (get payload "defaultCountry")
  concurrent ← max_concurrent_field partial payload
  retries ← max_retries_field partial payload
  interval ← retry_interval_field partial payload
  ok (record {
    name = name;
    flow_id = id_field (get payload "flowId");
    trunk_id = id_field (get payload "trunkId");
    caller_id = caller_field (get payload "callerId");
    default_country = country;
    scheduled_at =
        if is_undefined (get payload "scheduledAt") then none else some (get payload "scheduledAt");
    max_concurrent = concurrent;
    max_retries = retries;
    retry_interval_minutes = interval;
  })
