-- ===== src/CampaignService/Rows.antt =====
-- backend/src/campaigns/campaigns.service.ts: the statements on rows, and the tests of a status.
-- messages that change their status.
use callytics.Js.{Value, undefined, null, Number, to_string}
use callytics.CampaignService.{
  Status, draft, scheduled, running, cancelling, completed, cancelled, Campaign, Message, Database,
  bad_request, not_found, database_error, Result, ok, err,
}
use callytics.Prelude.{
  ℕ, ◌*◌, ◌/◌, String, Bool, true, false, not, ◌&&◌, Option, none, some, List, ◌∷◌, map, leb, eqb,
  if◌then◌else◌, is_some, find?,
}

abbrev pub guard : Bool → String → Result Bool
guard b complaint = if b then ok true else err (bad_request complaint)

unfoldable pub find_row : ℕ → List Campaign → Option Campaign
find_row id rows = find? (λ c. eqb c.id id) rows

-- `UPDATE campaigns SET … WHERE id = $1`
unfoldable pub update_rows : ℕ → (Campaign → Campaign) → List Campaign → List Campaign
update_rows id f rows = map (λ c. if eqb c.id id then f c else c) rows

unfoldable pub get_by_id : ℕ → Database → Result Campaign
unfolding find_row
get_by_id id db = elim (find_row id db.campaigns) [ none ↦ err (not_found id) | some c ↦ ok c ]

unfoldable pub set_status : Status → ℕ → Database → Database
set_status status id db = record db {
  campaigns = update_rows id (λ c. record c { status = status }) db.campaigns;
}

unfoldable pub publish : Message → Database → Database
publish m db = if db.publisher_ready then record db { published = m ∷ db.published } else db

abbrev falsy_id : Option ℕ → Bool
falsy_id none = true
falsy_id (some n) = eqb n 0

-- A date that goes through `String` and `new Date` loses its milliseconds.
abbrev pub whole_seconds : ℕ → ℕ
whole_seconds t = t / 1000 * 1000

unfoldable pub validate_scheduling_requirements : ℕ → Bool → Campaign → Option String
validate_scheduling_requirements now require_future c =
    if falsy_id c.flow_id
    then some "flow_id is required before scheduling"
    else if falsy_id c.trunk_id
    then some "trunk_id is required before scheduling"
    else elim c.scheduled_at [
      | none ↦ some "scheduled_at is required before scheduling"
      | some at ↦
          if require_future && leb (whole_seconds at) now
          then some "scheduled time must be in the future"
          else if eqb c.total_contacts 0
          then some "contacts are required before scheduling"
          else none
    ]

abbrev pub is_draft : Status → Bool
is_draft draft = true
is_draft _ = false

abbrev pub is_editable : Status → Bool
is_editable draft = true
is_editable scheduled = true
is_editable _ = false

abbrev pub is_removable : Status → Bool
is_removable draft = true
is_removable cancelled = true
is_removable completed = true
is_removable _ = false

abbrev pub is_stoppable : Status → Bool
is_stoppable running = true
is_stoppable scheduled = true
is_stoppable cancelling = true
is_stoppable _ = false

abbrev pub is_cancelling : Status → Bool
is_cancelling cancelling = true
is_cancelling _ = false

abbrev pub is_scheduled : Status → Bool
is_scheduled scheduled = true
is_scheduled _ = false

-- A campaign that has all it needs is scheduled without being asked.
unfoldable pub try_auto_schedule : ℕ → Campaign → Campaign
unfolding validate_scheduling_requirements
try_auto_schedule now c =
    if is_draft c.status && not (is_some (validate_scheduling_requirements now true c))
    then record c { status = scheduled }
    else c

-- A column that is NOT NULL, an INTEGER, and a foreign key.
abbrev pub not_null : {A : Type 0} → Option A → Result A
not_null none = err database_error
not_null (some a) = ok a

abbrev pub integer : ℕ → Result ℕ
integer n = if leb n 2147483647 then ok n else err database_error

abbrev pub reference : (Number → Option ℕ) → Option Number → Result (Option ℕ)
reference look none = ok none
reference look (some n) = elim (look n) [ none ↦ err database_error | some k ↦ ok (some k) ]

abbrev pub timestamp : (String → Option ℕ) → Value → Result (Option ℕ)
timestamp cast undefined = ok none
timestamp cast null = ok none
timestamp cast v = elim (cast (to_string v)) [ none ↦ err database_error | some t ↦ ok (some t) ]

abbrev pub changed : {A B : Type 0} → Option A → B → (A → Result B) → Result B
changed none old f = ok old
changed (some a) old f = f a

abbrev pub or_null : {A : Type 0} → Option (Option A) → Option A
or_null none = none
or_null (some o) = o

abbrev pub put_row : Campaign → Database → Database
put_row c db = record db { campaigns = update_rows c.id (λ _. c) db.campaigns }
