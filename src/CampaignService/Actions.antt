-- ===== src/CampaignService/Actions.antt =====
-- backend/src/campaigns/campaigns.service.ts: the operations on campaigns, the timers and the
-- messages that change their status.
use callytics.Js.{Fields}
use callytics.Flow.Load.{order_by}
use callytics.CampaignService.{
  draft, scheduled, running, cancelling, completed, cancelled, Campaign, campaign_start,
  campaign_stop, Database, bad_request, Result, ok, err, ◌>>=◌, Platform, Payload,
  normalize_payload,
}
use callytics.CampaignService.Rows.{
  guard, find_row, update_rows, get_by_id, set_status, publish, validate_scheduling_requirements,
  is_draft, is_editable, is_removable, is_stoppable, is_cancelling, is_scheduled, try_auto_schedule,
  not_null, integer, reference, timestamp, changed, or_null, put_row,
}
use callytics.Prelude.{
  ℕ, suc, Bool, true, false, not, ◌&&◌, none, some, List, [], ◌∷◌, map, leb, eqb, if◌then◌else◌,
  filter,
}

module _ (platform : Platform) where
  -- The row that `create` inserts.
  unfoldable pub new_row : ℕ → Payload → Result Campaign
  new_row id p = do
    name ← not_null p.name
    flow ← reference platform.call_flow (or_null p.flow_id)
    trunk ← reference platform.sip_trunk (or_null p.trunk_id)
    country ← not_null p.default_country
    at ← changed p.scheduled_at none (timestamp platform.timestamptz)
    concurrent ← not_null p.max_concurrent
    retries ← not_null p.max_retries
    interval ← not_null p.retry_interval_minutes
    interval ← integer interval
    ok (record {
      id = id;
      name = name;
      status = draft;
      flow_id = flow;
      trunk_id = trunk;
      caller_id = or_null p.caller_id;
      default_country = country;
      scheduled_at = at;
      max_concurrent = concurrent;
      max_retries = retries;
      retry_interval_minutes = interval;
      total_contacts = 0;
      dialed_count = 0;
      answered_count = 0;
      failed_count = 0;
    })

  unfoldable pub create : ℕ → Fields → Database → Result (Database × Campaign)
  unfolding new_row try_auto_schedule
  create now payload db = do
    p ← normalize_payload platform payload false
    row ← new_row db.next_id p
    let saved = try_auto_schedule now row
    ok (record db { campaigns = saved ∷ db.campaigns; next_id = suc db.next_id }, saved)

  -- The row after `UPDATE campaigns SET` with the properties that are there.
  unfoldable pub changed_row : Payload → Campaign → Result Campaign
  changed_row p c = do
    flow ← changed p.flow_id c.flow_id (reference platform.call_flow)
    trunk ← changed p.trunk_id c.trunk_id (reference platform.sip_trunk)
    at ← changed p.scheduled_at c.scheduled_at (timestamp platform.timestamptz)
    interval ← changed p.retry_interval_minutes c.retry_interval_minutes integer
    ok (record c {
      name = elim p.name [ none ↦ c.name | some n ↦ n ];
      flow_id = flow;
      trunk_id = trunk;
      caller_id = elim p.caller_id [ none ↦ c.caller_id | some o ↦ o ];
      default_country = elim p.default_country [ none ↦ c.default_country | some s ↦ s ];
      scheduled_at = at;
      max_concurrent = elim p.max_concurrent [ none ↦ c.max_concurrent | some n ↦ n ];
      max_retries = elim p.max_retries [ none ↦ c.max_retries | some n ↦ n ];
      retry_interval_minutes = interval;
    })

  unfoldable pub update : ℕ → ℕ → Fields → Database → Result (Database × Campaign)
  unfolding changed_row try_auto_schedule get_by_id
  update now id payload db = do
    c ← get_by_id id db
    _ ← guard (is_editable c.status) "Campaign can only be edited in draft or scheduled state"
    p ← normalize_payload platform payload true
    row ← changed_row p c
    let saved = try_auto_schedule now row
    ok (put_row saved db, saved)

-- The rows that refer to a deleted campaign go with it.
unfoldable pub remove : ℕ → Database → Result Database
unfolding get_by_id
remove id db = do
  c ← get_by_id id db
  _ ←
      guard (is_removable c.status)
        "Campaign can only be deleted in draft, cancelled, or completed state"
  ok (record db {
    campaigns = filter (λ row. not (eqb row.id id)) db.campaigns;
    contacts = filter (λ row. not (eqb row.campaign_id id)) db.contacts;
  })

unfoldable pub schedule : ℕ → ℕ → Database → Result Database
unfolding get_by_id set_status
schedule now id db = do
  c ← get_by_id id db
  _ ← guard (is_draft c.status) "Only draft campaigns can be scheduled"
  elim (validate_scheduling_requirements now true c) [
    | some complaint ↦ err (bad_request complaint)
    | none ↦ ok (set_status scheduled id db)
  ]

unfoldable pub stop : ℕ → Database → Result Database
unfolding get_by_id set_status publish
stop id db = do
  c ← get_by_id id db
  _ ← guard (is_stoppable c.status) "Only running or scheduled campaigns can be stopped"
  ok (set_status cancelling id (publish (campaign_stop id) db))

-- Thirty seconds after `stop`.
unfoldable pub cancelling_fallback : ℕ → Database → Database
unfolding find_row set_status
cancelling_fallback id db = elim (find_row id db.campaigns) [
  | none ↦ db
  | some c ↦ if is_cancelling c.status then set_status cancelled id db else db
]

-- The campaigns that `startDueCampaigns` selects, the earliest first.
abbrev pub start_time : Campaign → ℕ
start_time c = elim c.scheduled_at [ none ↦ 0 | some at ↦ at ]

abbrev pub is_due : ℕ → Campaign → Bool
is_due now c = is_scheduled c.status && elim c.scheduled_at [ none ↦ false | some at ↦ leb at now ]

unfoldable pub due_rows : ℕ → Database → List Campaign
due_rows now db = order_by start_time (filter (is_due now) db.campaigns)

-- One turn of its loop: the update is guarded, the message is not.
unfoldable pub start_one : ℕ → Database → Database
unfolding update_rows publish
start_one id db = publish (campaign_start id) (record db {
  campaigns =
      update_rows id (λ c. if is_scheduled c.status then record c { status = running } else c)
        db.campaigns;
})

unfoldable pub start_all : List Campaign → Database → Database
unfolding start_one
start_all [] db = db
start_all (c ∷ rows) db = start_all rows (start_one c.id db)

unfoldable pub start_due_campaigns : ℕ → Database → Database × List ℕ
unfolding start_all due_rows
start_due_campaigns now db = let due = due_rows now db in (start_all due db, map (λ c. c.id) due)

-- The messages of the executor.
unfoldable pub stats_update : ℕ → ℕ → ℕ → ℕ → Database → Database
unfolding update_rows
stats_update id dialed answered failed db = record db {
  campaigns =
      update_rows id
        (λ c. record c { dialed_count = dialed; answered_count = answered; failed_count = failed })
        db.campaigns;
}

unfoldable pub campaign_completed : ℕ → Database → Database
unfolding set_status
campaign_completed id db = set_status completed id db

unfoldable pub campaign_cancelled : ℕ → Database → Database
unfolding set_status
campaign_cancelled id db = set_status cancelled id db
