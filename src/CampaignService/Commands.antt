-- ===== src/CampaignService/Commands.antt =====
-- backend/src/campaigns/campaigns.controller.ts, and what else calls the service: the scheduler, the
-- timers and the executor's messages. One command runs at a time, and an exception leaves the
-- database as it was.
use callytics.Js.{Value, undefined, null, str, num, neg, Fields, field, end, get}
use callytics.CampaignService.{Database, Result, ok, err, Platform}
use callytics.CampaignService.Actions.{
  create, update, remove, schedule, stop, cancelling_fallback, start_one, stats_update,
  campaign_completed, campaign_cancelled,
}
use callytics.CampaignService.Contacts.{upload_contacts}
use callytics.Prelude.{ℕ, String, true, Option, List, [], ◌∷◌}

-- Requests carry their body. `start_row` is one turn of the loop of `startDueCampaigns`, whose row was due when it was
-- selected.
pub data Command : Type 0 where
  create_campaign : ℕ → Fields → Command
  update_campaign : ℕ → ℕ → Fields → Command
  remove_campaign : ℕ → Command
  upload_file : ℕ → String → Command
  schedule_campaign : ℕ → ℕ → Command
  stop_campaign : ℕ → Command
  fallback_fires : ℕ → Command
  start_row : ℕ → Command
  stats_message : ℕ → ℕ → ℕ → ℕ → Command
  completed_message : ℕ → Command
  cancelled_message : ℕ → Command

-- `typeof v === 'string' ? v : undefined`, and the same of numbers and with null.
abbrev text_only : Value → Value
text_only (str s) = str s
text_only _ = undefined

abbrev number_only : Value → Value
number_only (num n) = num n
number_only (neg n) = neg n
number_only _ = undefined

abbrev text_or_null : Value → Value
text_or_null null = null
text_or_null v = text_only v

abbrev number_or_null : Value → Value
number_or_null null = null
number_or_null v = number_only v

-- The payload that the controller reads from a body.
unfoldable pub body_payload : Fields → Fields
body_payload body = field "name" (text_only (get body "name")) (
    field "flowId" (number_or_null (get body "flowId")) (
      field "trunkId" (number_or_null (get body "trunkId")) (
        field "callerId" (text_or_null (get body "callerId")) (
          field "defaultCountry" (text_only (get body "defaultCountry")) (
            field "scheduledAt" (text_or_null (get body "scheduledAt")) (
              field "maxConcurrent" (number_only (get body "maxConcurrent")) (
                field "maxRetries" (number_only (get body "maxRetries")) (
                  field "retryIntervalMinutes" (number_only (get body "retryIntervalMinutes"))
                    end))))))))

abbrev pub or_same : Database → Result Database → Database
or_same db (ok db') = db'
or_same db (err e) = db

abbrev pub first_or_same : {A : Type 0} → Database → Result (Database × A) → Database
first_or_same db (ok (db', a)) = db'
first_or_same db (err e) = db

abbrev pub empty : Database
empty = record {
  campaigns = [];
  contacts = [];
  next_id = 1;
  publisher_ready = true;
  published = [];
}

module _ (platform : Platform) (normalize : String → String → Option String) where
  unfoldable pub run_command : Command → Database → Database
  run_command (create_campaign now body) db =
      first_or_same db (create platform now (body_payload body) db)
  run_command (update_campaign now id body) db =
      first_or_same db (update platform now id (body_payload body) db)
  run_command (remove_campaign id) db = or_same db (remove id db)
  run_command (upload_file id input) db =
      first_or_same db (upload_contacts platform normalize id input db)
  run_command (schedule_campaign now id) db = or_same db (schedule now id db)
  run_command (stop_campaign id) db = or_same db (stop id db)
  run_command (fallback_fires id) db = cancelling_fallback id db
  run_command (start_row id) db = start_one id db
  run_command (stats_message id dialed answered failed) db =
      stats_update id dialed answered failed db
  run_command (completed_message id) db = campaign_completed id db
  run_command (cancelled_message id) db = campaign_cancelled id db

  unfoldable pub run_commands : List Command → Database → Database
  unfolding run_command
  run_commands [] db = db
  run_commands (c ∷ cs) db = run_commands cs (run_command c db)
