-- ===== src/CampaignService/Tests.antt =====
-- Runs of a campaign from its creation to its start, and of the messages about one contact
-- (backend/src/campaigns/campaigns.service.ts).
use callytics.CampaignService.Contacts.{country_of}
use callytics.CampaignService.Rows.{get_by_id}
use callytics.Js.{Value, Fields, Number, nan, nat, negative, field, str, num}
use callytics.CampaignService.{
  Status, draft, scheduled, running, cancelling, Campaign, Contact, Database, Platform, Message,
  campaign_start, ok,
}
use callytics.CampaignService.Actions.{start_due_campaigns, is_due}
use callytics.CampaignService.Rows.{find_row}
use callytics.CampaignService.Contacts.{upload_contacts}
use callytics.CampaignService.Commands.{
  Command, create_campaign, upload_file, schedule_campaign, start_row, run_command, run_commands,
  empty,
}
use callytics.CampaignService.Reachable.{AllInBounds, run_commands-InBounds}
use callytics.CampaignService.Numbers.{TidyAnswer}
use callytics.CampaignService.Counting.{IsCounted}
use callytics.CampaignService.Counted.{run_commands-IsCounted}
use callytics.CampaignService.Moves.{After, service}
use callytics.CampaignService.Life.{run_command-After}
use callytics.CampaignService.Upload.{IsReport, upload_contacts-IsReport}
use callytics.CampaignService.Due.{start_due_campaigns-done}
use callytics.CampaignService.Updates.{ContactUpdate, Tables, handle_updates}
use callytics.CampaignService.Attempts.{handle_updates-counts}
use callytics.CampaignService.Marks.{attempts_of, recorded_of, how_many, dials, concludes}
use callytics.Prelude.{
  ℕ, ◌+◌, String, ◌≡◌, refl, true, false, Option, none, some, List, [], ◌∷◌, ◌==◌, if◌then◌else◌,
  if-holds, filter, All, In, trim,
}

abbrev row_of : Number → Option ℕ
row_of nan = none
row_of (nat n) = some n
row_of (negative n) = none

abbrev platform : Platform
platform = record {
  to_upper = λ s. s;
  timestamptz = λ s. some 5000000;
  call_flow = row_of;
  sip_trunk = row_of;
}

-- One number is valid.
abbrev normalize : String → String → Option String
normalize raw place = if raw == "555" then some "+1555" else none

normalize-TidyAnswer : (raw place : String) → TidyAnswer (normalize raw place)
unfolding trim
normalize-TidyAnswer raw place = if-holds TidyAnswer (raw == "555") (λ _. (refl, refl)) (λ _. tt)

abbrev payload : Fields
payload = field "name" (str " Spring ") (
    field "flowId" (num 7)
      (field "trunkId" (num 2) (field "scheduledAt" (str "2026-01-01T00:00:00Z") Fields.end)))

-- A campaign is created, gets two contacts of which one is new, is scheduled and starts.
abbrev commands : List Command
commands =
    create_campaign 1000 payload
    ∷ upload_file 1 "phone_number\n555\n1"
    ∷ schedule_campaign 1000 1
    ∷ []

abbrev campaign : Status → ℕ → Campaign
campaign status total = record {
  id = 1;
  name = "Spring";
  status = status;
  flow_id = some 7;
  trunk_id = some 2;
  caller_id = none;
  default_country = "US";
  scheduled_at = some 5000000;
  max_concurrent = 3;
  max_retries = 2;
  retry_interval_minutes = 30;
  total_contacts = total;
  dialed_count = 0;
  answered_count = 0;
  failed_count = 0;
}

abbrev contact : Contact
contact = record { campaign_id = 1; phone_number = "+1555"; name = none }

abbrev database : List Contact → Campaign → Database
database contacts c = record {
  campaigns = c ∷ [];
  contacts = contacts;
  next_id = 2;
  publisher_ready = true;
  published = [];
}

is_planned_with_contact :
    run_commands platform normalize commands empty ≡ database (contact ∷ []) (campaign scheduled 1)
unfolding run_commands callytics.CampaignService.Actions.schedule upload_contacts
    callytics.CampaignService.Actions.create callytics.CampaignService.normalize_payload trim
    callytics.Js.get callytics.CampaignService.is_country callytics.CampaignService.id_field
    callytics.Js.to_number callytics.Csv.add_char callytics.Csv.parse_csv_line
    callytics.Session.lookup callytics.Session.insert callytics.CampaignService.caller_field
    callytics.CampaignService.Commands.body_payload
is_planned_with_contact = refl

run_commands-InBounds_example : AllInBounds (run_commands platform normalize commands empty)
run_commands-InBounds_example = run_commands-InBounds platform normalize commands

run_commands-IsCounted_example : IsCounted (run_commands platform normalize commands empty)
run_commands-IsCounted_example =
    run_commands-IsCounted platform normalize commands normalize-TidyAnswer

run_command-After_example : After service (campaign scheduled 1) (
    find_row 1
      (run_command platform normalize
        (start_row 1)
        (run_commands platform normalize commands empty)).campaigns)
unfolding find_row run_commands callytics.CampaignService.Actions.schedule upload_contacts
    callytics.CampaignService.Actions.create callytics.CampaignService.normalize_payload trim
    callytics.Js.get callytics.CampaignService.is_country callytics.CampaignService.id_field
    callytics.Js.to_number callytics.Csv.add_char callytics.Csv.parse_csv_line
    callytics.Session.lookup callytics.Session.insert callytics.CampaignService.caller_field
    callytics.CampaignService.Commands.body_payload
run_command-After_example =
    run_command-After platform normalize commands (start_row 1) 1 (campaign scheduled 1)
      normalize-TidyAnswer refl

abbrev file : String
file = "phone_number\n555\n5\n555"

upload_contacts-IsReport_example :
    (c : Campaign) × (get_by_id 1 (database [] (campaign draft 0)) ≡ ok c)
    × IsReport normalize 1 (country_of platform c) file (database [] (campaign draft 0)) (
      database (contact ∷ []) (campaign draft 1),
      record {
        imported = 1;
        skipped = 2;
        total = 3;
        skipped_reasons =
            "row 3: cannot parse \"5\" as valid number for US"
            ∷ "row 4: duplicate number in campaign \"+1555\"" ∷ [];
      },
    )
unfolding upload_contacts trim callytics.Csv.add_char callytics.Csv.parse_csv_line
    callytics.Session.lookup callytics.Session.insert
upload_contacts-IsReport_example =
    upload_contacts-IsReport normalize platform 1 file (database [] (campaign draft 0)) _ _ refl

start_due_campaigns-done_example :
    let after = (start_due_campaigns 6000000 (database [] (campaign scheduled 1))).0 in
    All (λ c. is_due 6000000 c ≡ false) after.campaigns
    × All
        (λ r. In (campaign_start r.id) after.published)
        (filter (is_due 6000000) (campaign scheduled 1 ∷ []))
start_due_campaigns-done_example =
    start_due_campaigns-done 6000000 (database [] (campaign scheduled 1)) refl

abbrev message : String → Option String → ContactUpdate
message status outcome = record {
  campaign_id = some 1;
  contact_id = some 9;
  status = status;
  outcome = outcome;
  call_log_id = none;
  call_id = none;
  attempt_number = some 1;
  started_at = none;
  ended_at = none;
  retry_after_minutes = some 30;
}

abbrev tables : Tables
tables = record {
  contacts =
      record {
        id = 9;
        campaign_id = 1;
        phone_number = "+1555";
        status = "pending";
        attempts = 0;
        last_attempt_at = none;
        next_retry_at = none;
      }
      ∷ [];
  attempts = [];
}

-- A call that is busy and retried, and a call that is answered: the executor announces it twice.
abbrev calls : List ContactUpdate
calls =
    message "dialing" none
    ∷ message "pending" (some "busy")
    ∷ message "dialing" none
    ∷ message "dialing" none
    ∷ message "answered" (some "answered")
    ∷ []

handle_updates-counts_example :
    let after = handle_updates 0 (λ _. none) (λ _. true) calls tables in
    (attempts_of 1 9 after.contacts ≡ some (how_many (dials 1 9) calls + 0))
    × (recorded_of 1 9 after.attempts ≡ how_many (concludes 1 9) calls + recorded_of 1 9 [])
handle_updates-counts_example =
    handle_updates-counts 0 (λ _. none) (λ _. true) 1 9 0 calls tables refl refl

three_attempts_for_two_calls :
    let after = handle_updates 0 (λ _. none) (λ _. true) calls tables in
    (attempts_of 1 9 after.contacts ≡ some 3) × (recorded_of 1 9 after.attempts ≡ 1)
unfolding handle_updates trim
three_attempts_for_two_calls = (refl, refl)
