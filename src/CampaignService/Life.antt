-- ===== src/CampaignService/Life.antt =====
-- The life of a campaign: what the commands of backend/src/campaigns/campaigns.service.ts do to its
-- status.
use callytics.CampaignService.{not_found}
use callytics.CampaignService.{completed}
use callytics.CampaignService.{running}
use callytics.CampaignService.{cancelled}
use callytics.CampaignService.Contacts.{parse_csv, has, Report}
use callytics.CampaignService.Contacts.{parse_csv}
use callytics.CampaignService.Contacts.{has}
use callytics.CampaignService.Contacts.{Report}
use callytics.CampaignService.Bounds.{Holds-next}
use callytics.Js.{Fields}
use callytics.CampaignService.{
  Campaign, Database, Result, ok, err, Platform, Payload, normalize_payload,
}
use callytics.CampaignService.Rows.{
  guard, find_row, update_rows, get_by_id, set_status, publish, try_auto_schedule, integer,
  reference, timestamp, changed, is_editable, is_draft, is_scheduled, is_cancelling,
  validate_scheduling_requirements,
}
use callytics.CampaignService.Actions.{
  new_row, create, changed_row, update, cancelling_fallback, start_one, stats_update,
  campaign_completed, campaign_cancelled,
}
use callytics.CampaignService.Contacts.{save_upload, upload_contacts}
use callytics.CampaignService.Commands.{
  body_payload, Command, create_campaign, update_campaign, remove_campaign, upload_file,
  schedule_campaign, stop_campaign, fallback_fires, start_row, stats_message, completed_message,
  cancelled_message, empty, run_command, run_commands,
}
use callytics.CampaignService.Bounds.{Holds, Holds-step}
use callytics.CampaignService.{Contact}
use callytics.CampaignService.Bounds.{Holds-next}
use callytics.CampaignService.Reachable.{or_same-Holds, first_or_same-Holds}
use callytics.CampaignService.Numbers.{TidyAnswer}
use callytics.CampaignService.Counting.{CampaignFits}
use mathlib.Core.Path.{subst}
use callytics.CampaignService.Counted.{run_commands-IsCounted}
use callytics.CampaignService.Numbers.{TidyAnswer}
use callytics.CampaignService.{running, completed, cancelled}
use callytics.CampaignService.Moves.{
  Move, stays, is_reported_completed, is_reported_cancelled, After, draft-Move, cancelling-Move,
  scheduled-Move, find_row-update, found-id,
}
use callytics.CampaignService.Contacts.{has, parse_csv, Report}
use callytics.CampaignService.Keeps.{new_row-id}
use callytics.CampaignService.Bounds.{and-left}
use callytics.CampaignService.Moves.{Source, service, executor}
use callytics.CampaignService.Counting.{CampaignFits}
use callytics.CampaignService.Sound.{find_row-All}
use callytics.CampaignService.Changes.{
  same_row, set_status-After, schedule-After, stop-After, remove-After, put_row-After,
}
use callytics.Prelude.{
  ℕ, ◌<◌, String, ◌≡◌, refl, sym, ◌∙◌, true, false, not, ◌&&◌, Option, none, some, List, arith, eqb,
  if◌then◌else◌, is_some, if-holds, All, eqb-same,
}

-- Every command but the executor's messages is the service's own.
abbrev pub source_of : Command → Source
source_of (stats_message id dialed answered failed) = executor
source_of (completed_message id) = executor
source_of (cancelled_message id) = executor
source_of _ = service

try_auto_schedule-Move :
    (now : ℕ) (row : Campaign)
    → ((try_auto_schedule now row).id ≡ row.id)
      × Move service row.status (try_auto_schedule now row).status
unfolding try_auto_schedule
try_auto_schedule-Move now row =
    if-holds (λ (c : Campaign). (c.id ≡ row.id) × Move service row.status c.status)
      (is_draft row.status && not (is_some (validate_scheduling_requirements now true row)))
      (λ t. (refl, draft-Move row.status (and-left _ _ t))) (λ _. (refl, stays))

-- What a command does to the campaign with an id.
module _ (id : ℕ) (c : Campaign) (db : Database) (found : find_row id db.campaigns ≡ some c) where
  module _ (platform : Platform) (normalize : String → String → Option String) where
    changed_row-status :
        (p : Payload) (c0 : Campaign)
        → Holds (λ r. (r.id ≡ c0.id) × (r.status ≡ c0.status)) (changed_row platform p c0)
    unfolding changed_row
    changed_row-status p c0 =
        let Q = λ (r : Campaign). (r.id ≡ c0.id) × (r.status ≡ c0.status) in
        Holds-next Q (changed p.flow_id c0.flow_id (reference platform.call_flow)) _ λ f _.
          Holds-next Q (changed p.trunk_id c0.trunk_id (reference platform.sip_trunk)) _ λ t _.
            Holds-next Q (changed p.scheduled_at c0.scheduled_at (timestamp platform.timestamptz)) _
              λ at _.
                Holds-next Q (changed p.retry_interval_minutes c0.retry_interval_minutes integer) _
                  λ k _. (refl, refl)

    update-After :
        (now key : ℕ) (payload : Fields)
        → Holds
            (λ r. After service c (find_row id (r.0).campaigns))
            (update platform now key payload db)
    unfolding update
    update-After now key payload =
        let Q = λ (r : Database × Campaign). After service c (find_row id (r.0).campaigns) in
        Holds-next Q (get_by_id key db) _ λ c0 e.
          Holds-next Q (guard (is_editable c0.status) _) _ λ _ _.
            Holds-next Q (normalize_payload platform payload true) _ λ p _.
              Holds-step Q (λ r. (r.id ≡ c0.id) × (r.status ≡ c0.status))
                (changed_row platform p c0) _ (changed_row-status p c0)
                λ row _ kept.
                  let saved = try_auto_schedule-Move now row in
                  put_row-After id c db found c0 (try_auto_schedule now row) key e
                    (saved.0 ∙ kept.0)
                    (subst (λ s. Move service s (try_auto_schedule now row).status) (kept.1)
                      (saved.1))

    create-After :
        (now : ℕ) (payload : Fields)
        → id < db.next_id
        → Holds
            (λ r. After service c (find_row id (r.0).campaigns))
            (create platform now payload db)
    unfolding create find_row
    create-After now payload low =
        let Q = λ (r : Database × Campaign). After service c (find_row id (r.0).campaigns) in
        Holds-next Q (normalize_payload platform payload false) _ λ p _.
          Holds-step Q (λ r. r.id ≡ db.next_id) (new_row platform db.next_id p) _
            (new_row-id platform db.next_id p)
            λ row _ own.
              let saved = try_auto_schedule now row in
              if-holds (After service c) (eqb saved.id id)
                (λ t. absurd (
                  omega
                    (arith, eqb-same saved.id id t, (try_auto_schedule-Move now row).0, own, low)))
                (λ _. subst (After service c) (sym found) stays)

    upload_contacts-After :
        (key : ℕ) (input : String)
        → Holds
            (λ r. After service c (find_row id (r.0).campaigns))
            (upload_contacts platform normalize key input db)
    unfolding upload_contacts save_upload
    upload_contacts-After key input =
        let Q = λ (r : Database × Report). After service c (find_row id (r.0).campaigns) in
        Holds-next Q (get_by_id key db) _ λ c0 _.
          Holds-next Q (guard (has "phone_number" ((parse_csv input).0)) _) _ λ _ _.
            find_row-update (After service c) id key _ db.campaigns c found (λ x t. refl)
              (λ _. stays) (λ _. stays)

    abbrev Q : Database → Type 0
    Q d = After service c (find_row id d.campaigns)

    unchanged : Q db
    unchanged = subst (After service c) (sym found) stays

    run_command-After_from :
        (command : Command)
        → id < db.next_id
        → After
            (source_of command)
            c
            (find_row id (run_command platform normalize command db).campaigns)
    unfolding run_command cancelling_fallback start_one publish stats_update campaign_completed
        campaign_cancelled get_by_id
    run_command-After_from (create_campaign now payload) low =
        first_or_same-Holds Q db _ unchanged (create-After now (body_payload payload) low)
    run_command-After_from (update_campaign now key payload) low =
        first_or_same-Holds Q db _ unchanged (update-After now key (body_payload payload))
    run_command-After_from (remove_campaign key) low =
        or_same-Holds Q db _ unchanged (remove-After id c db found key)
    run_command-After_from (upload_file key input) low =
        first_or_same-Holds Q db _ unchanged (upload_contacts-After key input)
    run_command-After_from (schedule_campaign now key) low =
        or_same-Holds Q db _ unchanged (schedule-After id c db found now key)
    run_command-After_from (stop_campaign key) low =
        or_same-Holds Q db _ unchanged (stop-After id c db found key)
    run_command-After_from (fallback_fires key) low = by_row (find_row key db.campaigns) refl
      where
        by_row :
            (o : Option Campaign)
            → find_row key db.campaigns ≡ o
            → Q (elim o [
              | none ↦ db
              | some c0 ↦ if is_cancelling c0.status then set_status cancelled key db else db
            ])
        by_row none e = unchanged
        by_row (some c0) e =
            if-holds Q (is_cancelling c0.status)
              (λ t. set_status-After id c db found service cancelled key λ k.
                cancelling-Move c.status (
                  subst (λ x. is_cancelling x.status ≡ true)
                    (same_row id c db found key c0
                      (subst
                        (λ o.
                          ◌≡◌ {A = Result Campaign}
                            (elim o [ none ↦ err (not_found key) | some x ↦ ok x ]) (ok c0))
                        (sym e) refl)
                      k)
                    t))
              (λ _. unchanged)
    run_command-After_from (start_row key) low =
        let started : Q (record db {
          campaigns =
              update_rows key
                (λ x. if is_scheduled x.status then record x { status = running } else x)
                db.campaigns;
        }) =
          find_row-update (After service c) id key _ db.campaigns c found
            (λ x t.
              if-holds (λ (y : Campaign). y.id ≡ x.id) (is_scheduled x.status) (λ _. refl)
                (λ _. refl))
            (λ _.
              if-holds (λ (y : Campaign). Move service c.status y.status) (is_scheduled c.status)
                (λ t. scheduled-Move c.status t) (λ _. stays))
            (λ _. stays) in
        if-holds Q db.publisher_ready (λ _. started) (λ _. started)
    run_command-After_from (stats_message key dialed answered failed) low =
        find_row-update (After executor c) id key _ db.campaigns c found (λ x t. refl) (λ _. stays)
          (λ _. stays)
    run_command-After_from (completed_message key) low =
        set_status-After id c db found executor completed key (λ _. is_reported_completed)
    run_command-After_from (cancelled_message key) low =
        set_status-After id c db found executor cancelled key (λ _. is_reported_cancelled)

module _ (platform : Platform) (normalize : String → String → Option String) where
  -- If the numbers of libphonenumber are tidy, then from any database that commands have reached, the
  -- next command moves each campaign as the life of a campaign allows: the service plans drafts,
  -- starts what is scheduled, stops what is scheduled or running and gives up what is cancelling,
  -- only the executor reports it completed or cancelled, and only a campaign that is a draft,
  -- completed or cancelled can go.
  pub run_command-After :
      (cs : List Command) (command : Command) (id : ℕ) (c : Campaign)
      → ((raw place : String) → TidyAnswer (normalize raw place))
      → find_row id (run_commands platform normalize cs empty).campaigns ≡ some c
      → let db = run_commands platform normalize cs empty in
        After
          (source_of command)
          c
          (find_row id (run_command platform normalize command db).campaigns)
  run_command-After cs command id c tidy found =
      let db = run_commands platform normalize cs empty in
      let (unique, ks, rows) = run_commands-IsCounted platform normalize cs tidy in
      run_command-After_from id c db found platform normalize command
        (given id c db.next_id db.contacts db.campaigns rows found)
    where
      given :
          (id : ℕ) (c : Campaign) (next : ℕ) (ks : List Contact) (rows : List Campaign)
          → All (CampaignFits next ks) rows
          → find_row id rows ≡ some c
          → id < next
      given id c next ks rows fits found =
          let low = find_row-All (CampaignFits next ks) id rows fits found in
          rw (found-id id rows c found) at (low.0)
