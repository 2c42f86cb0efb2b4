-- ===== src/CampaignService/Reachable.antt =====
-- What holds of every database that the commands of
-- backend/src/campaigns/campaigns.service.ts can reach: the limits of the campaigns.
use callytics.CampaignService.{campaign_stop}
use callytics.CampaignService.{completed}
use callytics.CampaignService.Contacts.{parse_csv}
use callytics.CampaignService.{running}
use callytics.CampaignService.{cancelling}
use callytics.CampaignService.{scheduled}
use callytics.CampaignService.Contacts.{has}
use callytics.CampaignService.{cancelled}
use callytics.CampaignService.Bounds.{Holds-next}
use callytics.Js.{Fields}
use callytics.CampaignService.{
  Status, Campaign, Database, Result, ok, err, Platform, normalize_payload,
}
use callytics.CampaignService.Rows.{
  guard, find_row, get_by_id, set_status, publish, is_editable, is_removable, is_draft,
  is_stoppable, is_scheduled, is_cancelling, validate_scheduling_requirements,
}
use callytics.CampaignService.Actions.{
  new_row, create, changed_row, update, remove, schedule, stop, cancelling_fallback, start_one,
  stats_update, campaign_completed, campaign_cancelled,
}
use callytics.CampaignService.Contacts.{save_upload, upload_contacts}
use callytics.CampaignService.Commands.{
  body_payload, Command, create_campaign, update_campaign, remove_campaign, upload_file,
  schedule_campaign, stop_campaign, fallback_fires, start_row, stats_message, completed_message,
  cancelled_message, or_same, first_or_same, empty, run_command, run_commands,
}
use callytics.CampaignService.Bounds.{Holds, Holds-step, IsNormal, normalize_payload-IsNormal}
use callytics.Prelude.{
  ℕ, String, true, false, Option, List, [], ◌∷◌, if◌then◌else◌, if-holds, option-holds, All,
}
use callytics.CampaignService.Bounds.{Holds-next}
use callytics.CampaignService.Sound.{
  InBounds, new_row-InBounds, changed_row-InBounds, try_auto_schedule-InBounds, update_rows-All,
  filter-All, find_row-All,
}

pub or_same-Holds :
    (P : Database → Type 0) (db : Database) (m : Result Database)
    → P db
    → Holds P m
    → P (or_same db m)
or_same-Holds P db (ok d) p h = h
or_same-Holds P db (err e) p h = p

pub first_or_same-Holds :
    {A : Type 0} (P : Database → Type 0) (db : Database) (m : Result (Database × A))
    → P db
    → Holds (λ r. P (r.0)) m
    → P (first_or_same db m)
first_or_same-Holds P db (ok (d, a)) p h = h
first_or_same-Holds P db (err e) p h = p

-- Every campaign of a database is within its limits.
abbrev pub AllInBounds : Database → Type 0
AllInBounds db = All InBounds db.campaigns

get_by_id-InBounds : (id : ℕ) (db : Database) → AllInBounds db → Holds InBounds (get_by_id id db)
unfolding get_by_id
get_by_id-InBounds id db a =
    option-holds (Holds InBounds) (find_row id db.campaigns) (λ _. tt)
      (λ c e. find_row-All InBounds id db.campaigns a e)

set_status-InBounds :
    (status : Status) (id : ℕ) (db : Database)
    → AllInBounds db
    → AllInBounds (set_status status id db)
unfolding set_status
set_status-InBounds status id db a = update_rows-All InBounds id _ db.campaigns (λ c b. b) a

module _ (platform : Platform) (normalize : String → String → Option String) where
  create-InBounds :
      (now : ℕ) (payload : Fields) (db : Database)
      → AllInBounds db
      → Holds (λ r. AllInBounds (r.0)) (create platform now payload db)
  unfolding create
  create-InBounds now payload db a =
      let Q = λ (r : Database × Campaign). AllInBounds (r.0) in
      Holds-step Q (IsNormal false) (normalize_payload platform payload false) _
        (normalize_payload-IsNormal platform payload false)
        λ p _ n.
          Holds-step Q InBounds (new_row platform db.next_id p) _
            (new_row-InBounds platform db.next_id p n)
            λ row _ b. (try_auto_schedule-InBounds now row b, a)

  update-InBounds :
      (now id : ℕ) (payload : Fields) (db : Database)
      → AllInBounds db
      → Holds (λ r. AllInBounds (r.0)) (update platform now id payload db)
  unfolding update
  update-InBounds now id payload db a =
      let Q = λ (r : Database × Campaign). AllInBounds (r.0) in
      Holds-step Q InBounds (get_by_id id db) _ (get_by_id-InBounds id db a) λ c _ b.
        Holds-next Q (guard (is_editable c.status) _) _ λ _ _.
          Holds-step Q (IsNormal true) (normalize_payload platform payload true) _
            (normalize_payload-IsNormal platform payload true)
            λ p _ n.
              Holds-step Q InBounds (changed_row platform p c) _
                (changed_row-InBounds platform p c n b)
                λ row _ r.
                  update_rows-All InBounds _ _ db.campaigns
                    (λ _ _. try_auto_schedule-InBounds now row r) a

  upload_contacts-InBounds :
      (id : ℕ) (input : String) (db : Database)
      → AllInBounds db
      → Holds (λ r. AllInBounds (r.0)) (upload_contacts platform normalize id input db)
  unfolding upload_contacts save_upload
  upload_contacts-InBounds id input db a =
      Holds-next (λ r. AllInBounds (r.0)) (get_by_id id db) _
        λ c _.
          Holds-next (λ r. AllInBounds (r.0)) (guard (has "phone_number" ((parse_csv input).0)) _) _
            λ _ _. update_rows-All InBounds id _ db.campaigns (λ row b. b) a

  remove-InBounds : (id : ℕ) (db : Database) → AllInBounds db → Holds AllInBounds (remove id db)
  unfolding remove
  remove-InBounds id db a = Holds-next AllInBounds (get_by_id id db) _ λ c _.
      Holds-next AllInBounds (guard (is_removable c.status) _) _
        λ _ _. filter-All InBounds _ db.campaigns a

  schedule-InBounds :
      (now id : ℕ) (db : Database) → AllInBounds db → Holds AllInBounds (schedule now id db)
  unfolding schedule
  schedule-InBounds now id db a = Holds-next AllInBounds (get_by_id id db) _ λ c _.
      Holds-next AllInBounds (guard (is_draft c.status) _) _ λ _ _.
        option-holds (Holds AllInBounds) (validate_scheduling_requirements now true c)
          (λ _. set_status-InBounds scheduled id db a) (λ _ _. tt)

  stop-InBounds : (id : ℕ) (db : Database) → AllInBounds db → Holds AllInBounds (stop id db)
  unfolding stop publish
  stop-InBounds id db a = Holds-next AllInBounds (get_by_id id db) _ λ c _.
      Holds-next AllInBounds (guard (is_stoppable c.status) _) _ λ _ _.
        set_status-InBounds cancelling id (publish (campaign_stop id) db)
          (if-holds AllInBounds db.publisher_ready (λ _. a) (λ _. a))

  run_command-InBounds :
      (c : Command) (db : Database)
      → AllInBounds db
      → AllInBounds (run_command platform normalize c db)
  unfolding run_command cancelling_fallback start_one publish stats_update campaign_completed
      campaign_cancelled
  run_command-InBounds (create_campaign now payload) db a =
      first_or_same-Holds AllInBounds db _ a (create-InBounds now (body_payload payload) db a)
  run_command-InBounds (update_campaign now id payload) db a =
      first_or_same-Holds AllInBounds db _ a (update-InBounds now id (body_payload payload) db a)
  run_command-InBounds (remove_campaign id) db a =
      or_same-Holds AllInBounds db _ a (remove-InBounds id db a)
  run_command-InBounds (upload_file id input) db a =
      first_or_same-Holds AllInBounds db _ a (upload_contacts-InBounds id input db a)
  run_command-InBounds (schedule_campaign now id) db a =
      or_same-Holds AllInBounds db _ a (schedule-InBounds now id db a)
  run_command-InBounds (stop_campaign id) db a =
      or_same-Holds AllInBounds db _ a (stop-InBounds id db a)
  run_command-InBounds (fallback_fires id) db a =
      option-holds AllInBounds (find_row id db.campaigns) (λ _. a)
        λ c _.
          if-holds AllInBounds (is_cancelling c.status) (λ _. set_status-InBounds cancelled id db a)
            (λ _. a)
  run_command-InBounds (start_row id) db a =
      let started =
        update_rows-All InBounds id
          (λ c. if is_scheduled c.status then record c { status = running } else c) db.campaigns
          (λ c b. if-holds InBounds (is_scheduled c.status) (λ _. b) (λ _. b)) a in
      if-holds AllInBounds db.publisher_ready (λ _. started) (λ _. started)
  run_command-InBounds (stats_message id dialed answered failed) db a =
      update_rows-All InBounds id _ db.campaigns (λ c b. b) a
  run_command-InBounds (completed_message id) db a = set_status-InBounds completed id db a
  run_command-InBounds (cancelled_message id) db a = set_status-InBounds cancelled id db a

  run_commands-InBounds_from :
      (cs : List Command) (db : Database)
      → AllInBounds db
      → AllInBounds (run_commands platform normalize cs db)
  unfolding run_commands
  run_commands-InBounds_from [] db a = a
  run_commands-InBounds_from (c ∷ cs) db a =
      run_commands-InBounds_from cs (run_command platform normalize c db)
        (run_command-InBounds c db a)

  -- Whatever commands run, in whatever order and however many of them fail, every campaign has a
  -- name, a country of two capital letters, one to ten calls at once, at most five retries, and at
  -- least five minutes between them, which an INTEGER holds.
  pub run_commands-InBounds :
      (cs : List Command) → AllInBounds (run_commands platform normalize cs empty)
  run_commands-InBounds cs = run_commands-InBounds_from cs empty tt
