-- ===== src/CampaignService/Counted.antt =====
-- The contacts of the campaigns, over all commands of
-- backend/src/campaigns/campaigns.service.ts: their numbers and their count.
use callytics.CampaignService.{completed}
use callytics.CampaignService.{running}
use callytics.CampaignService.{campaign_stop}
use callytics.CampaignService.{cancelled}
use callytics.CampaignService.{cancelling}
use callytics.CampaignService.{scheduled}
use callytics.CampaignService.Contacts.{
  start_upload, import_rows, parse_csv, has, country_of, Report,
}
use callytics.CampaignService.Contacts.{start_upload}
use callytics.CampaignService.Contacts.{parse_csv}
use callytics.CampaignService.Contacts.{has}
use callytics.CampaignService.Counting.{update_rows-split}
use callytics.CampaignService.Contacts.{Report}
use callytics.CampaignService.Bounds.{Holds-next}
use callytics.Js.{Fields}
use callytics.CampaignService.{Status, Campaign, Database, Platform, normalize_payload}
use callytics.CampaignService.Rows.{
  guard, find_row, get_by_id, set_status, publish, try_auto_schedule, is_editable, is_removable,
  is_draft, is_stoppable, is_scheduled, is_cancelling, validate_scheduling_requirements,
}
use callytics.CampaignService.Actions.{
  new_row, create, changed_row, update, remove, schedule, stop, cancelling_fallback, start_one,
  stats_update, campaign_completed, campaign_cancelled,
}
use callytics.CampaignService.Contacts.{save_upload, upload_contacts}
use callytics.CampaignService.Commands.{
  body_payload, Command, create_campaign, update_campaign, remove_campaign, upload_file,
  schedule_campaign, stop_campaign, fallback_fires, start_row, stats_message, completed_message,
  cancelled_message, empty, run_command, run_commands,
}
use callytics.CampaignService.Bounds.{Holds, Holds-step}
use callytics.CampaignService.{Contact}
use callytics.CampaignService.Contacts.{Upload}
use callytics.CampaignService.Bounds.{Holds-next}
use callytics.CampaignService.Reachable.{or_same-Holds, first_or_same-Holds}
use callytics.CampaignService.Numbers.{
  IsTidy, TidyAnswer, IsAdmitted, import_rows-IsAdmitted, start_upload-IsAdmitted,
}
use callytics.CampaignService.Counting.{
  count, ContactFits, CampaignFits, IsCounted, IsUnique-filter, count-fresh, count-remove,
  count-append, get_by_id-Fits, update_rows-IsCounted,
}
use callytics.CampaignService.Keeps.{
  Keeps, try_auto_schedule-Keeps, Keeps-Fits, new_row-Keeps, changed_row-Keeps,
}
use callytics.Prelude.{
  ℕ, suc, ◌<◌, String, ◌≡◌, sym, ap, ◌∙◌, true, false, not, Option, List, [], ◌∷◌, ◌++◌, arith, eqb,
  if◌then◌else◌, if-holds, option-holds, filter, All-weaken, All-append, All-filter,
}

set_status-IsCounted :
    (status : Status) (id : ℕ) (db : Database) → IsCounted db → IsCounted (set_status status id db)
unfolding set_status
set_status-IsCounted status id db k = update_rows-IsCounted id _ db (λ c fits. fits) k

module _ (platform : Platform) (normalize : String → String → Option String) where
  create-IsCounted :
      (now : ℕ) (payload : Fields) (db : Database)
      → IsCounted db
      → Holds (λ r. IsCounted (r.0)) (create platform now payload db)
  unfolding create
  create-IsCounted now payload db (unique, ks, cs) =
      let Q = λ (r : Database × Campaign). IsCounted (r.0) in
      Holds-next Q (normalize_payload platform payload false) _ λ p _.
        Holds-step Q (Keeps db.next_id 0) (new_row platform db.next_id p) _
          (new_row-Keeps platform db.next_id p)
          λ row _ k. (
            unique,
            All-weaken (ContactFits db.next_id) (ContactFits (suc db.next_id)) db.contacts
                (λ x h. (omega (arith, h.0), h.1)) ks,
            (
              Keeps-Fits (suc db.next_id) db.next_id 0 db.contacts (try_auto_schedule now row)
                  (try_auto_schedule-Keeps now db.next_id 0 row k) (omega arith)
                  (sym (count-fresh db.next_id db.contacts ks)),
              All-weaken (CampaignFits db.next_id db.contacts)
                  (CampaignFits (suc db.next_id) db.contacts) db.campaigns
                  (λ x h. (omega (arith, h.0), h.1)) cs,
            ),
          )

  update-IsCounted :
      (now id : ℕ) (payload : Fields) (db : Database)
      → IsCounted db
      → Holds (λ r. IsCounted (r.0)) (update platform now id payload db)
  unfolding update
  update-IsCounted now id payload db k =
      let Q = λ (r : Database × Campaign). IsCounted (r.0) in
      Holds-step Q (λ c. CampaignFits db.next_id db.contacts c × (c.id ≡ id)) (get_by_id id db) _
        (get_by_id-Fits id db k)
        λ c _ f. Holds-next Q (guard (is_editable c.status) _) _ λ _ _.
          Holds-next Q (normalize_payload platform payload true) _ λ p _.
            Holds-step Q (Keeps c.id c.total_contacts) (changed_row platform p c) _
              (changed_row-Keeps platform p c)
              λ row _ r.
                let saved = try_auto_schedule now row in
                update_rows-IsCounted saved.id (λ _. saved) db
                  (λ _ _.
                    Keeps-Fits db.next_id c.id c.total_contacts db.contacts saved
                      (try_auto_schedule-Keeps now c.id c.total_contacts row r) ((f.0).0) ((f.0).1))
                  k

  remove-IsCounted : (id : ℕ) (db : Database) → IsCounted db → Holds IsCounted (remove id db)
  unfolding remove
  remove-IsCounted id db (unique, ks, cs) = Holds-next IsCounted (get_by_id id db) _ λ c _.
      Holds-next IsCounted (guard (is_removable c.status) _) _ λ _ _.
        let kept = filter (λ (k : Contact). not (eqb k.campaign_id id)) db.contacts in
        (
          IsUnique-filter (λ k. not (eqb k.campaign_id id)) db.contacts unique,
          All-weaken _ (ContactFits db.next_id) kept (λ x h. h.0)
              (All-filter (ContactFits db.next_id) (λ k. not (eqb k.campaign_id id)) db.contacts
                ks),
          All-weaken _ (CampaignFits db.next_id kept)
              (filter (λ (row : Campaign). not (eqb row.id id)) db.campaigns)
              (λ row h.
                ((h.0).0, (h.0).1 ∙ sym (count-remove id row.id db.contacts (other row.id (h.1)))))
              (All-filter (CampaignFits db.next_id db.contacts) (λ row. not (eqb row.id id))
                db.campaigns cs),
        )
    where
      other : (n : ℕ) → not (eqb n id) ≡ true → eqb n id ≡ false
      other n h = ground arith

  -- The new contacts of an upload, and the new total.
  save_upload-IsCounted :
      (id : ℕ) (u : Upload) (db : Database)
      → id < db.next_id
      → IsAdmitted id db.contacts u
      → IsCounted db
      → IsCounted (save_upload id u db)
  unfolding save_upload
  save_upload-IsCounted id u db low (admitted, covered, own) (unique, ks, cs) = (
    admitted,
    All-append (ContactFits db.next_id) u.inserted db.contacts
        (All-weaken _ (ContactFits db.next_id) u.inserted (λ k h. (rw (h.0) low, h.1)) own) ks,
    update_rows-split id _ (CampaignFits db.next_id db.contacts)
        (CampaignFits db.next_id (u.inserted ++ db.contacts)) db.campaigns
        (λ c t fits. (fits.0, ap (λ i. count i (u.inserted ++ db.contacts)) (sym (equal c.id t))))
        (λ c f fits. (fits.0, fits.1 ∙ sym (count-append id c.id u.inserted db.contacts f own))) cs,
  )
    where
      equal : (n : ℕ) → eqb n id ≡ true → n ≡ id
      equal n h = ground arith

  upload_contacts-IsCounted :
      (id : ℕ) (input : String) (db : Database)
      → ((raw place : String) → TidyAnswer (normalize raw place))
      → IsCounted db
      → Holds (λ r. IsCounted (r.0)) (upload_contacts platform normalize id input db)
  unfolding upload_contacts
  upload_contacts-IsCounted id input db tidy k =
      let Q = λ (r : Database × Report). IsCounted (r.0) in
      Holds-step Q (λ c. CampaignFits db.next_id db.contacts c × (c.id ≡ id)) (get_by_id id db) _
        (get_by_id-Fits id db k)
        λ c _ f. Holds-next Q (guard (has "phone_number" ((parse_csv input).0)) _) _ λ _ _.
          let started = start_upload id db.contacts in
          let done =
            import_rows normalize id (country_of platform c) ((parse_csv input).1) started in
          save_upload-IsCounted id done db (rw (sym (f.1)) ((f.0).0))
            (import_rows-IsAdmitted normalize id (country_of platform c) db.contacts
              ((parse_csv input).1) started tidy
              (start_upload-IsAdmitted id db.contacts (k.0) (
                All-weaken (ContactFits db.next_id) (λ (x : Contact). IsTidy x.phone_number)
                  db.contacts (λ x h. h.1) (k.1))))
            k

  schedule-IsCounted :
      (now id : ℕ) (db : Database) → IsCounted db → Holds IsCounted (schedule now id db)
  unfolding schedule
  schedule-IsCounted now id db k = Holds-next IsCounted (get_by_id id db) _ λ c _.
      Holds-next IsCounted (guard (is_draft c.status) _) _ λ _ _.
        option-holds (Holds IsCounted) (validate_scheduling_requirements now true c)
          (λ _. set_status-IsCounted scheduled id db k) (λ _ _. tt)

  stop-IsCounted : (id : ℕ) (db : Database) → IsCounted db → Holds IsCounted (stop id db)
  unfolding stop publish
  stop-IsCounted id db k = Holds-next IsCounted (get_by_id id db) _ λ c _.
      Holds-next IsCounted (guard (is_stoppable c.status) _) _ λ _ _.
        set_status-IsCounted cancelling id (publish (campaign_stop id) db)
          (if-holds IsCounted db.publisher_ready (λ _. k) (λ _. k))

  run_command-IsCounted :
      (c : Command) (db : Database)
      → ((raw place : String) → TidyAnswer (normalize raw place))
      → IsCounted db
      → IsCounted (run_command platform normalize c db)
  unfolding run_command cancelling_fallback start_one publish stats_update campaign_completed
      campaign_cancelled
  run_command-IsCounted (create_campaign now payload) db tidy k =
      first_or_same-Holds IsCounted db _ k (create-IsCounted now (body_payload payload) db k)
  run_command-IsCounted (update_campaign now id payload) db tidy k =
      first_or_same-Holds IsCounted db _ k (update-IsCounted now id (body_payload payload) db k)
  run_command-IsCounted (remove_campaign id) db tidy k =
      or_same-Holds IsCounted db _ k (remove-IsCounted id db k)
  run_command-IsCounted (upload_file id input) db tidy k =
      first_or_same-Holds IsCounted db _ k (upload_contacts-IsCounted id input db tidy k)
  run_command-IsCounted (schedule_campaign now id) db tidy k =
      or_same-Holds IsCounted db _ k (schedule-IsCounted now id db k)
  run_command-IsCounted (stop_campaign id) db tidy k =
      or_same-Holds IsCounted db _ k (stop-IsCounted id db k)
  run_command-IsCounted (fallback_fires id) db tidy k =
      option-holds IsCounted (find_row id db.campaigns) (λ _. k)
        λ c _.
          if-holds IsCounted (is_cancelling c.status) (λ _. set_status-IsCounted cancelled id db k)
            (λ _. k)
  run_command-IsCounted (start_row id) db tidy k =
      let started =
        update_rows-IsCounted id
          (λ c. if is_scheduled c.status then record c { status = running } else c) db
          (λ c f.
            if-holds (CampaignFits db.next_id db.contacts) (is_scheduled c.status) (λ _. f)
              (λ _. f))
          k in
      if-holds IsCounted db.publisher_ready (λ _. started) (λ _. started)
  run_command-IsCounted (stats_message id dialed answered failed) db tidy k =
      update_rows-IsCounted id
        (λ c. record c { dialed_count = dialed; answered_count = answered; failed_count = failed })
        db (λ c f. f) k
  run_command-IsCounted (completed_message id) db tidy k = set_status-IsCounted completed id db k
  run_command-IsCounted (cancelled_message id) db tidy k = set_status-IsCounted cancelled id db k

  run_commands-IsCounted_from :
      (cs : List Command) (db : Database)
      → ((raw place : String) → TidyAnswer (normalize raw place))
      → IsCounted db
      → IsCounted (run_commands platform normalize cs db)
  unfolding run_commands
  run_commands-IsCounted_from [] db tidy k = k
  run_commands-IsCounted_from (c ∷ cs) db tidy k =
      run_commands-IsCounted_from cs (run_command platform normalize c db) tidy
        (run_command-IsCounted c db tidy k)

  -- If every number that libphonenumber returns is not empty and has no white space around it, then
  -- after any commands no campaign has a number twice, however often files are uploaded for it, the
  -- total of each campaign is the number of its contacts, and all ids were given out.
  pub run_commands-IsCounted :
      (cs : List Command)
      → ((raw place : String) → TidyAnswer (normalize raw place))
      → IsCounted (run_commands platform normalize cs empty)
  run_commands-IsCounted cs tidy = run_commands-IsCounted_from cs empty tidy (tt, tt, tt)
