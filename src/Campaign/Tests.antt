-- ===== src/Campaign/Tests.antt =====
-- Runs of a campaign with a limit of one call and one retry (stasis/src/campaign-executor.ts).
use callytics.Campaign.{
  CampaignContact, CampaignRecord, CampaignRuntime, ActiveCall, DialAnswer, refused, channel,
  start_campaign, next_contact, fill_window, end_call, handle_channel_end, campaign_completed,
}
use callytics.Campaign.Loops.{Loops, Runs, stays, goes_on, enters_loop, dials, begin, accounted}
use callytics.Campaign.Contacts.{places, times, campaign-places}
use callytics.Campaign.Window.{campaign-IsSound}
use callytics.Campaign.Completion.{fill_window-none, handle_channel_end-early}
use callytics.Prelude.{
  ℕ, zero, suc, ◌+◌, ◌<◌, ◌≡◌, refl, false, none, some, List, [], ◌∷◌, arith, length, In,
}

abbrev contact : ℕ → CampaignContact
contact n = record { id = n; phone_number = "0771234567"; attempts = 0 }

abbrev campaign : CampaignRecord
campaign = record { id = 5; max_concurrent = 1; max_retries = 1 }

abbrev contacts : List CampaignContact
contacts = contact 1 ∷ contact 2 ∷ []

abbrev fresh_channels : ℕ → DialAnswer
fresh_channels zero = channel "c0"
fresh_channels (suc i) = channel "c1"

abbrev first_dialled : Loops
first_dialled = record {
  runtime = record (start_campaign campaign contacts) { queue = contact 2 ∷ [] };
  testing = 1;
  dialled = contact 1 ∷ [];
}

abbrev both_dialled : Loops
both_dialled = record {
  runtime = record (start_campaign campaign contacts) { queue = [] };
  testing = 0;
  dialled = contact 2 ∷ contact 1 ∷ [];
}

-- Two loops that both test before the first call is set hold two calls, though the limit is one.
two_loops : Runs 2 (begin campaign contacts) both_dialled
unfolding next_contact start_campaign
two_loops =
    let s0 = begin campaign contacts in
    let s1 = record s0 { testing = 1 } in
    let s2 = record s0 { testing = 2 } in
    goes_on s0 first_dialled both_dialled
      (goes_on s0 s2 first_dialled
        (goes_on s0 s1 s2 (goes_on s0 s0 s1 (stays s0) (enters_loop s0 (omega arith)))
          (enters_loop s1 (omega arith)))
        (dials s2 1 (contact 1) first_dialled.runtime refl refl))
      (dials first_dialled 0 (contact 2) both_dialled.runtime refl refl)

campaign-IsSound_example :
    (length both_dialled.runtime.active_by_channel + length both_dialled.dialled
      < campaign.max_concurrent + 2)
    × (accounted both_dialled ≡ length contacts)
campaign-IsSound_example = campaign-IsSound 2 campaign contacts both_dialled (omega arith) two_loops

campaign-places_example : places 2 both_dialled ≡ times 2 contacts
campaign-places_example = campaign-places 2 campaign contacts both_dialled 2 two_loops

fill_window-none_example :
    next_contact (fill_window fresh_channels 2 (start_campaign campaign contacts)) ≡ none
unfolding start_campaign
fill_window-none_example =
    fill_window-none 2 fresh_channels (start_campaign campaign contacts) (omega arith)

abbrev call : ActiveCall
call = record { contact = contact 1; attempt_number = 1; flow_ran = false }

abbrev last_call : CampaignRuntime
last_call = record (start_campaign campaign []) {
  active_by_channel = ("c0", call) ∷ [];
  dialed_count = 1;
}

handle_channel_end-early_example :
    (x : CampaignRuntime) × (handle_channel_end fresh_channels "c0" "User Busy" last_call ≡ some x)
    × (x.registered ≡ false)
    × (x.timers ≡ record (contact 1) { attempts = 1 } ∷ [])
    × In (campaign_completed 5) x.published
unfolding start_campaign callytics.Campaign.take_call callytics.Campaign.determine_outcome
handle_channel_end-early_example =
    handle_channel_end-early fresh_channels "c0" "User Busy" last_call call refl refl refl refl refl
      (omega arith)
