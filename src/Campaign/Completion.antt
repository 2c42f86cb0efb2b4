-- ===== src/Campaign/Completion.antt =====
-- The end of a campaign, and the window that a single loop of `fillWindow` leaves
-- (stasis/src/campaign-executor.ts).
use callytics.Campaign.{
  campaign_cancelled, should_retry, contact_ended, publish, close_campaign, publish_stats,
  CampaignContact, ActiveCall, CampaignRuntime, DialAnswer, refused, channel, next_contact,
  dial_contact, fill_window, take_call, end_call, count_outcome, determine_outcome, finish_campaign,
  handle_channel_end, Message, campaign_completed, CallOutcome, busy,
}
use callytics.Campaign.Counts.{next_contact-some}
use callytics.Prelude.{
  ℕ, zero, suc, ◌≤◌, String, ◌≡◌, refl, ap, ◌∙◌, inl, Bool, true, false, not, ◌&&◌, Option, none,
  some, List, [], ◌∷◌, arith, ltb, leb, eqb, if◌then◌else◌, if-holds, option-holds, length, In,
}

length-dial :
    (a : DialAnswer) (c : CampaignContact) (r : CampaignRuntime)
    → (dial_contact a c r).queue ≡ r.queue
unfolding dial_contact
length-dial refused c r = refl
length-dial (channel id) c r = refl

length-zero : {A : Type 0} (xs : List A) → length xs ≤ 0 → xs ≡ []
length-zero [] h = refl
length-zero (x ∷ xs) h = absurd (omega arith)

next_contact-empty : (r : CampaignRuntime) → r.queue ≡ [] → next_contact r ≡ none
unfolding next_contact
next_contact-empty r e =
    if-holds (λ (o : Option (CampaignContact × CampaignRuntime)). o ≡ none)
      (not r.stop_requested && ltb (length r.active_by_channel) r.campaign.max_concurrent)
      (λ _. rw e refl) (λ _. refl)

-- With as much fuel as the queue is long, the loop ends where its own test ends it.
pub fill_window-none :
    (fuel : ℕ) (answers : ℕ → DialAnswer) (r : CampaignRuntime)
    → length r.queue ≤ fuel
    → next_contact (fill_window answers fuel r) ≡ none
unfolding fill_window
fill_window-none zero answers r low = next_contact-empty r (length-zero r.queue low)
fill_window-none (suc fuel) answers r low =
    option-holds (λ y. next_contact y ≡ none) (next_contact r) (λ e. e)
      λ (c, t) e.
        let (rest, queue, state, below) = next_contact-some r t c e in
        fill_window-none fuel (λ i. answers (suc i)) (dial_contact (answers 0) c t)
          (ground (
            arith,
            low,
            ap length queue,
            ap (λ y. length y.queue) state,
            ap length (length-dial (answers 0) c t),
          ))

-- The runtime after a last call that was busy.
abbrev busy_state : ActiveCall → CampaignRuntime → CampaignRuntime
busy_state call r = publish_stats (
    publish (contact_ended call.contact.id busy true) (record r {
      active_by_channel = [];
      timers = record call.contact { attempts = call.attempt_number } ∷ r.timers;
    }))

end_call-busy :
    (id cause_text : String) (r : CampaignRuntime) (call : ActiveCall)
    → r.registered ≡ true
    → take_call id r.active_by_channel ≡ some (call, [])
    → determine_outcome call cause_text ≡ busy
    → call.attempt_number ≤ r.campaign.max_retries
    → end_call id cause_text r ≡ some (busy_state call r)
unfolding end_call count_outcome
end_call-busy id cause_text r call reg last outcome allowed =
    let retry : leb call.attempt_number r.campaign.max_retries ≡ true = ground (arith, allowed) in
    ap (λ b. after (if b then take_call id r.active_by_channel else none)) reg
    ∙ ap after last
    ∙ ap (λ o. some (ended call [] o)) outcome
    ∙ ap (λ b. some (publish_stats (publish (contact_ended call.contact.id busy b) (counted b))))
        retry
  where
    ended : ActiveCall → List (String × ActiveCall) → CallOutcome → CampaignRuntime
    ended c left o = publish_stats (
        publish (contact_ended c.contact.id o (should_retry r c o))
          (count_outcome c o (record r { active_by_channel = left })))

    after : Option (ActiveCall × List (String × ActiveCall)) → Option CampaignRuntime
    after none = none
    after (some (c, left)) = some (ended c left (determine_outcome c cause_text))

    counted : Bool → CampaignRuntime
    counted b =
        if b
        then record r {
          active_by_channel = [];
          timers = record call.contact { attempts = call.attempt_number } ∷ r.timers;
        }
        else record r { active_by_channel = []; failed_count = suc r.failed_count }

-- Where the last call of a campaign that was not stopped ends as busy, with its retry allowed and
-- the queue empty, the campaign is published as completed and forgotten, though the retry waits.
pub handle_channel_end-early :
    (answers : ℕ → DialAnswer) (id cause_text : String) (r : CampaignRuntime) (call : ActiveCall)
    → r.registered ≡ true
    → r.stop_requested ≡ false
    → r.queue ≡ []
    → take_call id r.active_by_channel ≡ some (call, [])
    → determine_outcome call cause_text ≡ busy
    → call.attempt_number ≤ r.campaign.max_retries
    → (x : CampaignRuntime) × (handle_channel_end answers id cause_text r ≡ some x)
      × (x.registered ≡ false)
      × (x.timers ≡ record call.contact { attempts = call.attempt_number } ∷ r.timers)
      × In (campaign_completed r.campaign.id) x.published
unfolding handle_channel_end finish_campaign fill_window
handle_channel_end-early answers id cause_text r call reg going empty last outcome allowed = (
  close_campaign (campaign_completed r.campaign.id) (busy_state call r),
  ap onwards (end_call-busy id cause_text r call reg last outcome allowed)
      ∙ ap (λ n. some (finish_campaign (fill_window answers n (busy_state call r))))
          (ap length empty)
      ∙ ap
          (λ (q : List CampaignContact). some (
            if eqb (length q) 0
            then close_campaign (last_message r.stop_requested) (busy_state call r)
            else busy_state call r))
          empty
      ∙ ap (λ b. some (close_campaign (last_message b) (busy_state call r))) going,
  refl,
  refl,
  inl refl,
)
  where
    onwards : Option CampaignRuntime → Option CampaignRuntime
    onwards none = none
    onwards (some e) = some (finish_campaign (fill_window answers (length e.queue) e))

    last_message : Bool → Message
    last_message b =
        if b then campaign_cancelled r.campaign.id else campaign_completed r.campaign.id
