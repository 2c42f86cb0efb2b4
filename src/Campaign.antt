-- ===== src/Campaign.antt =====
-- stasis/src/campaign-executor.ts: outbound campaigns. The code between two awaits is a function of
-- the runtime of one campaign; `fill_window` and `handle_channel_end` compose them as they run when
-- no other event comes between.
pub mod Loops
pub mod Counts
pub mod Contacts
pub mod Window
pub mod Completion
mod Tests
use callytics.Session.{lookup, insert}
use callytics.Prelude.{
  ℕ, zero, suc, ◌+◌, ◌-◌, ◌*◌, ◌/◌, ◌%◌, ◌≤◌, ◌<◌, String, ◌≡◌, refl, sym, ap, ◌∙◌, ◌≢◌, ◌↔◌, ◌⊎◌,
  inl, inr, Bool, true, false, not, ◌&&◌, ◌||◌, Option, none, some, List, [], ◌∷◌, ◌++◌, map, arith,
  ◌==◌, eq_iff, eq_refl, ltb, leb, eqb, if◌then◌else◌, Bool-cases, Option-cases, or_else, is_some,
  if-holds, option-holds, length, find?, filter, any, all, All, length-append, find?-test, In,
  find?-In, find?-none, In-filter, filter-In, All-In, codes, is_space, trim_start, trim_end, trim,
  drop_prefix, is_empty, is_digit, digits_value, show_ℕ, digits_value-show_ℕ, all_digits,
  show_ℕ-digits, trim-digits, show_ℕ-not_empty, concat, concat-cancel,
}

-- `attempts` counts the calls that were made before.
pub record CampaignContact : Type 0 where
  pub id : ℕ
  pub phone_number : String
  pub attempts : ℕ

pub record CampaignRecord : Type 0 where
  pub id : ℕ
  pub max_concurrent : ℕ
  pub max_retries : ℕ

pub record ActiveCall : Type 0 where
  pub contact : CampaignContact
  pub attempt_number : ℕ
  pub flow_ran : Bool

pub data CallOutcome : Type 0 where
  answered no_answer busy failed : CallOutcome

pub data Message : Type 0 where
  dialing : ℕ → Message
  dial_failed : ℕ → Message
  contact_ended : ℕ → CallOutcome → Bool → Message
  stats : ℕ → ℕ → ℕ → Message
  campaign_completed : ℕ → Message
  campaign_cancelled : ℕ → Message

-- `timers` holds the contacts whose retry is set by `setTimeout`, `registered` tells whether the
-- executor's map still has the runtime, and `published` has the newest message first.
pub record CampaignRuntime : Type 0 where
  pub campaign : CampaignRecord
  pub queue : List CampaignContact
  pub active_by_channel : List (String × ActiveCall)
  pub stop_requested : Bool
  pub dialed_count : ℕ
  pub answered_count : ℕ
  pub failed_count : ℕ
  pub timers : List CampaignContact
  pub registered : Bool
  pub published : List Message

pub start_campaign : CampaignRecord → List CampaignContact → CampaignRuntime
start_campaign campaign contacts = record {
  campaign = campaign;
  queue = contacts;
  active_by_channel = [];
  stop_requested = false;
  dialed_count = 0;
  answered_count = 0;
  failed_count = 0;
  timers = [];
  registered = true;
  published = [];
}

abbrev pub publish : Message → CampaignRuntime → CampaignRuntime
publish m r = record r { published = m ∷ r.published }

abbrev pub publish_stats : CampaignRuntime → CampaignRuntime
publish_stats r = publish (stats r.dialed_count r.answered_count r.failed_count) r

-- The test of the loop of `fillWindow`, and the contact that it shifts off the queue.
pub next_contact : CampaignRuntime → Option (CampaignContact × CampaignRuntime)
next_contact r =
    if not r.stop_requested && ltb (length r.active_by_channel) r.campaign.max_concurrent
    then elim r.queue [ [] ↦ none | contact ∷ rest ↦ some (contact, record r { queue = rest }) ]
    else none

-- What `dialContact` learns: a number that has no format or a refused call, or the new channel.
pub data DialAnswer : Type 0 where
  refused : DialAnswer
  channel : String → DialAnswer

-- The rest of `dialContact` behind its request.
pub dial_contact : DialAnswer → CampaignContact → CampaignRuntime → CampaignRuntime
dial_contact refused contact r =
    publish (dial_failed contact.id) (record r { failed_count = suc r.failed_count })
dial_contact (channel id) contact r = publish_stats (
    publish (dialing contact.id) (record r {
      dialed_count = suc r.dialed_count;
      active_by_channel =
          insert id
            (record { contact = contact; attempt_number = suc contact.attempts; flow_ran = false })
            r.active_by_channel;
    }))

-- `answers i` is what the i-th request yields.
pub fill_window : (ℕ → DialAnswer) → ℕ → CampaignRuntime → CampaignRuntime
fill_window answers zero r = r
fill_window answers (suc fuel) r = elim (next_contact r) [
  | none ↦ r
  | some (contact, r') ↦
      fill_window (λ i. answers (suc i)) fuel (dial_contact (answers 0) contact r')
]

abbrev pub lower : ℕ → ℕ
lower c = if leb 65 c && leb c 90 then c + 32 else c

starts_with : List ℕ → List ℕ → Bool
starts_with [] s = true
starts_with (c ∷ p) [] = false
starts_with (c ∷ p) (d ∷ s) = eqb c d && starts_with p s

includes : List ℕ → List ℕ → Bool
unfolding starts_with
includes p [] = starts_with p []
includes p (d ∷ s) = starts_with p (d ∷ s) || includes p s

pub determine_outcome : ActiveCall → String → CallOutcome
unfolding includes
determine_outcome call cause_text =
    let cause = map lower (codes cause_text) in
    if call.flow_ran
    then answered
    else if includes (codes "busy") cause
    then busy
    else if includes (codes "no answer") cause
        || includes (codes "no_answer") cause
        || includes (codes "cancel") cause
    then no_answer
    else failed

-- `get` and `delete` of a map.
pub take_call :
    String → List (String × ActiveCall) → Option (ActiveCall × List (String × ActiveCall))
take_call id [] = none
take_call id ((key, call) ∷ calls) =
    let rest = take_call id calls in
    if key == id
    then some (call, calls)
    else elim rest [ none ↦ none | some (found, left) ↦ some (found, (key, call) ∷ left) ]

abbrev pub is_retried : CallOutcome → Bool
is_retried busy = true
is_retried no_answer = true
is_retried _ = false

abbrev pub is_answered : CallOutcome → Bool
is_answered answered = true
is_answered _ = false

abbrev pub should_retry : CampaignRuntime → ActiveCall → CallOutcome → Bool
should_retry r call outcome = is_retried outcome && leb call.attempt_number r.campaign.max_retries

-- The counters and the retry of a call that has ended.
pub count_outcome : ActiveCall → CallOutcome → CampaignRuntime → CampaignRuntime
count_outcome call outcome r =
    if is_answered outcome
    then record r { answered_count = suc r.answered_count }
    else if should_retry r call outcome
    then record r { timers = record call.contact { attempts = call.attempt_number } ∷ r.timers }
    else record r { failed_count = suc r.failed_count }

-- `handleChannelEnd` up to its call of `fillWindow`; `none` where the channel is no call of a
-- registered campaign.
pub end_call : String → String → CampaignRuntime → Option CampaignRuntime
unfolding take_call determine_outcome count_outcome
end_call id cause_text r = elim (if r.registered then take_call id r.active_by_channel else none) [
  | none ↦ none
  | some (call, left) ↦
      let outcome = determine_outcome call cause_text in
      some (
        publish_stats (
          publish (contact_ended call.contact.id outcome (should_retry r call outcome))
            (count_outcome call outcome (record r { active_by_channel = left }))))
]

abbrev pub close_campaign : Message → CampaignRuntime → CampaignRuntime
close_campaign message r = record (publish message r) { registered = false }

-- The end of `handleChannelEnd`: a campaign without calls and without a queue is over.
pub finish_campaign : CampaignRuntime → CampaignRuntime
finish_campaign r =
    if eqb (length r.active_by_channel) 0 && eqb (length r.queue) 0
    then close_campaign
        (if r.stop_requested
          then campaign_cancelled r.campaign.id
          else campaign_completed r.campaign.id)
        r
    else r

pub handle_channel_end :
    (ℕ → DialAnswer) → String → String → CampaignRuntime → Option CampaignRuntime
unfolding end_call fill_window finish_campaign
handle_channel_end answers id cause_text r = elim (end_call id cause_text r) [
  | none ↦ none
  | some ended ↦ some (finish_campaign (fill_window answers (length ended.queue) ended))
]

-- The callback of a retry's `setTimeout`, before its call of `fillWindow`.
pub retry_fires : CampaignContact → List CampaignContact → CampaignRuntime → CampaignRuntime
retry_fires contact left r = record r { timers = left; queue = r.queue ++ contact ∷ [] }

pub stop_campaign : CampaignRuntime → CampaignRuntime
stop_campaign r =
    let stopped = record r { stop_requested = true } in
    if not r.registered
    then r
    else if eqb (length r.active_by_channel) 0
    then close_campaign (campaign_cancelled r.campaign.id) stopped
    else stopped

-- `handleStasisStart` marks the call before it runs the flow.
pub mark_flow_ran : String → CampaignRuntime → CampaignRuntime
mark_flow_ran id r = elim (if r.registered then lookup id r.active_by_channel else none) [
  | none ↦ r
  | some call ↦ record r {
    active_by_channel = insert id (record call { flow_ran = true }) r.active_by_channel;
  }
]
