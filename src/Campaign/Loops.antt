-- ===== src/Campaign/Loops.antt =====
-- The loops of `fillWindow` (stasis/src/campaign-executor.ts) that run at the same time, and how many
-- calls they may hold open. A retry's timer and the end of a call each start such a loop, and a loop
-- that waits for `dialContact` lets the others run.
use callytics.Session.{lookup}
use callytics.Campaign.{
  CampaignContact, CampaignRuntime, CampaignRecord, refused, channel, start_campaign, next_contact,
  dial_contact, end_call, retry_fires, stop_campaign, mark_flow_ran,
}
use callytics.Prelude.{ℕ, suc, ◌+◌, ◌<◌, String, ◌≡◌, none, some, List, [], ◌∷◌, ◌++◌, length}

-- The runtime, the loops that stand before their test, and the contacts that are being dialled.
pub record Loops : Type 0 where
  pub runtime : CampaignRuntime
  pub testing : ℕ
  pub dialled : List CampaignContact

-- `k` loops run at the same time at most. A new channel's id is no id of a call.
pub data Turn (k : ℕ) : Loops → Loops → Type 0 where
  enters_loop :
      (s : Loops)
      → s.testing + length s.dialled < k
      → Turn k s (record s { testing = suc s.testing })
  dials :
      (s : Loops) (n : ℕ) (contact : CampaignContact) (r : CampaignRuntime)
      → s.testing ≡ suc n
      → next_contact s.runtime ≡ some (contact, r)
      → Turn k s (record { runtime = r; testing = n; dialled = contact ∷ s.dialled })
  leaves_loop :
      (s : Loops) (n : ℕ)
      → s.testing ≡ suc n
      → next_contact s.runtime ≡ none
      → Turn k s (record s { testing = n })
  dialled_call :
      (s : Loops) (before after : List CampaignContact) (contact : CampaignContact) (id : String)
      → s.dialled ≡ before ++ contact ∷ after
      → lookup id s.runtime.active_by_channel ≡ none
      → Turn k s (record {
        runtime = dial_contact (channel id) contact s.runtime;
        testing = suc s.testing;
        dialled = before ++ after;
      })
  dial_refused :
      (s : Loops) (before after : List CampaignContact) (contact : CampaignContact)
      → s.dialled ≡ before ++ contact ∷ after
      → Turn k s (record {
        runtime = dial_contact refused contact s.runtime;
        testing = suc s.testing;
        dialled = before ++ after;
      })
  call_ends :
      (s : Loops) (id cause_text : String) (r : CampaignRuntime)
      → end_call id cause_text s.runtime ≡ some r
      → Turn k s (record s { runtime = r })
  flow_runs :
      (s : Loops) (id : String) → Turn k s (record s { runtime = mark_flow_ran id s.runtime })
  timer_fires :
      (s : Loops) (before after : List CampaignContact) (contact : CampaignContact)
      → s.runtime.timers ≡ before ++ contact ∷ after
      → Turn k s (record s { runtime = retry_fires contact (before ++ after) s.runtime })
  stops : (s : Loops) → Turn k s (record s { runtime = stop_campaign s.runtime })

pub data Runs (k : ℕ) : Loops → Loops → Type 0 where
  stays : (s : Loops) → Runs k s s
  goes_on : (s t u : Loops) → Runs k s t → Turn k t u → Runs k s u

-- Where each contact is: queued, being dialled, in a call, waiting for its retry, or counted.
abbrev pub accounted : Loops → ℕ
accounted s =
    length s.runtime.queue
    + length s.dialled
    + length s.runtime.active_by_channel
    + length s.runtime.timers
    + s.runtime.answered_count
    + s.runtime.failed_count

-- A campaign that has just been read, before its first loop.
abbrev pub begin : CampaignRecord → List CampaignContact → Loops
begin campaign contacts = record {
  runtime = start_campaign campaign contacts;
  testing = 0;
  dialled = [];
}
