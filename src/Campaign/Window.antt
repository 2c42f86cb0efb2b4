-- ===== src/Campaign/Window.antt =====
-- How many calls the loops of `fillWindow` (stasis/src/campaign-executor.ts) hold open, and where the
-- contacts of a campaign are.
use callytics.Campaign.Loops.{
  Loops, Turn, enters_loop, dials, leaves_loop, dialled_call, dial_refused, call_ends, flow_runs,
  timer_fires, stops, Runs, stays, goes_on, accounted, begin,
}
use callytics.Campaign.Counts.{
  length-insert, length-insert_same, length-middle, next_contact-some, settled, end_call-counts,
}
use callytics.Session.{lookup}
use callytics.Campaign.{
  CampaignContact, ActiveCall, CampaignRuntime, CampaignRecord, start_campaign, dial_contact,
  retry_fires, stop_campaign, mark_flow_ran,
}
use callytics.Prelude.{
  ℕ, suc, ◌+◌, ◌≤◌, ◌<◌, ◌≡◌, refl, ap, ◌∙◌, Bool, true, false, not, Option, none, some, List, [],
  ◌∷◌, arith, eqb, if◌then◌else◌, if-holds, option-holds, length, length-append,
}

pub record IsSound (k max contacts : ℕ) (s : Loops) : Type 0 where
  pub fixed : s.runtime.campaign.max_concurrent ≡ max
  pub loops : s.testing + length s.dialled ≤ k
  pub window : length s.runtime.active_by_channel + length s.dialled + 1 ≤ max + k
  pub whole : accounted s ≡ contacts

registered-lookup :
    (b : Bool) (o : Option ActiveCall) (call : ActiveCall)
    → (if b then o else none) ≡ some call
    → o ≡ some call
registered-lookup true o call e = e
registered-lookup false o call e = absurd (cc)

Turn-IsSound :
    (k max contacts : ℕ) (s t : Loops)
    → Turn k s t
    → IsSound k max contacts s
    → IsSound k max contacts t
unfolding dial_contact retry_fires stop_campaign mark_flow_ran settled
Turn-IsSound k max contacts s t (enters_loop _ room) i = record {
  fixed = i.fixed;
  loops = omega arith;
  window = i.window;
  whole = i.whole;
}
Turn-IsSound k max contacts s t (dials _ n c r e next) i =
    let (rest, queue, state, low) = next_contact-some s.runtime r c next in
    record {
      fixed = ap (λ y. y.campaign.max_concurrent) state ∙ i.fixed;
      loops = ground (arith, i.loops);
      window = rw state (ground (arith, low, i.fixed, i.loops, e));
      whole = rw state (ground (arith, i.whole, ap length queue));
    }
Turn-IsSound k max contacts s t (leaves_loop _ n e next) i = record {
  fixed = i.fixed;
  loops = ground (arith, e, i.loops);
  window = i.window;
  whole = i.whole;
}
Turn-IsSound k max contacts s t (dialled_call _ before after c id e fresh) i =
    let shorter = length-middle c before after s.dialled e in
    let longer =
      length-insert id (record { contact = c; attempt_number = suc c.attempts; flow_ran = false })
        s.runtime.active_by_channel fresh in
    record {
      fixed = i.fixed;
      loops = ground (arith, i.loops, shorter);
      window = ground (arith, i.window, shorter, longer);
      whole = ground (arith, i.whole, shorter, longer);
    }
Turn-IsSound k max contacts s t (dial_refused _ before after c e) i =
    let shorter = length-middle c before after s.dialled e in
    record {
      fixed = i.fixed;
      loops = ground (arith, i.loops, shorter);
      window = ground (arith, i.window, shorter);
      whole = ground (arith, i.whole, shorter);
    }
Turn-IsSound k max contacts s t (call_ends _ id cause_text r e) i =
    let (counted, campaign, queue, fewer) = end_call-counts id cause_text s.runtime r e in
    record {
      fixed = ap (λ y. y.max_concurrent) campaign ∙ i.fixed;
      loops = i.loops;
      window = ground (arith, i.window, fewer);
      whole = rw queue (ground (arith, i.whole, counted, fewer));
    }
Turn-IsSound k max contacts s t (flow_runs _ id) i =
    option-holds (λ y. IsSound k max contacts (record s { runtime = y }))
      (if s.runtime.registered then lookup id s.runtime.active_by_channel else none) (λ _. i)
      (λ call e.
        let same =
          length-insert_same id (record call { flow_ran = true }) call s.runtime.active_by_channel
            (registered-lookup s.runtime.registered _ call e) in
        record {
          fixed = i.fixed;
          loops = i.loops;
          window = rw same (i.window);
          whole = rw same (i.whole);
        })
Turn-IsSound k max contacts s t (timer_fires _ before after c e) i =
    let shorter = length-middle c before after s.runtime.timers e in
    let longer = length-append s.runtime.queue (c ∷ []) in
    record {
      fixed = i.fixed;
      loops = i.loops;
      window = i.window;
      whole = ground (arith, i.whole, shorter, longer);
    }
Turn-IsSound k max contacts s t (stops _) i =
    let Sound = λ (y : CampaignRuntime). IsSound k max contacts (record s { runtime = y }) in
    if-holds Sound (not s.runtime.registered) (λ _. i)
      λ _.
        if-holds Sound (eqb (length s.runtime.active_by_channel) 0)
          (λ _. record { fixed = i.fixed; loops = i.loops; window = i.window; whole = i.whole })
          (λ _. record { fixed = i.fixed; loops = i.loops; window = i.window; whole = i.whole })

Runs-IsSound :
    (k max contacts : ℕ) (s t : Loops)
    → Runs k s t
    → IsSound k max contacts s
    → IsSound k max contacts t
Runs-IsSound k max contacts s t (stays _) i = i
Runs-IsSound k max contacts s t (goes_on _ u _ before turn) i =
    Turn-IsSound k max contacts u t turn (Runs-IsSound k max contacts s u before i)

-- Whatever events come in whatever order: while at most k loops of `fillWindow` run at the same
-- time, k being at least 1, fewer calls than the campaign's limit plus k are open or being dialled
-- (with one loop, no more than the limit); and the contacts that are queued, being dialled, in a
-- call or waiting for their retry, and the counts of those answered and failed, add up to the number
-- of contacts that were read.
pub campaign-IsSound :
    (k : ℕ) (campaign : CampaignRecord) (contacts : List CampaignContact) (t : Loops)
    → 1 ≤ k
    → Runs k (begin campaign contacts) t
    → (length t.runtime.active_by_channel + length t.dialled < campaign.max_concurrent + k)
      × (accounted t ≡ length contacts)
unfolding start_campaign
campaign-IsSound k campaign contacts t some_loop runs =
    let i =
      Runs-IsSound k campaign.max_concurrent (length contacts) (begin campaign contacts) t runs
        (record { fixed = refl; loops = omega arith; window = omega arith; whole = omega arith }) in
    (ground (arith, i.window), i.whole)
