-- ===== src/CampaignService/Keeps.antt =====
-- backend/src/campaigns/campaigns.service.ts: a row that is new or changed keeps its id and total.
use callytics.CampaignService.Bounds.{Holds-next}
use callytics.CampaignService.{Campaign, Result, ok, err, Platform, Payload}
use callytics.CampaignService.Rows.{
  try_auto_schedule, not_null, integer, reference, timestamp, changed, or_null, is_draft,
  validate_scheduling_requirements,
}
use callytics.CampaignService.Actions.{new_row, changed_row}
use callytics.CampaignService.Bounds.{Holds}
use callytics.CampaignService.{Contact}
use callytics.CampaignService.Bounds.{Holds-next}
use callytics.CampaignService.Counting.{count, CampaignFits}
use callytics.Prelude.{
  ℕ, ◌<◌, ◌≡◌, refl, sym, ap, ◌∙◌, true, not, ◌&&◌, none, List, is_some, if-holds,
}

-- A row that is new or changed keeps its id and its total.
abbrev pub Keeps : ℕ → ℕ → Campaign → Type 0
Keeps id total c = (c.id ≡ id) × (c.total_contacts ≡ total)

pub try_auto_schedule-Keeps :
    (now id total : ℕ) (c : Campaign) → Keeps id total c → Keeps id total (try_auto_schedule now c)
unfolding try_auto_schedule
try_auto_schedule-Keeps now id total c k =
    if-holds (Keeps id total)
      (is_draft c.status && not (is_some (validate_scheduling_requirements now true c))) (λ _. k)
      (λ _. k)

pub Keeps-Fits :
    (next id total : ℕ) (ks : List Contact) (c : Campaign)
    → Keeps id total c
    → id < next
    → total ≡ count id ks
    → CampaignFits next ks c
Keeps-Fits next id total ks c (same, sum) low e =
    (rw same low, sum ∙ e ∙ ap (λ i. count i ks) (sym same))

module _ (platform : Platform) where
  pub new_row-Keeps : (id : ℕ) (p : Payload) → Holds (Keeps id 0) (new_row platform id p)
  unfolding new_row
  new_row-Keeps id p =
      let Q = Keeps id 0 in
      Holds-next Q (not_null p.name) _ λ n _.
        Holds-next Q (reference platform.call_flow (or_null p.flow_id)) _ λ f _.
          Holds-next Q (reference platform.sip_trunk (or_null p.trunk_id)) _ λ t _.
            Holds-next Q (not_null p.default_country) _ λ c _.
              Holds-next Q (changed p.scheduled_at none (timestamp platform.timestamptz)) _ λ at _.
                Holds-next Q (not_null p.max_concurrent) _ λ mc _.
                  Holds-next Q (not_null p.max_retries) _ λ mr _.
                    Holds-next Q (not_null p.retry_interval_minutes) _
                      λ i _. Holds-next Q (integer i) _ λ k _. (refl, refl)

  pub new_row-id : (id : ℕ) (p : Payload) → Holds (λ c. c.id ≡ id) (new_row platform id p)
  new_row-id id p = weaken (new_row platform id p) (new_row-Keeps id p)
    where
      weaken : (m : Result Campaign) → Holds (Keeps id 0) m → Holds (λ c. c.id ≡ id) m
      weaken (ok c) k = k.0
      weaken (err e) k = tt

  pub changed_row-Keeps :
      (p : Payload) (c : Campaign) → Holds (Keeps c.id c.total_contacts) (changed_row platform p c)
  unfolding changed_row
  changed_row-Keeps p c =
      let Q = Keeps c.id c.total_contacts in
      Holds-next Q (changed p.flow_id c.flow_id (reference platform.call_flow)) _ λ f _.
        Holds-next Q (changed p.trunk_id c.trunk_id (reference platform.sip_trunk)) _ λ t _.
          Holds-next Q (changed p.scheduled_at c.scheduled_at (timestamp platform.timestamptz)) _
            λ at _.
              Holds-next Q (changed p.retry_interval_minutes c.retry_interval_minutes integer) _
                λ k _. (refl, refl)
