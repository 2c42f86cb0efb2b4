-- ===== src/CampaignService/Due.antt =====
-- `startDueCampaigns` of backend/src/campaigns/campaigns.service.ts.
use callytics.CampaignService.{ℕ}
use callytics.CampaignService.{Bool}
use callytics.CampaignService.{List}
use callytics.CampaignService.{Campaign, Database, Message, campaign_start, running}
use callytics.CampaignService.Rows.{publish, is_scheduled}
use callytics.CampaignService.Actions.{
  start_time, is_due, due_rows, start_one, start_all, start_due_campaigns,
}
use callytics.CampaignService.Counting.{update_rows-split}
use callytics.Flow.Ordered.{order_by-In}
use callytics.Prelude.{
  ℕ, ◌≡◌, refl, sym, ap, ◌⊎◌, inl, inr, Bool, true, false, List, [], ◌∷◌, arith, eqb, if◌then◌else◌,
  Bool-cases, if-holds, filter, any, All, In, filter-In, All-In, All-weaken, All-each, eqb-true,
}

abbrev has_id : ℕ → List Campaign → Bool
has_id id rows = any rows (λ r. eqb r.id id)

-- A campaign that is not due, or is still to be started.
abbrev Waits : ℕ → List Campaign → Campaign → Type 0
Waits now rows c = (is_due now c ≡ false) ⊎ (has_id c.id rows ≡ true)

start_one-Waits :
    (now : ℕ) (r : Campaign) (rows : List Campaign) (db : Database)
    → All (Waits now (r ∷ rows)) db.campaigns
    → All (Waits now rows) (start_one r.id db).campaigns
unfolding start_one publish
start_one-Waits now r rows db a =
    let started =
      update_rows-split r.id
        (λ c. if is_scheduled c.status then record c { status = running } else c)
        (Waits now (r ∷ rows)) (Waits now rows) db.campaigns
        (λ c t w.
          if-holds (Waits now rows) (is_scheduled c.status) (λ _. inl refl)
            (λ f. inl (not_scheduled c f)))
        (λ c f w. later c f w) a in
    if-holds (λ (d : Database). All (Waits now rows) d.campaigns) db.publisher_ready (λ _. started)
      (λ _. started)
  where
    not_scheduled : (c : Campaign) → is_scheduled c.status ≡ false → is_due now c ≡ false
    not_scheduled c f = rw f refl

    later : (c : Campaign) → eqb c.id r.id ≡ false → Waits now (r ∷ rows) c → Waits now rows c
    later c f (inl w) = inl w
    later c f (inr w) = inr (ground (arith, f, w))

start_all-Waits :
    (now : ℕ) (rows : List Campaign) (db : Database)
    → All (Waits now rows) db.campaigns
    → All (λ c. is_due now c ≡ false) (start_all rows db).campaigns
unfolding start_all
start_all-Waits now [] db a = All-weaken (Waits now []) (λ c. is_due now c ≡ false) _ last a
  where
    last : (c : Campaign) → Waits now [] c → is_due now c ≡ false
    last c (inl w) = w
    last c (inr w) = cc
start_all-Waits now (r ∷ rows) db a =
    start_all-Waits now rows (start_one r.id db) (start_one-Waits now r rows db a)

has_id-In : (c : Campaign) (rows : List Campaign) → In c rows → has_id c.id rows ≡ true
has_id-In c [] m = absurd m
has_id-In c (r ∷ rows) (inl e) = ground (arith, eqb-true r.id c.id (sym (ap (λ x. x.id) e)))
has_id-In c (r ∷ rows) (inr m) = ground (arith, has_id-In c rows m)

due_rows-Waits : (now : ℕ) (db : Database) → All (Waits now (due_rows now db)) db.campaigns
unfolding due_rows
due_rows-Waits now db = All-each (Waits now (due_rows now db)) db.campaigns λ c m.
    elim (Bool-cases (is_due now c)) [
      | inl t ↦
          inr
            (has_id-In c _ (order_by-In start_time c _ (filter-In (is_due now) db.campaigns c m t)))
      | inr f ↦ inl f
    ]

-- Messages stay published.
start_all-keeps :
    (rows : List Campaign) (db : Database) (m : Message)
    → In m db.published
    → In m (start_all rows db).published
unfolding start_all start_one publish
start_all-keeps [] db m h = h
start_all-keeps (r ∷ rows) db m h =
    start_all-keeps rows (start_one r.id db) m
      (if-holds (λ (d : Database). In m d.published) db.publisher_ready (λ _. inr h) (λ _. h))

start_all-published :
    (rows : List Campaign) (db : Database)
    → db.publisher_ready ≡ true
    → All (λ r. In (campaign_start r.id) (start_all rows db).published) rows
unfolding start_all start_one publish
start_all-published [] db ready = tt
start_all-published (r ∷ rows) db ready = (
  start_all-keeps rows (start_one r.id db) (campaign_start r.id) (
      if-holds (λ (d : Database). In (campaign_start r.id) d.published) db.publisher_ready
        (λ _. inl refl) (λ off. absurd (cc (ready, off)))),
  start_all-published rows (start_one r.id db) (
      if-holds (λ (d : Database). d.publisher_ready ≡ true) db.publisher_ready (λ _. ready)
        (λ _. ready)),
)

-- If Redis is connected, then after a round of the scheduler no campaign is due any more, and the
-- start message of each campaign that was due has been published.
pub start_due_campaigns-done :
    (now : ℕ) (db : Database)
    → db.publisher_ready ≡ true
    → let after = (start_due_campaigns now db).0 in
      All (λ c. is_due now c ≡ false) after.campaigns
      × All (λ r. In (campaign_start r.id) after.published) (filter (is_due now) db.campaigns)
unfolding start_due_campaigns due_rows
start_due_campaigns-done now db ready = (
  start_all-Waits now (due_rows now db) db (due_rows-Waits now db),
  All-each _ (filter (is_due now) db.campaigns) λ c m.
      All-In (λ (r : Campaign). In (campaign_start r.id) (start_all (due_rows now db) db).published)
        (due_rows now db) (start_all-published (due_rows now db) db ready)
        (order_by-In start_time c _ m),
)
