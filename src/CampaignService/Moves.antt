-- ===== src/CampaignService/Moves.antt =====
-- backend/src/campaigns/campaigns.service.ts: the moves of a campaign's status, and the first row
-- with an id.
use callytics.CampaignService.{not_found}
use callytics.CampaignService.{completed}
use callytics.CampaignService.{running}
use callytics.CampaignService.{cancelled}
use callytics.CampaignService.{cancelling}
use callytics.CampaignService.{scheduled}
use callytics.CampaignService.{Status, Campaign, Database, Result, ok, err}
use callytics.CampaignService.Rows.{
  guard, find_row, update_rows, get_by_id, is_removable, is_draft, is_stoppable, is_scheduled,
  is_cancelling,
}
use mathlib.Core.Path.{subst}
use callytics.CampaignService.{draft, scheduled, running, cancelling, completed, cancelled}
use callytics.Prelude.{
  ℕ, String, ◌≡◌, refl, sym, Bool, true, false, not, Option, none, some, List, [], ◌∷◌, arith, eqb,
  if-holds, filter, find?-test, eqb-same,
}

-- Who moves a campaign: the service, or a report of the executor.
pub data Source : Type 0 where
  service executor : Source

-- The moves of a campaign that the service intends; the executor's two reports come at any time.
pub data Move : Source → Status → Status → Type 0 where
  stays : {by : Source} {s : Status} → Move by s s
  is_planned : Move service draft scheduled
  starts : Move service scheduled running
  stops : Move service running cancelling
  is_called_off : Move service scheduled cancelling
  gives_up : Move service cancelling cancelled
  is_reported_completed : {s : Status} → Move executor s completed
  is_reported_cancelled : {s : Status} → Move executor s cancelled

-- A campaign after a command: it has moved, or it is gone, which only a campaign that may be removed
-- can be.
abbrev pub After : Source → Campaign → Option Campaign → Type 0
After by c none = is_removable c.status ≡ true
After by c (some c') = Move by c.status c'.status

pub draft-Move : (s : Status) → is_draft s ≡ true → Move service s scheduled
draft-Move draft h = is_planned
draft-Move scheduled h = cc
draft-Move running h = cc
draft-Move cancelling h = cc
draft-Move completed h = cc
draft-Move cancelled h = cc

pub stoppable-Move : (s : Status) → is_stoppable s ≡ true → Move service s cancelling
stoppable-Move draft h = cc
stoppable-Move scheduled h = is_called_off
stoppable-Move running h = stops
stoppable-Move cancelling h = stays
stoppable-Move completed h = cc
stoppable-Move cancelled h = cc

pub cancelling-Move : (s : Status) → is_cancelling s ≡ true → Move service s cancelled
cancelling-Move draft h = cc
cancelling-Move scheduled h = cc
cancelling-Move running h = cc
cancelling-Move cancelling h = gives_up
cancelling-Move completed h = cc
cancelling-Move cancelled h = cc

pub scheduled-Move : (s : Status) → is_scheduled s ≡ true → Move service s running
scheduled-Move draft h = cc
scheduled-Move scheduled h = starts
scheduled-Move running h = stays
scheduled-Move cancelling h = cc
scheduled-Move completed h = cc
scheduled-Move cancelled h = cc

pub guard-true : (b : Bool) (text : String) {x : Bool} → guard b text ≡ ok x → b ≡ true
guard-true true text h = refl
guard-true false text h = cc

-- The first row with an id, after a change of the rows with some id.
pub find_row-update :
    (P : Option Campaign → Type 0) (id key : ℕ) (f : Campaign → Campaign) (rows : List Campaign)
    (c : Campaign)
    → find_row id rows ≡ some c
    → ((x : Campaign) → eqb x.id key ≡ true → (f x).id ≡ x.id)
    → (eqb c.id key ≡ true → P (some (f c)))
    → (eqb c.id key ≡ false → P (some c))
    → P (find_row id (update_rows key f rows))
unfolding find_row update_rows
find_row-update P id key f [] c found keep own other = cc
find_row-update P id key f (x ∷ rows) c found keep own other =
    let again =
      λ (e : find_row id rows ≡ some c). find_row-update P id key f rows c e keep own other in
    if-holds (λ y. P (find_row id (y ∷ update_rows key f rows))) (eqb x.id key)
      (λ t.
        head (f x) (keep x t) again
          (λ e. subst (λ y. P (some (f y))) (sym e) (own (subst (λ y. eqb y.id key ≡ true) e t))))
      (λ t.
        head x refl again
          (λ e. subst (λ y. P (some y)) (sym e) (other (subst (λ y. eqb y.id key ≡ false) e t))))
  where
    head :
        (y : Campaign)
        → y.id ≡ x.id
        → (find_row id rows ≡ some c → P (find_row id (update_rows key f rows)))
        → (x ≡ c → P (some y))
        → P (find_row id (y ∷ update_rows key f rows))
    head y same again here =
        if-holds P (eqb y.id id) (λ t. here (ground (arith, t, same, found)))
          (λ t. again (ground (arith, t, same, found)))

pub filter-gone :
    (id key : ℕ) (rows : List Campaign)
    → eqb id key ≡ true
    → find_row id (filter (λ row. not (eqb row.id key)) rows) ≡ none
unfolding find_row
filter-gone id key [] h = refl
filter-gone id key (c ∷ rows) h = ground (arith, h, filter-gone id key rows h)

pub filter-kept :
    (id key : ℕ) (rows : List Campaign)
    → eqb id key ≡ false
    → find_row id (filter (λ row. not (eqb row.id key)) rows) ≡ find_row id rows
unfolding find_row
filter-kept id key [] h = refl
filter-kept id key (c ∷ rows) h = ground (arith, h, filter-kept id key rows h)

pub found-id :
    (id : ℕ) (rows : List Campaign) (c : Campaign) → find_row id rows ≡ some c → c.id ≡ id
unfolding find_row
found-id id rows c found = eqb-same c.id id (find?-test (λ (x : Campaign). eqb x.id id) rows found)

pub get_by_id-found :
    (key : ℕ) (db : Database) (c : Campaign)
    → get_by_id key db ≡ ok c
    → find_row key db.campaigns ≡ some c
unfolding get_by_id
get_by_id-found key db c read = by_row (find_row key db.campaigns) read
  where
    by_row :
        (o : Option Campaign)
        → ◌≡◌ {A = Result Campaign} (elim o [ none ↦ err (not_found key) | some x ↦ ok x ]) (ok c)
        → o ≡ some c
    by_row none h = cc
    by_row (some x) h = cc
