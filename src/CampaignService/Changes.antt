-- ===== src/CampaignService/Changes.antt =====
-- backend/src/campaigns/campaigns.service.ts: what scheduling, stopping, removing and editing do to
-- the status of each campaign.
use callytics.CampaignService.{cancelling}
use callytics.CampaignService.{scheduled}
use callytics.CampaignService.Bounds.{Holds-next}
use callytics.CampaignService.{Status, Campaign, Database, ok}
use callytics.CampaignService.Rows.{
  guard, find_row, get_by_id, set_status, publish, put_row, is_removable, is_draft, is_stoppable,
  validate_scheduling_requirements,
}
use callytics.CampaignService.Actions.{remove, schedule, stop}
use callytics.CampaignService.Bounds.{Holds}
use callytics.CampaignService.Bounds.{Holds-next}
use mathlib.Core.Path.{subst}
use callytics.CampaignService.{scheduled, cancelling}
use callytics.CampaignService.Moves.{
  Move, stays, After, draft-Move, stoppable-Move, guard-true, find_row-update, filter-gone,
  filter-kept, found-id, get_by_id-found,
}
use callytics.CampaignService.Moves.{Source, service}
use callytics.Prelude.{
  ℕ, ◌≡◌, refl, sym, ◌∙◌, inl, inr, true, some, eqb, Bool-cases, if-holds, option-holds, eqb-same,
  eqb-true,
}

-- What a command does to the campaign with an id.
module _ (id : ℕ) (c : Campaign) (db : Database) (found : find_row id db.campaigns ≡ some c) where
  pub own_id : c.id ≡ id
  own_id = found-id id db.campaigns c found

  -- The campaign that a command reads is the campaign that its key names.
  pub same_row : (key : ℕ) (c0 : Campaign) → get_by_id key db ≡ ok c0 → eqb c.id key ≡ true → c0 ≡ c
  same_row key c0 read t =
      let here =
        subst (λ k. find_row k db.campaigns ≡ some c0) (sym (eqb-same c.id key t) ∙ own_id)
          (get_by_id-found key db c0 read) in
      cc (here, found)

  pub set_status-After :
      (by : Source) (status : Status) (key : ℕ)
      → (eqb c.id key ≡ true → Move by c.status status)
      → After by c (find_row id (set_status status key db).campaigns)
  unfolding set_status
  set_status-After by status key move =
      find_row-update (After by c) id key _ db.campaigns c found (λ x t. refl) move (λ _. stays)

  pub schedule-After :
      (now key : ℕ) → Holds (λ d. After service c (find_row id d.campaigns)) (schedule now key db)
  unfolding schedule
  schedule-After now key =
      let Q = λ (d : Database). After service c (find_row id d.campaigns) in
      Holds-next Q (get_by_id key db) _ λ c0 e. Holds-next Q (guard (is_draft c0.status) _) _ λ _ g.
        option-holds (Holds Q) (validate_scheduling_requirements now true c0)
          (λ _. set_status-After service scheduled key λ t.
            draft-Move c.status
              (subst (λ x. is_draft x.status ≡ true) (same_row key c0 e t) (guard-true _ _ g)))
          (λ _ _. tt)

  pub stop-After : (key : ℕ) → Holds (λ d. After service c (find_row id d.campaigns)) (stop key db)
  unfolding stop publish set_status
  stop-After key =
      let Q = λ (d : Database). After service c (find_row id d.campaigns) in
      Holds-next Q (get_by_id key db) _ λ c0 e.
        Holds-next Q (guard (is_stoppable c0.status) _) _ λ _ g.
          let moved = set_status-After service cancelling key λ t.
            stoppable-Move c.status (
              subst (λ x. is_stoppable x.status ≡ true) (same_row key c0 e t) (guard-true _ _ g)) in
          if-holds
            (λ (d : Database).
              After service c (find_row id (set_status cancelling key d).campaigns))
            db.publisher_ready (λ _. moved) (λ _. moved)

  pub remove-After :
      (key : ℕ) → Holds (λ d. After service c (find_row id d.campaigns)) (remove key db)
  unfolding remove
  remove-After key =
      let Q = λ (d : Database). After service c (find_row id d.campaigns) in
      Holds-next Q (get_by_id key db) _ λ c0 e.
        Holds-next Q (guard (is_removable c0.status) _) _ λ _ g. elim (Bool-cases (eqb id key)) [
          | inl t ↦ subst (After service c) (sym (filter-gone id key db.campaigns t)) (
              subst (λ x. is_removable x.status ≡ true)
                (same_row key c0 e (subst (λ i. eqb i key ≡ true) (sym own_id) t))
                (guard-true _ _ g))
          | inr f ↦ subst (After service c) (sym (filter-kept id key db.campaigns f ∙ found)) stays
        ]

  -- A command that changes the row of a campaign as an edit does.
  pub put_row-After :
      (c0 saved : Campaign) (key : ℕ)
      → get_by_id key db ≡ ok c0
      → saved.id ≡ c0.id
      → Move service c0.status saved.status
      → After service c (find_row id (put_row saved db).campaigns)
  put_row-After c0 saved key read same move =
      find_row-update (After service c) id saved.id (λ _. saved) db.campaigns c found
        (λ x t. sym (eqb-same x.id saved.id t))
        (λ t.
          let key_id = found-id key db.campaigns c0 (get_by_id-found key db c0 read) in
          let equal =
            same_row key c0 read (eqb-true c.id key (eqb-same c.id saved.id t ∙ same ∙ key_id)) in
          subst (λ x. Move service x.status saved.status) equal move)
        (λ _. stays)
