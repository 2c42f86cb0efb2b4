-- ===== src/CampaignService/Updates.antt =====
-- backend/src/campaigns/campaigns.service.ts: `handleCampaignContactUpdate`, which applies the
-- executor's messages to the contacts and their attempts.
use callytics.Prelude.{
  ℕ, suc, ◌+◌, ◌*◌, String, Bool, ◌&&◌, Option, none, some, List, [], ◌∷◌, map, ◌==◌, eqb,
  if◌then◌else◌, or_else, find?, any, trim, is_empty,
}

-- A row of `campaign_contacts`; times are in milliseconds.
pub record ContactRow : Type 0 where
  pub id : ℕ
  pub campaign_id : ℕ
  pub phone_number : String
  pub status : String
  pub attempts : ℕ
  pub last_attempt_at : Option ℕ
  pub next_retry_at : Option ℕ

-- A row of `campaign_contact_attempts`.
pub record AttemptRow : Type 0 where
  pub campaign_id : ℕ
  pub contact_id : ℕ
  pub phone_number : String
  pub attempt_number : ℕ
  pub outcome : String
  pub call_log_id : Option ℕ
  pub started_at : ℕ
  pub ended_at : ℕ

-- The message; a number that is missing, null or zero is `none`, and so is an outcome or an id of a
-- call that is missing or empty.
pub record ContactUpdate : Type 0 where
  pub campaign_id : Option ℕ
  pub contact_id : Option ℕ
  pub status : String
  pub outcome : Option String
  pub call_log_id : Option ℕ
  pub call_id : Option String
  pub attempt_number : Option ℕ
  pub started_at : Option ℕ
  pub ended_at : Option ℕ
  pub retry_after_minutes : Option ℕ

pub record Tables : Type 0 where
  pub contacts : List ContactRow
  pub attempts : List AttemptRow

abbrev pub is_row : ℕ → ℕ → ContactRow → Bool
is_row campaign contact r = eqb r.id contact && eqb r.campaign_id campaign

-- `UPDATE campaign_contacts SET … WHERE id = $1 AND campaign_id = $2`
unfoldable pub update_contact :
    ℕ → ℕ → (ContactRow → ContactRow) → List ContactRow → List ContactRow
update_contact campaign contact f rows =
    map (λ r. if is_row campaign contact r then f r else r) rows

abbrev pub or_now : ℕ → Option ℕ → ℕ
or_now now none = now
or_now now (some t) = t

abbrev positive : ℕ → Option ℕ
positive n = if eqb n 0 then none else some n

-- `now` is the database's NOW(), `call_log` its look-up of a call's log by the call's id, and
-- `campaign_exists` the foreign key of an attempt.
module _ (now : ℕ) (call_log : String → Option ℕ) (campaign_exists : ℕ → Bool) where
  -- What a final status writes as the attempt's number.
  number_of : Option ContactRow → ContactUpdate → ℕ
  number_of row u =
      elim (or_else (elim row [ none ↦ none | some r ↦ positive r.attempts ]) u.attempt_number) [
        | none ↦ 1
        | some n ↦ n
      ]

  log_of : ContactUpdate → Option ℕ
  log_of u = or_else u.call_log_id (elim u.call_id [ none ↦ none | some id ↦ call_log id ])

  -- The attempt is inserted if there is an outcome and its two foreign keys hold.
  unfoldable pub insert_attempt : ℕ → ℕ → ContactUpdate → Tables → Tables
  unfolding number_of log_of
  insert_attempt campaign contact u t =
      let row = find? (is_row campaign contact) t.contacts in
      elim u.outcome [
        | none ↦ t
        | some outcome ↦
            if any t.contacts (λ r. eqb r.id contact) && campaign_exists campaign
            then record t {
              attempts =
                  record {
                    campaign_id = campaign;
                    contact_id = contact;
                    phone_number = elim row [ none ↦ String.[] | some r ↦ r.phone_number ];
                    attempt_number = number_of row u;
                    outcome = outcome;
                    call_log_id = log_of u;
                    started_at = or_now now u.started_at;
                    ended_at = or_now now u.ended_at;
                  }
                  ∷ t.attempts;
            }
            else t
      ]

  abbrev pub minutes_of : ContactUpdate → ℕ
  minutes_of u = elim u.retry_after_minutes [ none ↦ 30 | some n ↦ n ]

  -- The update of a contact by its new status.
  unfoldable pub apply_status : ℕ → ℕ → String → ContactUpdate → Tables → Tables
  unfolding insert_attempt update_contact
  apply_status campaign contact status u t =
      if status == "dialing"
      then record t {
        contacts =
            update_contact campaign contact
              (λ r. record r {
                status = "dialing";
                attempts = suc r.attempts;
                last_attempt_at = some now;
                next_retry_at = none;
              })
              t.contacts;
      }
      else if status == "pending"
      then record t {
        contacts =
            update_contact campaign contact
              (λ r. record r {
                status = "pending";
                next_retry_at = some (now + minutes_of u * 60000);
              })
              t.contacts;
      }
      else insert_attempt campaign contact u (record t {
        contacts =
            update_contact campaign contact
              (λ r. record r { status = status; next_retry_at = none }) t.contacts;
      })

  unfoldable pub handle_campaign_contact_update : ContactUpdate → Tables → Tables
  unfolding apply_status
  handle_campaign_contact_update u t = elim u.campaign_id [
    | none ↦ t
    | some campaign ↦ elim u.contact_id [
      | none ↦ t
      | some contact ↦
          if is_empty (trim u.status) then t else apply_status campaign contact (trim u.status) u t
    ]
  ]

  unfoldable pub handle_updates : List ContactUpdate → Tables → Tables
  unfolding handle_campaign_contact_update
  handle_updates [] t = t
  handle_updates (u ∷ us) t = handle_updates us (handle_campaign_contact_update u t)
