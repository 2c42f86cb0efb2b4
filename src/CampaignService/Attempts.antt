-- ===== src/CampaignService/Attempts.antt =====
-- How `handleCampaignContactUpdate` (backend/src/campaigns/campaigns.service.ts) counts the attempts
-- of a contact, and which of them it records.
use callytics.CampaignService.Updates.{
  ContactRow, ContactUpdate, Tables, insert_attempt, apply_status, handle_campaign_contact_update,
  handle_updates,
}
use callytics.CampaignService.Marks.{
  attempts_of, recorded_of, is_id, dials, concludes, plus, update_contact-attempts, plus-false,
  is_some-plus, padded, ordered, rotate, empty-no, how_many, one, how_many-cons, added,
}
use callytics.Prelude.{
  ℕ, suc, ◌+◌, String, ◌≡◌, refl, sym, ap, ◌∙◌, inl, inr, Bool, true, false, not, ◌&&◌, Option,
  none, some, List, [], ◌∷◌, arith, ◌==◌, eqb, if◌then◌else◌, Bool-cases, is_some, if-holds,
  option-holds, any, trim, is_empty,
}

module _ (now : ℕ) (call_log : String → Option ℕ) (campaign_exists : ℕ → Bool) where
  insert_attempt-contacts :
      (g k : ℕ) (u : ContactUpdate) (t : Tables)
      → (insert_attempt now call_log campaign_exists g k u t).contacts ≡ t.contacts
  unfolding insert_attempt
  insert_attempt-contacts g k u t =
      option-holds (λ (x : Tables). x.contacts ≡ t.contacts) u.outcome (λ _. refl)
        λ o _.
          if-holds (λ (x : Tables). x.contacts ≡ t.contacts)
            (any t.contacts (λ r. eqb r.id k) && campaign_exists g) (λ _. refl) (λ _. refl)

  apply_status-attempts :
      (g k g' k' : ℕ) (status : String) (u : ContactUpdate) (t : Tables)
      → attempts_of g k (apply_status now call_log campaign_exists g' k' status u t).contacts
        ≡ plus (status == "dialing" && eqb g' g && eqb k' k) (attempts_of g k t.contacts)
  unfolding apply_status
  apply_status-attempts g k g' k' status u t = elim (Bool-cases (status == "dialing")) [
    | inl d ↦ rw d (update_contact-attempts g k g' k' true _ t.contacts (λ r. (refl, refl, refl)))
    | inr nd ↦ elim (Bool-cases (status == "pending")) [
      | inl p ↦
          rw (nd, p)
            (update_contact-attempts g k g' k' false _ t.contacts (λ r. (refl, refl, refl)))
      | inr np ↦
          rw (nd, np)
            (ap (attempts_of g k) (insert_attempt-contacts g' k' u _)
              ∙ update_contact-attempts g k g' k' false _ t.contacts (λ r. (refl, refl, refl)))
    ]
  ]

  handle-attempts :
      (g k : ℕ) (u : ContactUpdate) (t : Tables)
      → attempts_of g k (handle_campaign_contact_update now call_log campaign_exists u t).contacts
        ≡ plus (dials g k u) (attempts_of g k t.contacts)
  unfolding handle_campaign_contact_update
  handle-attempts g k u t = by_ids u.campaign_id u.contact_id
    where
      by_ids :
          (o p : Option ℕ)
          → attempts_of g k
              (elim o as (λ _. Tables) [
                | none ↦ t
                | some campaign ↦ elim p [
                  | none ↦ t
                  | some contact ↦
                      if is_empty (trim u.status)
                      then t
                      else apply_status now call_log campaign_exists campaign contact
                          (trim u.status)
                          u
                          t
                ]
              ]).contacts
            ≡ plus
                (is_id g o && is_id k p && trim u.status == "dialing")
                (attempts_of g k t.contacts)
      by_ids none p = sym (plus-false (attempts_of g k t.contacts))
      by_ids (some g') none = ground (arith, plus-false (attempts_of g k t.contacts))
      by_ids (some g') (some k') = elim (Bool-cases (is_empty (trim u.status))) [
        | inl e ↦ rw e (
            sym (
              ap (λ b. plus b (attempts_of g k t.contacts))
                (empty-no (eqb g' g) (eqb k' k) (trim u.status) "dialing" e refl)
              ∙ plus-false (attempts_of g k t.contacts)))
        | inr f ↦ rw f (
            apply_status-attempts g k g' k' (trim u.status) u t
            ∙ ap (λ b. plus b (attempts_of g k t.contacts))
                (rotate (trim u.status == "dialing") (eqb g' g) (eqb k' k)))
      ]

  -- Whether the contact of an attempt is there.
  abbrev pub is_known : ℕ → ℕ → Tables → Bool
  is_known g k t = is_some (attempts_of g k t.contacts)

  known-any :
      (g k : ℕ) (rows : List ContactRow)
      → is_some (attempts_of g k rows) ≡ true
      → any rows (λ r. eqb r.id k) ≡ true
  known-any g k [] h = cc
  known-any g k (r ∷ rows) h = ground (arith, h, known-any g k rows)

  insert_attempt-recorded :
      (g k g' k' : ℕ) (u : ContactUpdate) (t : Tables)
      → campaign_exists g ≡ true
      → any t.contacts (λ r. eqb r.id k) ≡ true
      → recorded_of g k (insert_attempt now call_log campaign_exists g' k' u t).attempts
        ≡ one (is_some u.outcome && eqb g' g && eqb k' k) + recorded_of g k t.attempts
  unfolding insert_attempt one
  insert_attempt-recorded g k g' k' u t fk here =
      option-holds
        (λ (x : Tables).
          recorded_of g k x.attempts
          ≡ one (is_some u.outcome && eqb g' g && eqb k' k) + recorded_of g k t.attempts)
        u.outcome (λ e. rw e (omega arith))
        λ o e.
          if-holds
            (λ (x : Tables).
              recorded_of g k x.attempts
              ≡ one (is_some u.outcome && eqb g' g && eqb k' k) + recorded_of g k t.attempts)
            (any t.contacts (λ r. eqb r.id k') && campaign_exists g') (λ _. rw e (ground arith))
            (λ off. rw e (ground (arith, elsewhere off)))
    where
      same : (a b : ℕ) → eqb a b ≡ true → a ≡ b
      same a b h = ground arith

      elsewhere :
          any t.contacts (λ r. eqb r.id k') && campaign_exists g' ≡ false
          → eqb g' g && eqb k' k ≡ false
      elsewhere off = elim (Bool-cases (eqb g' g)) [
        | inr f ↦ ground (arith, f)
        | inl p ↦ elim (Bool-cases (eqb k' k)) [
          | inr f ↦ ground (arith, f)
          | inl q ↦
              let found = ap (λ i. any t.contacts (λ r. eqb r.id i)) (same k' k q) ∙ here in
              let exists = ap campaign_exists (same g' g p) ∙ fk in
              ground (arith, off, found, exists)
        ]
      ]

  apply_status-recorded :
      (g k g' k' : ℕ) (status : String) (u : ContactUpdate) (t : Tables)
      → campaign_exists g ≡ true
      → is_known g k t ≡ true
      → recorded_of g k (apply_status now call_log campaign_exists g' k' status u t).attempts
        ≡ one (
            is_some u.outcome
            && eqb g' g
            && eqb k' k
            && not (status == "dialing")
            && not (status == "pending"))
          + recorded_of g k t.attempts
  unfolding apply_status one
  apply_status-recorded g k g' k' status u t fk known = elim (Bool-cases (status == "dialing")) [
    | inl d ↦ rw d (ground arith)
    | inr nd ↦ elim (Bool-cases (status == "pending")) [
      | inl p ↦ rw (nd, p) (ground arith)
      | inr np ↦
          rw (nd, np)
            (insert_attempt-recorded g k g' k' u _ fk (
                known-any g k _ (
                  ap is_some (
                    update_contact-attempts g k g' k' false
                      (λ r. record r { status = status; next_retry_at = none }) t.contacts
                      (λ r. (refl, refl, refl)))
                  ∙ is_some-plus (false && eqb g' g && eqb k' k) (attempts_of g k t.contacts)
                  ∙ known))
              ∙ ap (λ b. one b + recorded_of g k t.attempts)
                  (padded (is_some u.outcome) (eqb g' g) (eqb k' k)))
    ]
  ]

  handle-recorded :
      (g k : ℕ) (u : ContactUpdate) (t : Tables)
      → campaign_exists g ≡ true
      → is_known g k t ≡ true
      → recorded_of g k (handle_campaign_contact_update now call_log campaign_exists u t).attempts
        ≡ one (concludes g k u) + recorded_of g k t.attempts
  unfolding handle_campaign_contact_update one
  handle-recorded g k u t fk known = by_ids u.campaign_id u.contact_id
    where
      by_ids :
          (o p : Option ℕ)
          → recorded_of g k
              (elim o as (λ _. Tables) [
                | none ↦ t
                | some campaign ↦ elim p [
                  | none ↦ t
                  | some contact ↦
                      if is_empty (trim u.status)
                      then t
                      else apply_status now call_log campaign_exists campaign contact
                          (trim u.status)
                          u
                          t
                ]
              ]).attempts
            ≡ one (
                is_id g o
                && is_id k p
                && is_some u.outcome
                && not (is_empty (trim u.status))
                && not (trim u.status == "dialing")
                && not (trim u.status == "pending"))
              + recorded_of g k t.attempts
      by_ids none p = omega arith
      by_ids (some g') none = ground arith
      by_ids (some g') (some k') = elim (Bool-cases (is_empty (trim u.status))) [
        | inl e ↦ rw e (ground arith)
        | inr f ↦ rw f (
            apply_status-recorded g k g' k' (trim u.status) u t fk known
            ∙ ap (λ b. one b + recorded_of g k t.attempts)
                (ordered (is_some u.outcome) (eqb g' g) (eqb k' k)
                  (not (trim u.status == "dialing")) (not (trim u.status == "pending"))))
      ]

  -- For a contact of a campaign that are both in the database, after any messages: its number of
  -- attempts has grown by the messages with the status `dialing`, and the attempts that are recorded
  -- have grown by the messages with an outcome whose status is neither `dialing` nor `pending`.
  pub handle_updates-counts :
      (g k n : ℕ) (us : List ContactUpdate) (t : Tables)
      → campaign_exists g ≡ true
      → attempts_of g k t.contacts ≡ some n
      → let after = handle_updates now call_log campaign_exists us t in
        (attempts_of g k after.contacts ≡ some (how_many (dials g k) us + n))
        × (recorded_of g k after.attempts
            ≡ how_many (concludes g k) us + recorded_of g k t.attempts)
  unfolding handle_updates
  handle_updates-counts g k n [] t fk known = (known ∙ ap some (omega arith), omega arith)
  handle_updates-counts g k n (u ∷ us) t fk known =
      let t' = handle_campaign_contact_update now call_log campaign_exists u t in
      let next = handle-attempts g k u t ∙ ap (plus (dials g k u)) known in
      let (a, r) = handle_updates-counts g k (if dials g k u then suc n else n) us t' fk next in
      let here = handle-recorded g k u t fk (ap is_some known) in
      (
        a
            ∙ ap some (
                added (dials g k u) (how_many (dials g k) us) n
                ∙ ap (λ m. m + n) (sym (how_many-cons (dials g k) u us))),
        omega (arith, r, here, how_many-cons (concludes g k) u us),
      )
