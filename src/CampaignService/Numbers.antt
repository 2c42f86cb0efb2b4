-- ===== src/CampaignService/Numbers.antt =====
-- The numbers that the loop of `uploadContacts` (backend/src/campaigns/campaigns.service.ts) lets
-- into a campaign.
use mathlib.Core.Path.{subst}
use callytics.CampaignService.{Contact}
use callytics.CampaignService.Contacts.{
  Row, Upload, has, text_at, add_skip_reason, import_row, import_rows, of_campaign, numbers_of,
  start_upload,
}
use callytics.Prelude.{
  ℕ, String, ◌≡◌, refl, sym, ap, ◌∙◌, ◌⊎◌, inl, inr, Bool, true, false, not, ◌&&◌, ◌||◌, Option,
  none, some, List, [], ◌∷◌, ◌++◌, map, arith, ◌==◌, eq_iff, eq_refl, eqb, if◌then◌else◌,
  Bool-cases, if-holds, option-holds, filter, All, In, All-In, All-weaken, All-each, trim, is_empty,
}

-- A number as libphonenumber writes it: it is not empty and has no white space around it.
abbrev pub IsTidy : String → Type 0
IsTidy number = (trim number ≡ number) × (is_empty number ≡ false)

-- A number that comes out of the normalisation is tidy.
abbrev pub TidyAnswer : Option String → Type 0
TidyAnswer none = Unit
TidyAnswer (some number) = IsTidy number

abbrev pub same_entry : Contact → Contact → Bool
same_entry k x = eqb x.campaign_id k.campaign_id && x.phone_number == k.phone_number

-- No campaign has a number twice.
abbrev pub IsUnique : List Contact → Type 0
IsUnique [] = Unit
IsUnique (k ∷ ks) = All (λ x. same_entry k x ≡ false) ks × IsUnique ks

-- A contact of another campaign, or one whose number has been seen.
abbrev pub Covered : ℕ → List String → Contact → Type 0
Covered id seen k = (of_campaign id k ≡ false) ⊎ (has k.phone_number seen ≡ true)

numbers_of-head :
    (id : ℕ) (k : Contact) (ks : List Contact)
    → of_campaign id k ≡ true
    → IsTidy k.phone_number
    → has k.phone_number (numbers_of id (k ∷ ks)) ≡ true
unfolding numbers_of
numbers_of-head id k ks own (trimmed, full) =
    rw own (rw trimmed (rw full (rw (eq_refl k.phone_number) refl)))

or-right : (a b : Bool) → b ≡ true → a || b ≡ true
or-right a b h = ground arith

numbers_of-tail :
    (id : ℕ) (k : Contact) (ks : List Contact) (number : String)
    → has number (numbers_of id ks) ≡ true
    → has number (numbers_of id (k ∷ ks)) ≡ true
unfolding numbers_of
numbers_of-tail id k ks number h =
    if-holds
      (λ (l : List Contact).
        has number (filter (λ n. not (is_empty n)) (map (λ (c : Contact). trim c.phone_number) l))
        ≡ true)
      (of_campaign id k)
      (λ _.
        if-holds (λ (l : List String). has number l ≡ true) (not (is_empty (trim k.phone_number)))
          (λ _. or-right (trim k.phone_number == number) _ h) (λ _. h))
      (λ _. h)

numbers_of-has :
    (id : ℕ) (ks : List Contact) (k : Contact)
    → In k ks
    → of_campaign id k ≡ true
    → IsTidy k.phone_number
    → has k.phone_number (numbers_of id ks) ≡ true
numbers_of-has id [] k m own tidy = absurd m
numbers_of-has id (x ∷ ks) k (inl e) own tidy =
    rw e (numbers_of-head id x ks (rw e at own) (rw e at tidy))
numbers_of-has id (x ∷ ks) k (inr m) own tidy =
    numbers_of-tail id x ks k.phone_number (numbers_of-has id ks k m own tidy)

start-Covered :
    (id : ℕ) (ks : List Contact)
    → All (λ (k : Contact). IsTidy k.phone_number) ks
    → All (Covered id (numbers_of id ks)) ks
start-Covered id ks tidy = All-each (Covered id (numbers_of id ks)) ks λ k m.
    elim (Bool-cases (of_campaign id k)) [
      | inl own ↦ inr (numbers_of-has id ks k m own (All-In _ ks tidy m))
      | inr other ↦ inl other
    ]

-- The loop's invariant over the contacts there were.
abbrev pub IsAdmitted : ℕ → List Contact → Upload → Type 0
IsAdmitted id contacts u =
    IsUnique (u.inserted ++ contacts)
    × All (Covered id u.seen_numbers) (u.inserted ++ contacts)
    × All (λ (k : Contact). (k.campaign_id ≡ id) × IsTidy k.phone_number) u.inserted

-- A number that has not been seen differs from those of all covered contacts.
unseen-differs :
    (id : ℕ) (seen : List String) (k x : Contact)
    → k.campaign_id ≡ id
    → has k.phone_number seen ≡ false
    → Covered id seen x
    → same_entry k x ≡ false
unseen-differs id seen k x own unseen (inl other) = ground (arith, own, other)
unseen-differs id seen k x own unseen (inr known) =
    elim (Bool-cases (x.phone_number == k.phone_number)) [
      | inl e ↦ absurd (
          cc (
            sym (ap (λ n. has n seen) ((eq_iff x.phone_number k.phone_number).0 e)) ∙ known,
            unseen,
          ))
      | inr e ↦ ground (arith, e)
    ]

Covered-more :
    (id : ℕ) (seen : List String) (number : String) (k : Contact)
    → Covered id seen k
    → Covered id (number ∷ seen) k
Covered-more id seen number k (inl other) = inl other
Covered-more id seen number k (inr known) = inr (or-right (number == k.phone_number) _ known)

module _ (normalize : String → String → Option String) (id : ℕ) (country : String)
    (contacts : List Contact) where
  import_row-IsAdmitted :
      (row : Row) (u : Upload)
      → ((raw place : String) → TidyAnswer (normalize raw place))
      → IsAdmitted id contacts u
      → IsAdmitted id contacts (import_row normalize id country row u)
  unfolding import_row add_skip_reason
  import_row-IsAdmitted (n, values) u tidy (unique, covered, own) =
      if-holds (IsAdmitted id contacts) (is_empty (text_at "phone_number" values))
        (λ _. (unique, covered, own))
        λ _.
          option-holds (IsAdmitted id contacts) (normalize (text_at "phone_number" values) country)
            (λ _. (unique, covered, own))
            λ number e.
              if-holds (IsAdmitted id contacts) (has number u.seen_numbers)
                (λ _. (unique, covered, own))
                λ unseen.
                  let new : Contact = record {
                    campaign_id = id;
                    phone_number = number;
                    name =
                        if is_empty (text_at "name" values)
                        then none
                        else some (text_at "name" values);
                  } in
                  (
                    (
                      All-weaken (Covered id u.seen_numbers) (λ x. same_entry new x ≡ false) _
                          (λ x c. unseen-differs id u.seen_numbers new x refl unseen c) covered,
                      unique,
                    ),
                    (
                      inr (rw (eq_refl number) refl),
                      All-weaken (Covered id u.seen_numbers) (Covered id (number ∷ u.seen_numbers))
                          _ (λ x c. Covered-more id u.seen_numbers number x c) covered,
                    ),
                    (
                      (refl, subst TidyAnswer e (tidy (text_at "phone_number" values) country)),
                      own,
                    ),
                  )

  pub import_rows-IsAdmitted :
      (rows : List Row) (u : Upload)
      → ((raw place : String) → TidyAnswer (normalize raw place))
      → IsAdmitted id contacts u
      → IsAdmitted id contacts (import_rows normalize id country rows u)
  unfolding import_rows
  import_rows-IsAdmitted [] u tidy a = a
  import_rows-IsAdmitted (row ∷ rows) u tidy a =
      import_rows-IsAdmitted rows (import_row normalize id country row u) tidy
        (import_row-IsAdmitted row u tidy a)

pub start_upload-IsAdmitted :
    (id : ℕ) (contacts : List Contact)
    → IsUnique contacts
    → All (λ (k : Contact). IsTidy k.phone_number) contacts
    → IsAdmitted id contacts (start_upload id contacts)
unfolding start_upload
start_upload-IsAdmitted id contacts unique tidy = (unique, start-Covered id contacts tidy, tt)
