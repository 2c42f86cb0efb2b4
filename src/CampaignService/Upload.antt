-- ===== src/CampaignService/Upload.antt =====
-- The loop of `uploadContacts` (backend/src/campaigns/campaigns.service.ts): its counts, and the
-- numbers it lets in.
use callytics.CampaignService.Contacts.{country_of}
use callytics.CampaignService.{Campaign, Contact, Database, ok, Platform}
use callytics.CampaignService.Rows.{get_by_id, guard}
use callytics.CampaignService.Contacts.{
  Row, Upload, Report, has, text_at, add_skip_reason, import_row, import_rows, start_upload, report,
  save_upload, upload_contacts, parse_csv, numbers_of,
}
use callytics.CampaignService.Bounds.{Holds, Holds-next}
use mathlib.Core.Path.{subst}
use callytics.Prelude.{
  ℕ, suc, ◌+◌, ◌-◌, ◌≤◌, String, ◌≡◌, refl, sym, ap, ◌⊎◌, inl, inr, true, false, Option, none, some,
  List, [], ◌∷◌, ◌++◌, arith, ◌==◌, eq_iff, Bool-cases, if-holds, option-holds, length, All,
  length-append, In, All-weaken, All-each, is_empty, show_ℕ, concat,
}

-- The counts of the loop after some rows.
abbrev pub IsTallied : ℕ → Upload → Type 0
IsTallied n u =
    (u.imported + u.skipped ≡ n)
    × (length u.inserted ≡ u.imported)
    × (length u.skipped_reasons ≤ 10)
    × (length u.skipped_reasons ≤ u.skipped)

add_skip_reason-IsTallied :
    (reason : String) (n : ℕ) (u : Upload)
    → IsTallied n u
    → IsTallied (suc n) (add_skip_reason reason u)
unfolding add_skip_reason
add_skip_reason-IsTallied reason n u (sum, ins, ten, few) = (
  omega (arith, sum),
  ins,
  ground (arith, length-append u.skipped_reasons (reason ∷ [])),
  ground (arith, length-append u.skipped_reasons (reason ∷ [])),
)

-- What a report counts.
abbrev IsSummed : String → Database → Database × Report → Type 0
IsSummed input db (after, r) =
    (r.total ≡ length ((parse_csv input).1))
    × (r.total ≡ r.imported + r.skipped)
    × (length after.contacts ≡ r.imported + length db.contacts)
    × (length r.skipped_reasons ≤ 11)

-- A text or none where it is empty.
abbrev pub IsTextOrNone : String → Option String → Type 0
IsTextOrNone t none = is_empty t ≡ true
IsTextOrNone t (some s) = (s ≡ t) × (is_empty t ≡ false)

module _ (normalize : String → String → Option String) where
  import_row-IsTallied :
      (id : ℕ) (country : String) (row : Row) (n : ℕ) (u : Upload)
      → IsTallied n u
      → IsTallied (suc n) (import_row normalize id country row u)
  unfolding import_row
  import_row-IsTallied id country (k, values) n u t =
      if-holds (IsTallied (suc n)) (is_empty (text_at "phone_number" values))
        (λ _. add_skip_reason-IsTallied _ n u t)
        λ _.
          option-holds (IsTallied (suc n)) (normalize (text_at "phone_number" values) country)
            (λ _. add_skip_reason-IsTallied _ n u t)
            λ number _.
              if-holds (IsTallied (suc n)) (has number u.seen_numbers)
                (λ _. add_skip_reason-IsTallied _ n u t)
                (λ _. (omega (arith, t.0), ap suc (t.1), t.2, t.3))

  import_rows-IsTallied :
      (id : ℕ) (country : String) (rows : List Row) (n : ℕ) (u : Upload)
      → IsTallied n u
      → IsTallied (n + length rows) (import_rows normalize id country rows u)
  unfolding import_rows
  import_rows-IsTallied id country [] n u t = subst (λ k. IsTallied k u) (omega arith) t
  import_rows-IsTallied id country (row ∷ rows) n u t =
      subst (λ k. IsTallied k (import_rows normalize id country (row ∷ rows) u)) (omega arith)
        (import_rows-IsTallied id country rows (suc n) (import_row normalize id country row u)
          (import_row-IsTallied id country row n u t))

  report-IsSummed :
      (id : ℕ) (input : String) (db : Database) (u : Upload)
      → IsTallied (length ((parse_csv input).1)) u
      → IsSummed input db (save_upload id u db, report u)
  unfolding report save_upload
  report-IsSummed id input db u (sum, ins, ten, few) = (
    sum,
    refl,
    omega (arith, length-append u.inserted db.contacts, ins),
    ground (
      arith,
      length-append u.skipped_reasons
          (concat "... and " (concat (show_ℕ (u.skipped - length u.skipped_reasons)) " more") ∷ []),
    ),
  )

  -- A contact that was made from a row of the file: for the campaign, with the number of the row in
  -- its normal form.
  abbrev pub IsRowContact : ℕ → String → Row → Contact → Type 0
  IsRowContact id country (n, values) k =
      (k.campaign_id ≡ id)
      × (is_empty (text_at "phone_number" values) ≡ false)
      × (normalize (text_at "phone_number" values) country ≡ some k.phone_number)
      × IsTextOrNone (text_at "name" values) k.name

  -- A number that the campaign has, from before or from the file.
  abbrev pub IsHad : ℕ → List Contact → List Contact → String → Type 0
  IsHad id old new number =
      (has number (numbers_of id old) ≡ true)
      ⊎ ((k : Contact) × In k new × (k.phone_number ≡ number))

  abbrev pub IsHadIf : ℕ → List Contact → List Contact → Option String → Type 0
  IsHadIf id old new none = Unit
  IsHadIf id old new (some number) = IsHad id old new number

  -- A row without a number, with one that is not valid, or with one that the campaign then has.
  abbrev pub IsTaken : ℕ → String → List Contact → List Contact → Row → Type 0
  IsTaken id country old new (n, values) =
      (is_empty (text_at "phone_number" values) ≡ true)
      ⊎ IsHadIf id old new (normalize (text_at "phone_number" values) country)

  module _ (id : ℕ) (country : String) (rows : List Row) (old : List Contact) where
    -- The loop's new contacts and the numbers it has seen, after some rows.
    abbrev IsFilled : List Row → List Contact → List String → Type 0
    IsFilled done new seen =
        All (λ k. (row : Row) × In row rows × IsRowContact id country row k) new
        × All (IsTaken id country old new) done
        × ((number : String) → has number seen ≡ true → IsHad id old new number)

    abbrev Fills : List Row → Upload → Type 0
    Fills done u = IsFilled done u.inserted u.seen_numbers

    IsHad-more :
        (new : List Contact) (k : Contact) (number : String)
        → IsHad id old new number
        → IsHad id old (k ∷ new) number
    IsHad-more new k number (inl e) = inl e
    IsHad-more new k number (inr (j, m, e)) = inr (j, inr m, e)

    IsTaken-more :
        (new : List Contact) (k : Contact) (row : Row)
        → IsTaken id country old new row
        → IsTaken id country old (k ∷ new) row
    IsTaken-more new k (n, values) (inl e) = inl e
    IsTaken-more new k (n, values) (inr h) =
        inr (by_number (normalize (text_at "phone_number" values) country) h)
      where
        by_number : (o : Option String) → IsHadIf id old new o → IsHadIf id old (k ∷ new) o
        by_number none t = tt
        by_number (some number) h = IsHad-more new k number h

    -- A number that was not seen before becomes a contact.
    add-IsFilled :
        (row : Row) (k : Contact) (done : List Row) (new : List Contact) (seen : List String)
        → In row rows
        → IsRowContact id country row k
        → IsFilled done new seen
        → IsFilled (row ∷ done) (k ∷ new) (k.phone_number ∷ seen)
    add-IsFilled (n, values) k done new seen here (own, full, e, named) (from_rows, taken, had) = (
      (((n, values), here, (own, full, e, named)), from_rows),
      (
        inr (subst (IsHadIf id old (k ∷ new)) (sym e) (inr (k, inl refl, refl))),
        All-weaken (IsTaken id country old new) (IsTaken id country old (k ∷ new)) done
            (λ row t. IsTaken-more new k row t) taken,
      ),
      λ other h. elim (Bool-cases (k.phone_number == other)) [
        | inl t ↦ inr (k, inl refl, (eq_iff k.phone_number other).0 t)
        | inr f ↦ IsHad-more new k other (had other (ground (arith, f, h)))
      ],
    )

    import_row-Fills :
        (row : Row) (done : List Row) (u : Upload)
        → In row rows
        → Fills done u
        → Fills (row ∷ done) (import_row normalize id country row u)
    unfolding import_row add_skip_reason
    import_row-Fills (n, values) done u here (from_rows, taken, had) =
        if-holds (Fills ((n, values) ∷ done)) (is_empty (text_at "phone_number" values))
          (λ blank. (from_rows, (inl blank, taken), had))
          λ full.
            option-holds (Fills ((n, values) ∷ done))
              (normalize (text_at "phone_number" values) country)
              (λ e. (from_rows, (inr (subst (IsHadIf id old u.inserted) (sym e) tt), taken), had))
              λ number e.
                if-holds (Fills ((n, values) ∷ done)) (has number u.seen_numbers)
                  (λ seen. (
                    from_rows,
                    (inr (subst (IsHadIf id old u.inserted) (sym e) (had number seen)), taken),
                    had,
                  ))
                  (λ _.
                    add-IsFilled (n, values) _ done u.inserted u.seen_numbers here
                      (
                        refl,
                        full,
                        e,
                        if-holds (IsTextOrNone (text_at "name" values))
                            (is_empty (text_at "name" values)) (λ t. t) (λ t. (refl, t)),
                      )
                      (from_rows, taken, had))

    import_rows-Fills :
        (left done : List Row) (u : Upload)
        → All (λ row. In row rows) left
        → Fills done u
        → Fills done (import_rows normalize id country left u)
          × All (IsTaken id country old (import_rows normalize id country left u).inserted) left
    unfolding import_rows
    import_rows-Fills [] done u inside h = (h, tt)
    import_rows-Fills (row ∷ left) done u (here, inside) h =
        let ((from_rows, (now, taken), had), later) =
          import_rows-Fills left (row ∷ done) (import_row normalize id country row u) inside
            (import_row-Fills row done u here h) in
        ((from_rows, taken, had), (now, later))

  -- The new contacts are put before the old ones; each comes from a row of the file, and each row
  -- is taken. The report counts the rows, the new contacts and the other rows.
  abbrev pub IsReport : ℕ → String → String → Database → Database × Report → Type 0
  IsReport id country input db (after, r) =
      (new : List Contact) × (after.contacts ≡ new ++ db.contacts)
      × (length new ≡ r.imported)
      × All (λ k. (row : Row) × In row ((parse_csv input).1) × IsRowContact id country row k) new
      × All (IsTaken id country db.contacts new) ((parse_csv input).1)
      × (r.total ≡ length ((parse_csv input).1))
      × (r.total ≡ r.imported + r.skipped)
      × (length r.skipped_reasons ≤ 11)

  upload_contacts-Holds :
      (platform : Platform) (id : ℕ) (input : String) (db : Database)
      → Holds
          (λ p.
            (c : Campaign) × (get_by_id id db ≡ ok c)
            × IsReport id (country_of platform c) input db p)
          (upload_contacts platform normalize id input db)
  unfolding upload_contacts start_upload save_upload report
  upload_contacts-Holds platform id input db = Holds-next _ (get_by_id id db) _ λ c found.
      Holds-next _ (guard (has "phone_number" ((parse_csv input).0)) _) _ λ _ _.
        let country = country_of platform c in
        let u = start_upload id db.contacts in
        let rows = (parse_csv input).1 in
        let done = import_rows normalize id country rows u in
        let tally : IsTallied (length rows) done =
          subst (λ k. IsTallied k done) (omega arith)
            (import_rows-IsTallied id country rows 0 u
              (omega arith, refl, omega arith, omega arith)) in
        let (total, sum, counted, few) = report-IsSummed id input db done tally in
        let ((from_rows, none_done, had), taken) =
          import_rows-Fills id country rows db.contacts rows [] u
            (All-each (λ row. In row rows) rows (λ row m. m)) (tt, tt, λ number h. inl h) in
        (c, found, (done.inserted, refl, tally.1, from_rows, taken, total, sum, few))

  -- An upload that succeeds accounts for every row of the file. It adds exactly the contacts that
  -- it counts as imported, before those that were there; each of them belongs to the campaign and
  -- has the number of a row, in the normal form of the campaign's country, and the row's name. Every
  -- row has no number, one that is not valid, or one that the campaign then has, from before or from
  -- the file; the rows that were not imported are counted as skipped, with at most eleven reasons.
  pub upload_contacts-IsReport :
      (platform : Platform) (id : ℕ) (input : String) (db after : Database) (r : Report)
      → upload_contacts platform normalize id input db ≡ ok (after, r)
      → (c : Campaign) × (get_by_id id db ≡ ok c)
        × IsReport id (country_of platform c) input db (after, r)
  upload_contacts-IsReport platform id input db after r h =
      subst
        (Holds (λ p.
          (c : Campaign) × (get_by_id id db ≡ ok c)
          × IsReport id (country_of platform c) input db p))
        h (upload_contacts-Holds platform id input db)
