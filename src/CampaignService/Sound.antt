-- ===== src/CampaignService/Sound.antt =====
-- The bounds on the rows that backend/src/campaigns/campaigns.service.ts keeps.
use callytics.CampaignService.Bounds.{Holds-next}
use callytics.CampaignService.{Campaign, Result, ◌>>=◌, Platform, Payload}
use callytics.CampaignService.Rows.{
  find_row, update_rows, try_auto_schedule, not_null, integer, reference, timestamp, changed,
  or_null, is_draft, validate_scheduling_requirements,
}
use callytics.CampaignService.Actions.{new_row, changed_row}
use callytics.CampaignService.Bounds.{
  Holds, Holds-step, Present, Ranges, IsName, IsCountry, IsNormal,
}
use callytics.Prelude.{
  ℕ, ◌≡◌, Bool, true, false, not, ◌&&◌, Option, none, some, List, [], ◌∷◌, arith, leb, eqb, is_some,
  if-holds, filter, All, find?-In, All-In,
}

-- The largest INTEGER of the database.
abbrev pub largest : ℕ
largest = 2147483647

-- The limits of a campaign.
abbrev pub InBounds : Campaign → Type 0
InBounds c =
    IsName c.name
    × IsCountry c.default_country
    × Ranges 1 (some 10) c.max_concurrent
    × Ranges 0 (some 5) c.max_retries
    × Ranges 5 (some largest) c.retry_interval_minutes

not_null-next :
    {A B : Type 0} (Q : B → Type 0) (P : A → Type 0) (o : Option A) (f : A → Result B)
    → Present false P o
    → ((a : A) → P a → Holds Q (f a))
    → Holds Q (not_null o >>= f)
not_null-next Q P none f p next = tt
not_null-next Q P (some a) f p next = next a p

or_old :
    {A : Type 0} (P : A → Type 0) (o : Option A) (old : A)
    → Present true P o
    → P old
    → P (elim o [ none ↦ old | some a ↦ a ])
or_old P none old p q = q
or_old P (some a) old p q = p

integer-Holds : (n : ℕ) → Ranges 5 none n → Holds (Ranges 5 (some largest)) (integer n)
integer-Holds n (low, high) =
    if-holds (Holds (Ranges 5 (some largest))) (leb n largest) (λ h. (low, ground arith)) (λ _. tt)

changed-integer :
    (o : Option ℕ) (old : ℕ)
    → Present true (Ranges 5 none) o
    → Ranges 5 (some largest) old
    → Holds (Ranges 5 (some largest)) (changed o old integer)
changed-integer none old p q = q
changed-integer (some n) old p q = integer-Holds n p

module _ (platform : Platform) where
  pub new_row-InBounds :
      (id : ℕ) (p : Payload) → IsNormal false p → Holds InBounds (new_row platform id p)
  unfolding new_row
  new_row-InBounds id p (name, country, concurrent, retries, interval) =
      let Q = InBounds in
      not_null-next Q IsName p.name _ name λ n p1.
        Holds-next Q (reference platform.call_flow (or_null p.flow_id)) _ λ f _.
          Holds-next Q (reference platform.sip_trunk (or_null p.trunk_id)) _ λ t _.
            not_null-next Q IsCountry p.default_country _ country λ c p2.
              Holds-next Q (changed p.scheduled_at none (timestamp platform.timestamptz)) _ λ at _.
                not_null-next Q (Ranges 1 (some 10)) p.max_concurrent _ concurrent λ mc p3.
                  not_null-next Q (Ranges 0 (some 5)) p.max_retries _ retries λ mr p4.
                    not_null-next Q (Ranges 5 none) p.retry_interval_minutes _ interval λ i p5.
                      Holds-step Q (Ranges 5 (some largest)) (integer i) _ (integer-Holds i p5)
                        λ k _ p6. (p1, p2, p3, p4, p6)

  pub changed_row-InBounds :
      (p : Payload) (c : Campaign)
      → IsNormal true p
      → InBounds c
      → Holds InBounds (changed_row platform p c)
  unfolding changed_row
  changed_row-InBounds p c (name, country, concurrent, retries, interval) (b1, b2, b3, b4, b5) =
      let Q = InBounds in
      Holds-next Q (changed p.flow_id c.flow_id (reference platform.call_flow)) _ λ f _.
        Holds-next Q (changed p.trunk_id c.trunk_id (reference platform.sip_trunk)) _ λ t _.
          Holds-next Q (changed p.scheduled_at c.scheduled_at (timestamp platform.timestamptz)) _
            λ at _.
              Holds-step Q (Ranges 5 (some largest))
                (changed p.retry_interval_minutes c.retry_interval_minutes integer) _
                (changed-integer p.retry_interval_minutes c.retry_interval_minutes interval b5)
                λ k _ p6. (
                  or_old IsName p.name c.name name b1,
                  or_old IsCountry p.default_country c.default_country country b2,
                  or_old (Ranges 1 (some 10)) p.max_concurrent c.max_concurrent concurrent b3,
                  or_old (Ranges 0 (some 5)) p.max_retries c.max_retries retries b4,
                  p6,
                )

pub try_auto_schedule-InBounds :
    (now : ℕ) (c : Campaign) → InBounds c → InBounds (try_auto_schedule now c)
unfolding try_auto_schedule
try_auto_schedule-InBounds now c b =
    if-holds InBounds
      (is_draft c.status && not (is_some (validate_scheduling_requirements now true c))) (λ _. b)
      (λ _. b)

pub update_rows-All :
    (P : Campaign → Type 0) (id : ℕ) (f : Campaign → Campaign) (rows : List Campaign)
    → ((c : Campaign) → P c → P (f c))
    → All P rows
    → All P (update_rows id f rows)
unfolding update_rows
update_rows-All P id f [] keep a = tt
update_rows-All P id f (c ∷ rows) keep (p, a) =
    (if-holds P (eqb c.id id) (λ _. keep c p) (λ _. p), update_rows-All P id f rows keep a)

pub filter-All :
    (P : Campaign → Type 0) (p : Campaign → Bool) (rows : List Campaign)
    → All P rows
    → All P (filter p rows)
filter-All P p [] a = tt
filter-All P p (c ∷ rows) (h, a) =
    if-holds (All P) (p c) (λ _. (h, filter-All P p rows a)) (λ _. filter-All P p rows a)

pub find_row-All :
    (P : Campaign → Type 0) (id : ℕ) (rows : List Campaign) {c : Campaign}
    → All P rows
    → find_row id rows ≡ some c
    → P c
unfolding find_row
find_row-All P id rows a e = All-In P rows a (find?-In _ rows e)
