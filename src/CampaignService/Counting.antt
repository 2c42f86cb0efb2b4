-- ===== src/CampaignService/Counting.antt =====
-- backend/src/campaigns/campaigns.service.ts: how the contacts of a database are counted.
use callytics.CampaignService.{Campaign, Database}
use callytics.CampaignService.Rows.{find_row, update_rows, get_by_id}
use callytics.CampaignService.Bounds.{Holds}
use callytics.CampaignService.{Contact}
use callytics.CampaignService.Contacts.{of_campaign}
use callytics.CampaignService.Sound.{update_rows-All}
use callytics.CampaignService.Numbers.{IsTidy, IsUnique, same_entry}
use callytics.Prelude.{
  ℕ, ◌<◌, ◌≡◌, refl, Bool, true, false, not, List, [], ◌∷◌, ◌++◌, arith, eqb, if-holds,
  option-holds, length, filter, All, find?-test, find?-In, All-In, All-weaken, All-filter,
}

abbrev pub count : ℕ → List Contact → ℕ
count id ks = length (filter (of_campaign id) ks)

-- A contact and a campaign that fit in a database: their ids have been given out, the number is
-- tidy, and the total of the campaign is the number of its contacts.
abbrev pub ContactFits : ℕ → Contact → Type 0
ContactFits next k = (k.campaign_id < next) × IsTidy k.phone_number

abbrev pub CampaignFits : ℕ → List Contact → Campaign → Type 0
CampaignFits next ks c = (c.id < next) × (c.total_contacts ≡ count c.id ks)

abbrev pub IsCounted : Database → Type 0
IsCounted db =
    IsUnique db.contacts
    × All (ContactFits db.next_id) db.contacts
    × All (CampaignFits db.next_id db.contacts) db.campaigns

pub IsUnique-filter :
    (p : Contact → Bool) (ks : List Contact) → IsUnique ks → IsUnique (filter p ks)
IsUnique-filter p [] u = tt
IsUnique-filter p (k ∷ ks) (apart, u) =
    if-holds IsUnique (p k)
      (λ _. (
        All-weaken (λ x. (same_entry k x ≡ false) × (p x ≡ true)) (λ x. same_entry k x ≡ false) _
            (λ x h. h.0) (All-filter (λ x. same_entry k x ≡ false) p ks apart),
        IsUnique-filter p ks u,
      ))
      (λ _. IsUnique-filter p ks u)

-- An id that was not given out has no contacts.
pub count-fresh : (next : ℕ) (ks : List Contact) → All (ContactFits next) ks → count next ks ≡ 0
count-fresh next [] a = refl
count-fresh next (k ∷ ks) ((low, tidy), a) = ground (arith, low, count-fresh next ks a)

-- Another campaign's contacts come and go without a difference.
pub count-remove :
    (id other : ℕ) (ks : List Contact)
    → eqb other id ≡ false
    → count other (filter (λ k. not (eqb k.campaign_id id)) ks) ≡ count other ks
count-remove id other [] h = refl
count-remove id other (k ∷ ks) h = ground (arith, h, count-remove id other ks h)

pub count-append :
    (id other : ℕ) (new ks : List Contact)
    → eqb other id ≡ false
    → All (λ (k : Contact). (k.campaign_id ≡ id) × IsTidy k.phone_number) new
    → count other (new ++ ks) ≡ count other ks
count-append id other [] ks h a = refl
count-append id other (k ∷ new) ks h ((own, tidy), a) =
    ground (arith, h, own, count-append id other new ks h a)

pub get_by_id-Fits :
    (id : ℕ) (db : Database)
    → IsCounted db
    → Holds (λ c. CampaignFits db.next_id db.contacts c × (c.id ≡ id)) (get_by_id id db)
unfolding get_by_id find_row
get_by_id-Fits id db (unique, ks, cs) =
    option-holds (Holds (λ c. CampaignFits db.next_id db.contacts c × (c.id ≡ id)))
      (find_row id db.campaigns) (λ _. tt)
      (λ c e. (
        All-In _ db.campaigns cs (find?-In _ db.campaigns e),
        same c (find?-test _ db.campaigns e),
      ))
  where
    same : (c : Campaign) → eqb c.id id ≡ true → c.id ≡ id
    same c h = ground arith

-- A change that keeps a campaign's id and total.
pub update_rows-IsCounted :
    (id : ℕ) (f : Campaign → Campaign) (db : Database)
    → ((c : Campaign)
        → CampaignFits db.next_id db.contacts c
        → CampaignFits db.next_id db.contacts (f c))
    → IsCounted db
    → IsCounted (record db { campaigns = update_rows id f db.campaigns })
update_rows-IsCounted id f db keep (unique, ks, cs) =
    (unique, ks, update_rows-All _ id f db.campaigns keep cs)

-- A change of one campaign, where the others need not stay as they are.
pub update_rows-split :
    (id : ℕ) (f : Campaign → Campaign) (P Q : Campaign → Type 0) (rows : List Campaign)
    → ((c : Campaign) → eqb c.id id ≡ true → P c → Q (f c))
    → ((c : Campaign) → eqb c.id id ≡ false → P c → Q c)
    → All P rows
    → All Q (update_rows id f rows)
unfolding update_rows
update_rows-split id f P Q [] own other a = tt
update_rows-split id f P Q (c ∷ rows) own other (p, a) = (
  if-holds Q (eqb c.id id) (λ t. own c t p) (λ e. other c e p),
  update_rows-split id f P Q rows own other a,
)
