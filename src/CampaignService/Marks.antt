-- ===== src/CampaignService/Marks.antt =====
-- backend/src/campaigns/campaigns.service.ts: the messages about a contact, counted by what they
-- change.
use callytics.CampaignService.Updates.{
  ContactRow, AttemptRow, ContactUpdate, is_row, update_contact,
}
use callytics.Prelude.{
  ℕ, suc, ◌+◌, String, ◌≡◌, refl, ap, inl, inr, Bool, true, false, not, ◌&&◌, Option, none, some,
  List, [], ◌∷◌, arith, ◌==◌, eq_iff, eqb, if◌then◌else◌, Bool-cases, is_some, length, find?,
  filter, trim, is_empty,
}

-- The attempts of a contact's row, and the number of its recorded attempts.
abbrev pub attempts_of : ℕ → ℕ → List ContactRow → Option ℕ
attempts_of campaign contact rows = elim (find? (is_row campaign contact) rows) [
  | none ↦ none
  | some r ↦ some r.attempts
]

abbrev pub recorded_of : ℕ → ℕ → List AttemptRow → ℕ
recorded_of campaign contact rows =
    length (filter (λ a. eqb a.contact_id contact && eqb a.campaign_id campaign) rows)

abbrev pub is_id : ℕ → Option ℕ → Bool
is_id n none = false
is_id n (some m) = eqb m n

abbrev pub addresses : ℕ → ℕ → ContactUpdate → Bool
addresses campaign contact u = is_id campaign u.campaign_id && is_id contact u.contact_id

-- The messages that announce a call of the contact, and those that end with an outcome.
abbrev pub dials : ℕ → ℕ → ContactUpdate → Bool
dials campaign contact u = addresses campaign contact u && trim u.status == "dialing"

abbrev pub concludes : ℕ → ℕ → ContactUpdate → Bool
concludes campaign contact u =
    addresses campaign contact u
    && is_some u.outcome
    && not (is_empty (trim u.status))
    && not (trim u.status == "dialing")
    && not (trim u.status == "pending")

abbrev pub plus : Bool → Option ℕ → Option ℕ
plus b none = none
plus b (some n) = some (if b then suc n else n)

pub update_contact-attempts :
    (g k g' k' : ℕ) (b : Bool) (f : ContactRow → ContactRow) (rows : List ContactRow)
    → ((r : ContactRow)
        → ((f r).id ≡ r.id)
          × ((f r).campaign_id ≡ r.campaign_id)
          × ((f r).attempts ≡ (if b then suc r.attempts else r.attempts)))
    → attempts_of g k (update_contact g' k' f rows)
      ≡ plus (b && eqb g' g && eqb k' k) (attempts_of g k rows)
unfolding update_contact
update_contact-attempts g k g' k' b f [] keep = refl
update_contact-attempts g k g' k' b f (r ∷ rows) keep =
    let (i, c, a) = keep r in
    ground (arith, i, c, a, update_contact-attempts g k g' k' b f rows keep)

pub plus-false : (o : Option ℕ) → plus false o ≡ o
plus-false none = refl
plus-false (some n) = refl

pub is_some-plus : (b : Bool) (o : Option ℕ) → is_some (plus b o) ≡ is_some o
is_some-plus b none = refl
is_some-plus b (some n) = refl

pub padded : (a b c : Bool) → a && b && c ≡ a && b && c && true && true
padded a b c = ground arith

pub ordered : (a b c d e : Bool) → a && b && c && d && e ≡ b && c && a && true && d && e
ordered a b c d e = ground arith

pub rotate : (a b c : Bool) → a && b && c ≡ b && c && a
rotate a b c = ground arith

pub empty-no :
    (a b : Bool) (s t : String) → is_empty s ≡ true → is_empty t ≡ false → a && b && s == t ≡ false
empty-no a b s t e f = elim (Bool-cases (s == t)) [
  | inl h ↦ absurd (cc (ap is_empty ((eq_iff s t).0 h), e, f))
  | inr h ↦ rw h (ground arith)
]

-- The messages of a list that pass a test, as a number.
abbrev pub how_many : (ContactUpdate → Bool) → List ContactUpdate → ℕ
how_many p us = length (filter p us)

unfoldable pub one : Bool → ℕ
one b = if b then 1 else 0

pub how_many-cons :
    (p : ContactUpdate → Bool) (u : ContactUpdate) (us : List ContactUpdate)
    → how_many p (u ∷ us) ≡ one (p u) + how_many p us
unfolding one
how_many-cons p u us = by_test (p u)
  where
    by_test :
        (b : Bool)
        → length (if b then u ∷ filter p us else filter p us)
          ≡ (if b then 1 else 0) + length (filter p us)
    by_test true = omega arith
    by_test false = omega arith

pub added : (b : Bool) (m n : ℕ) → m + (if b then suc n else n) ≡ one b + m + n
unfolding one
added true m n = omega arith
added false m n = omega arith
