-- ===== src/CampaignService/Bounds.antt =====
-- What `normalizePayload` of backend/src/campaigns/campaigns.service.ts lets through.
use callytics.Js.{Value, Fields, Number, nan, nat, negative, get}
use callytics.CampaignService.{
  Result, ok, err, ◌>>=◌, Platform, Payload, is_country, in_range, name_field, country_field,
  number_field, normalize_payload,
}
use callytics.Js.{text_of, to_number, to_string}
use callytics.CampaignService.{is_undefined, is_nullish}
use callytics.CampaignService.{max_concurrent_field, max_retries_field, retry_interval_field}
use callytics.Prelude.{
  ℕ, ◌≤◌, String, ◌≡◌, refl, Bool, true, false, ◌&&◌, Option, none, some, arith, if◌then◌else◌,
  if-holds, option-holds, trim, is_empty,
}

-- What holds of a result if it is no error, and the rule of a step.
abbrev pub Holds : {A : Type 0} → (A → Type 0) → Result A → Type 0
Holds P (ok a) = P a
Holds P (err e) = Unit

pub Holds-step :
    {A B : Type 0} (Q : B → Type 0) (P : A → Type 0) (m : Result A) (f : A → Result B)
    → Holds P m
    → ((a : A) → m ≡ ok a → P a → Holds Q (f a))
    → Holds Q (m >>= f)
Holds-step Q P (ok a) f p step = step a refl p
Holds-step Q P (err e) f p step = tt

pub Holds-next :
    {A B : Type 0} (Q : B → Type 0) (m : Result A) (f : A → Result B)
    → ((a : A) → m ≡ ok a → Holds Q (f a))
    → Holds Q (m >>= f)
Holds-next Q (ok a) f next = next a refl
Holds-next Q (err e) f next = tt

module _ {A : Type 0} (partial : Bool) (P : A → Type 0) where
  abbrev pub Present : Option A → Type 0
  Present none = partial ≡ true
  Present (some a) = P a

  abbrev pub Passed : Result (Option A) → Type 0
  Passed m = Holds Present m

abbrev pub Upto : Option ℕ → ℕ → Type 0
Upto none n = Unit
Upto (some high) n = n ≤ high

abbrev pub Ranges : ℕ → Option ℕ → ℕ → Type 0
Ranges low high n = (low ≤ n) × Upto high n

in_range-Ranges :
    (low : ℕ) (high : Option ℕ) (n : Number) {k : ℕ}
    → in_range low high n ≡ some k
    → Ranges low high k
unfolding in_range
in_range-Ranges low none nan h = cc
in_range-Ranges low (some high) nan h = cc
in_range-Ranges low none (nat n) h = (ground arith, tt)
in_range-Ranges low (some high) (nat n) h = (ground arith, ground arith)
in_range-Ranges low high (negative n) h = cc

pub and-left : (a b : Bool) → a && b ≡ true → a ≡ true
and-left a b h = ground arith

number_field-Passed :
    (partial : Bool) (v : Value) (standard low : ℕ) (high : Option ℕ) (text : String)
    → Passed partial (Ranges low high) (number_field partial v standard low high text)
unfolding number_field
number_field-Passed partial v standard low high text =
    if-holds (Passed partial (Ranges low high)) (partial && is_undefined v)
      (λ h. and-left partial (is_undefined v) h)
      λ _.
        option-holds (Passed partial (Ranges low high))
          (in_range low high (if is_nullish v then nat standard else to_number v)) (λ _. tt)
          (λ n e. in_range-Ranges low high _ e)

name_field-Passed :
    (partial : Bool) (v : Value) → Passed partial (λ s. is_empty s ≡ false) (name_field partial v)
unfolding name_field
name_field-Passed partial v =
    if-holds (Passed partial (λ s. is_empty s ≡ false)) (partial && is_undefined v)
      (λ h. and-left partial (is_undefined v) h)
      λ _.
        if-holds (Passed partial (λ s. is_empty s ≡ false)) (is_empty (trim (text_of v))) (λ _. tt)
          (λ full. full)

country_field-Passed :
    (platform : Platform) (partial : Bool) (v : Value)
    → Passed partial (λ s. is_country s ≡ true) (country_field platform partial v)
unfolding country_field
country_field-Passed platform partial v =
    if-holds (Passed partial (λ s. is_country s ≡ true)) (partial && is_undefined v)
      (λ h. and-left partial (is_undefined v) h)
      λ _.
        if-holds (Passed partial (λ s. is_country s ≡ true))
          (is_country (platform.to_upper (trim (if is_nullish v then "US" else to_string v))))
          (λ fits. fits) (λ _. tt)

-- What the fields of a payload are.
abbrev pub IsName : String → Type 0
IsName s = is_empty s ≡ false

abbrev pub IsCountry : String → Type 0
IsCountry s = is_country s ≡ true

abbrev pub IsNormal : Bool → Payload → Type 0
IsNormal partial p =
    Present partial IsName p.name
    × Present partial IsCountry p.default_country
    × Present partial (Ranges 1 (some 10)) p.max_concurrent
    × Present partial (Ranges 0 (some 5)) p.max_retries
    × Present partial (Ranges 5 none) p.retry_interval_minutes

pub normalize_payload-IsNormal :
    (platform : Platform) (payload : Fields) (partial : Bool)
    → Holds (IsNormal partial) (normalize_payload platform payload partial)
unfolding normalize_payload max_concurrent_field max_retries_field retry_interval_field
normalize_payload-IsNormal platform payload partial =
    let Q = IsNormal partial in
    Holds-step Q (Present partial IsName) (name_field partial (get payload "name")) _
      (name_field-Passed partial _)
      λ name _ p1.
        Holds-step Q (Present partial IsCountry)
          (country_field platform partial (get payload "defaultCountry")) _
          (country_field-Passed platform partial _)
          λ country _ p2.
            Holds-step Q (Present partial (Ranges 1 (some 10)))
              (max_concurrent_field partial payload) _ (concurrent partial payload)
              λ concurrent _ p3.
                Holds-step Q (Present partial (Ranges 0 (some 5)))
                  (max_retries_field partial payload) _ (retries partial payload)
                  λ retries _ p4.
                    Holds-step Q (Present partial (Ranges 5 none))
                      (retry_interval_field partial payload) _ (interval partial payload)
                      λ interval _ p5. (p1, p2, p3, p4, p5)
  where
    concurrent :
        (partial : Bool) (payload : Fields)
        → Passed partial (Ranges 1 (some 10)) (max_concurrent_field partial payload)
    concurrent partial payload = number_field-Passed partial _ 3 1 (some 10) _

    retries :
        (partial : Bool) (payload : Fields)
        → Passed partial (Ranges 0 (some 5)) (max_retries_field partial payload)
    retries partial payload = number_field-Passed partial _ 2 0 (some 5) _

    interval :
        (partial : Bool) (payload : Fields)
        → Passed partial (Ranges 5 none) (retry_interval_field partial payload)
    interval partial payload = number_field-Passed partial _ 30 5 none _
