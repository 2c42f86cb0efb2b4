-- ===== src/CampaignService/Contacts.antt =====
-- backend/src/campaigns/campaigns.service.ts: `parseCsv` and `uploadContacts`.
use Prim.Native.Char.{Char, code}
use callytics.Csv.{parse_csv_line, add_char}
use callytics.Session.{insert, lookup}
use callytics.CampaignService.{Campaign, Contact, Database, Result, ok, ◌>>=◌, Platform}
use callytics.CampaignService.Rows.{get_by_id, guard, update_rows}
use callytics.Prelude.{
  ℕ, suc, ◌+◌, ◌-◌, String, Bool, not, ◌&&◌, Option, none, some, List, [], ◌∷◌, ◌++◌, map, ◌==◌,
  ltb, eqb, if◌then◌else◌, length, filter, any, trim, is_empty, show_ℕ, concat,
}

-- `replace(/^\uFEFF/, '')`
abbrev pub without_mark : String → String
without_mark String.[] = String.[]
without_mark (String.◌∷◌ c s) = if eqb (code c) 65279 then s else String.◌∷◌ c s

abbrev is_line_feed : Char → Bool
is_line_feed c = eqb (code c) 10

abbrev is_return : Char → Bool
is_return c = eqb (code c) 13

-- `split(/\r?\n/)` of a line that has begun.
unfoldable pub split_lines : String → String → List String
split_lines line String.[] = line ∷ []
split_lines line (String.◌∷◌ c String.[]) =
    let more = split_lines (add_char line c) String.[] in
    if is_line_feed c then line ∷ String.[] ∷ [] else more
split_lines line (String.◌∷◌ c (String.◌∷◌ d s)) =
    let next = split_lines String.[] (String.◌∷◌ d s) in
    let skipped = split_lines String.[] s in
    let more = split_lines (add_char line c) (String.◌∷◌ d s) in
    if is_line_feed c
    then line ∷ next
    else if is_return c && is_line_feed d
    then line ∷ skipped
    else more

abbrev pub Row : Type 0
Row = ℕ × List (String × String)

-- `row[headers[i]] = values[i] || ''` for every header.
unfoldable pub read_values :
    List String → List String → List (String × String) → List (String × String)
read_values [] values row = row
read_values (h ∷ headers) [] row = read_values headers [] (insert h String.[] row)
read_values (h ∷ headers) (v ∷ values) row = read_values headers values (insert h v row)

unfoldable pub number_rows : List String → ℕ → List String → List Row
unfolding read_values
number_rows headers n [] = []
number_rows headers n (line ∷ lines) =
    (n, read_values headers (parse_csv_line line) []) ∷ number_rows headers (suc n) lines

unfoldable pub parse_csv : String → List String × List Row
unfolding split_lines number_rows
parse_csv input =
    elim (filter (λ l. not (is_empty l)) (map trim (split_lines String.[] (without_mark input)))) [
      | [] ↦ ([], [])
      | line ∷ lines ↦
          let headers = map trim (parse_csv_line line) in (headers, number_rows headers 2 lines)
    ]

-- The variables of the loop; `inserted` has the newest row first.
pub record Upload : Type 0 where
  pub seen_numbers : List String
  pub inserted : List Contact
  pub skipped_reasons : List String
  pub imported : ℕ
  pub skipped : ℕ

pub record Report : Type 0 where
  pub imported : ℕ
  pub skipped : ℕ
  pub total : ℕ
  pub skipped_reasons : List String

abbrev pub has : String → List String → Bool
has number numbers = any numbers (λ n. n == number)

unfoldable pub text_at : String → List (String × String) → String
text_at key values = elim (lookup key values) [ none ↦ String.[] | some v ↦ trim v ]

unfoldable pub add_skip_reason : String → Upload → Upload
add_skip_reason reason u = record u {
  skipped = suc u.skipped;
  skipped_reasons =
      if ltb (length u.skipped_reasons) 10
      then u.skipped_reasons ++ reason ∷ []
      else u.skipped_reasons;
}

unfoldable pub row_reason : ℕ → String → String
row_reason n text = concat "row " (concat (show_ℕ n) text)

unfoldable pub quoted : String → String → String → String
quoted before text after = concat before (concat "\"" (concat text (concat "\"" after)))

-- `normalize` is `normalizePhoneNumber`, which asks libphonenumber for the number's E.164 form.
module _ (normalize : String → String → Option String) where
  unfoldable pub import_row : ℕ → String → Row → Upload → Upload
  unfolding row_reason quoted add_skip_reason text_at
  import_row id country (n, values) u =
      let raw = text_at "phone_number" values in
      let name = text_at "name" values in
      if is_empty raw
      then add_skip_reason (row_reason n ": missing phone_number") u
      else elim (normalize raw country) [
        | none ↦
            add_skip_reason
              (row_reason n (quoted ": cannot parse " raw (concat " as valid number for " country)))
              u
        | some number ↦
            if has number u.seen_numbers
            then add_skip_reason (row_reason n (quoted ": duplicate number in campaign " number ""))
                u
            else record u {
              seen_numbers = number ∷ u.seen_numbers;
              inserted =
                  record {
                    campaign_id = id;
                    phone_number = number;
                    name = if is_empty name then none else some name;
                  }
                  ∷ u.inserted;
              imported = suc u.imported;
            }
      ]

  unfoldable pub import_rows : ℕ → String → List Row → Upload → Upload
  unfolding import_row
  import_rows id country [] u = u
  import_rows id country (row ∷ rows) u = import_rows id country rows (import_row id country row u)

abbrev pub of_campaign : ℕ → Contact → Bool
of_campaign id c = eqb c.campaign_id id

-- The numbers that the campaign has already.
unfoldable pub numbers_of : ℕ → List Contact → List String
numbers_of id contacts =
    filter (λ n. not (is_empty n))
      (map (λ (c : Contact). trim c.phone_number) (filter (of_campaign id) contacts))

unfoldable pub start_upload : ℕ → List Contact → Upload
unfolding numbers_of
start_upload id contacts = record {
  seen_numbers = numbers_of id contacts;
  inserted = [];
  skipped_reasons = [];
  imported = 0;
  skipped = 0;
}

unfoldable pub report : Upload → Report
report u = record {
  imported = u.imported;
  skipped = u.skipped;
  total = u.imported + u.skipped;
  skipped_reasons =
      if ltb (length u.skipped_reasons) u.skipped
      then u.skipped_reasons
        ++ concat "... and " (concat (show_ℕ (u.skipped - length u.skipped_reasons)) " more") ∷ []
      else u.skipped_reasons;
}

-- The new contacts are inserted, and the campaign's contacts are counted again.
unfoldable pub save_upload : ℕ → Upload → Database → Database
unfolding update_rows
save_upload id u db =
    let contacts = u.inserted ++ db.contacts in
    record db {
      contacts = contacts;
      campaigns =
          update_rows id
            (λ c. record c { total_contacts = length (filter (of_campaign id) contacts) })
            db.campaigns;
    }

-- `mapCampaignRow` and `uploadContacts` both put the country in upper case.
unfoldable pub country_of : Platform → Campaign → String
country_of platform c =
    platform.to_upper
      (platform.to_upper (if is_empty c.default_country then "US" else c.default_country))

unfoldable pub upload_contacts :
    Platform
    → (String → String → Option String)
    → ℕ
    → String
    → Database
    → Result (Database × Report)
unfolding get_by_id country_of parse_csv import_rows start_upload report save_upload
upload_contacts platform normalize id input db = do
  c ← get_by_id id db
  let parsed = parse_csv input
  _ ← guard (has "phone_number" (parsed.0)) "CSV must include phone_number column"
  let u = import_rows normalize id (country_of platform c) (parsed.1) (start_upload id db.contacts)
  ok (save_upload id u db, report u)
