-- ===== src/Csv/Tests.antt =====
-- Lines of a list of contacts (backend/src/campaigns/campaigns.service.ts).
use callytics.Csv.{parse_csv_line}
use callytics.Csv.RoundTrip.{print_line, parse_csv_line-print_line}
use callytics.Prelude.{◌≡◌, refl, [], ◌∷◌, map, trim}

plain : parse_csv_line "0771234567, Ann ,\"Perera, N.\"" ≡ "0771234567" ∷ "Ann" ∷ "Perera, N." ∷ []
unfolding parse_csv_line trim
plain = refl

parse_csv_line-print_line_example :
    parse_csv_line (print_line "077" ("say \"hi\", now" ∷ []))
    ≡ map trim ("077" ∷ "say \"hi\", now" ∷ [])
parse_csv_line-print_line_example = parse_csv_line-print_line "077" ("say \"hi\", now" ∷ [])
