-- ===== src/BusinessHours/Tests.antt =====
-- A node that is open on Mondays from nine to five (stasis/src/executors/business_hours.executor.ts).
use callytics.BusinessHours.{evaluate_business_hours}
use callytics.BusinessHours.Opening.{IsOpen, evaluate_business_hours-IsOpen}
use callytics.Js.{Fields, end, field, str, bool, obj, Number, nat}
use callytics.Prelude.{String, ◌≡◌, refl, ◌↔◌, true, Option, some, trim}

abbrev monday : Fields
monday =
    field "enabled" (bool true) (field "open" (str "09:00") (field "close" (str " 17:00 ") end))

abbrev hours : Fields
hours =
    field "timezone" (str "Asia/Colombo")
      (field "schedule" (obj (field "monday" (obj monday) end)) end)

abbrev monday_noon : String → Option (String × Number × Number)
monday_noon timezone = some ("monday", nat 12, nat 5)

open_at_noon : evaluate_business_hours monday_noon hours ≡ "open"
unfolding evaluate_business_hours trim callytics.Js.text_of callytics.Js.get
    callytics.BusinessHours.resolve_now_parts callytics.BusinessHours.property
    callytics.BusinessHours.to_minutes
open_at_noon = refl

evaluate_business_hours-IsOpen_example :
    (evaluate_business_hours monday_noon hours ≡ "open") ↔ IsOpen monday_noon hours
evaluate_business_hours-IsOpen_example = evaluate_business_hours-IsOpen monday_noon hours
