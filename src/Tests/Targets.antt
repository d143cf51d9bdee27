-- ===== src/Tests/Targets.antt =====
-- Deliveries to target systems (src/document_core/connectors.py).
use document_feeder.Prelude.{
  true, ℕ, ◌≤◌, ◌≡◌, refl, String, Option, none, some, [], ◌∷◌, arith, length, raise,
}
use document_feeder.Prelude.Decimal.{of_decimal}
use document_feeder.Json.{object, empty}
use document_feeder.Connectors.Transfer.{upload_ranges, Cover, sent, upload_ranges-Cover}
use document_feeder.Connectors.{temporary}
use document_feeder.Connectors.Http.{HttpLibrary, json, http_error, deliver_reply}
use document_feeder.Connectors.Http.Bounds.{IsJudged, deliver_reply-IsJudged}

upload_ranges-Cover_example :
    Cover 0 (upload_ranges 2 (7 ∷ 8 ∷ 9 ∷ [])) 3
    × (sent (upload_ranges 2 (7 ∷ 8 ∷ 9 ∷ [])) ≡ 7 ∷ 8 ∷ 9 ∷ [])
upload_ranges-Cover_example = upload_ranges-Cover 2 (7 ∷ 8 ∷ 9 ∷ []) (omega arith)

abbrev library : HttpLibrary
library = record {
  strip = λ s. s;
  isdigit = λ s. true;
  int_of = of_decimal;
  parsedate = λ s. none;
  media_type = λ s. s;
  json_loads = λ bytes. json (object empty);
  str_of = λ v. "";
  decode_replace = λ bytes. "busy";
}

-- A target that is busy names a delay of more than a day.
busy :
    deliver_reply library "j1" 100 0 (http_error 503 [] (some "90000"))
    ≡ raise (temporary "HTTP-Ziel antwortete mit 503: busy" (some 86400))
unfolding deliver_reply document_feeder.Prelude.Decimal.to_decimal
    document_feeder.Prelude.Decimal.of_decimal
busy = refl

deliver_reply-IsJudged_example :
    IsJudged library 100
      (http_error 503 [] (some "90000"))
      (deliver_reply library "j1" 100 0 (http_error 503 [] (some "90000")))
deliver_reply-IsJudged_example =
    deliver_reply-IsJudged library "j1" 100 0 (http_error 503 [] (some "90000"))
