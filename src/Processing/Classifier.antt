-- ===== src/Processing/Classifier.antt =====
-- `RuleBasedDocumentClassifier.classify` (src/document_core/processing.py). Lower-casing a text is
-- a parameter.
use Prim.Native.String.{find, len}
use document_feeder.Prelude.{
  ℕ, ◌+◌, ◌*◌, ◌/◌, String, ◌≡◌, refl, Bool, List, [], ◌∷◌, leb, length, select, if◌then◌else◌,
}
use document_feeder.Processing.{ClassificationResult}

-- `DOCUMENT_TYPES`, in its order
abbrev pub document_types : List (String × List String)
document_types =
    ("correspondence", "anschreiben" ∷ "korrespondenz" ∷ "brief" ∷ "letter" ∷ [])
    ∷ ("report", "bericht" ∷ "protokoll" ∷ "auswertung" ∷ "report" ∷ [])
    ∷ ("invoice", "rechnung" ∷ "rechnungsnummer" ∷ "gesamtbetrag" ∷ "invoice" ∷ [])
    ∷ ("form", "formular" ∷ "antrag" ∷ "fragebogen" ∷ "form" ∷ [])
    ∷ []

-- `keyword in lowered`
unfoldable pub occurs_in : String → String → Bool
occurs_in keyword lowered = leb (find lowered keyword) (len lowered)

unfoldable pub matches : String → List (String × List String) → List (String × List String)
unfolding occurs_in
matches lowered [] = []
matches lowered ((name, keywords) ∷ rest) =
    (name, select (λ k. occurs_in k lowered) keywords) ∷ matches lowered rest

-- `max(matches, key=…)`: of equals the first
unfoldable pub best : String × List String → List (String × List String) → String × List String
best m [] = m
best m (x ∷ xs) = best (if leb (length x.1) (length m.1) then m else x) xs

unfoldable pub total_matches : List (String × List String) → ℕ
total_matches [] = 0
total_matches (x ∷ xs) = length x.1 + total_matches xs

-- `round(a / b, 3)` in thousandths. A tie would need 16 to divide `b`; there are 16 keywords, and
-- then `a` is 4, which is no tie.
unfoldable pub confidence : ℕ → ℕ → ℕ
confidence a b = (2000 * a + b) / (2 * b)

result : String × List String → ℕ → ClassificationResult
unfolding confidence
result (name, []) total = record {
  document_type = "unknown";
  confidence = 0;
  evidence = [];
  provider = "rules";
  model_version = "rules-v1";
}
result (name, k ∷ ks) total = record {
  document_type = name;
  confidence = confidence (length (k ∷ ks)) total;
  evidence = k ∷ ks;
  provider = "rules";
  model_version = "rules-v1";
}

classify_matches : List (String × List String) → ClassificationResult
unfolding result best total_matches
classify_matches [] = result ("", []) 0
classify_matches (m ∷ ms) = result (best m ms) (total_matches (m ∷ ms))

unfoldable pub classify : (String → String) → String → ClassificationResult
unfolding classify_matches matches
classify lower s = classify_matches (matches (lower s) document_types)

classify_invoice : (classify (λ s. s) "rechnung rechnungsnummer bericht").document_type ≡ "invoice"
unfolding classify
classify_invoice = refl
