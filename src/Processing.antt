-- ===== src/Processing.antt =====
-- Extraction results, classification and workflow rules (src/document_core/processing.py).
pub mod Classifier
use document_feeder.Prelude.{
  ℕ, String, Bool, true, false, not, ◌&&◌, List, [], ◌∷◌, ◌++◌, ◌==◌, if◌then◌else◌,
}
use document_feeder.Json.{
  Fields, Items, nil, item, Json, text, number, thousandths, array, empty, field,
}

pub record ExtractionResult : Type 0 where
  pub text : String
  pub method : String
  pub page_count : ℕ
  pub ocr_pages : List ℕ
  pub warnings : List String

pub record ClassificationResult : Type 0 where
  pub document_type : String
  pub confidence : ℕ  -- in thousandths
  pub evidence : List String
  pub provider : String
  pub model_version : String

abbrev pub texts : List String → Items
texts [] = nil
texts (s ∷ ss) = item (text s) (texts ss)

abbrev pub numbers : List ℕ → Items
numbers [] = nil
numbers (n ∷ ns) = item (number n) (numbers ns)

-- `ExtractionResult.metadata`
unfoldable pub extraction_metadata : ExtractionResult → Fields
extraction_metadata r = field "extraction_method" (text r.method) (
    field "page_count" (number r.page_count) (
      field "ocr_pages" (array (numbers r.ocr_pages))
        (field "extraction_warnings" (array (texts r.warnings)) empty)))

-- `ClassificationResult.metadata`
unfoldable pub classification_metadata : ClassificationResult → Fields
classification_metadata r = field "document_type" (text r.document_type) (
    field "confidence" (thousandths r.confidence) (
      field "evidence" (array (texts r.evidence))
        (field "provider" (text r.provider) (field "model_version" (text r.model_version) empty))))

-- `WorkflowRules.validate`
unfoldable pub validate : Bool → String → Bool → List String
validate require_routing_reference document_type has_routing_reference =
    (if document_type == "unknown" then "Dokumenttyp konnte nicht bestimmt werden" ∷ [] else [])
    ++ (if require_routing_reference && not has_routing_reference
        then "Routing-Referenz fehlt" ∷ []
        else [])
