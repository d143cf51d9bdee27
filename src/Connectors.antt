-- ===== src/Connectors.antt =====
-- The boundary to target systems: receipts and delivery errors (src/document_core/connectors.py).
pub mod Http
pub mod Transfer
use document_feeder.Prelude.{ℕ, String, Option}
use document_feeder.Json.{Fields, text, object, empty, field, optional_text, optional_number}

pub record DeliveryReceipt : Type 0 where
  pub reference : String
  pub connector : String
  pub status_code : Option ℕ
  pub content_type : Option String
  pub details : Fields

-- `DeliveryReceipt.metadata`
unfoldable pub receipt_metadata : DeliveryReceipt → Fields
receipt_metadata r = field "reference" (text r.reference) (
    field "connector" (text r.connector) (
      field "status_code" (optional_number r.status_code) (
        field "content_type" (optional_text r.content_type)
          (field "details" (object r.details) empty))))

-- The exceptions that reach the pipeline, with their texts: `PermanentConnectorError`,
-- `TemporaryConnectorError` with its `retry_after_seconds`, `OSError`, and all others.
pub data Failure : Type 0 where
  permanent : String → Failure
  temporary : String → Option ℕ → Failure
  os_error : String → Failure
  other : String → Failure

-- `str(exc)`
unfoldable pub message : Failure → String
message (permanent m) = m
message (temporary m _) = m
message (os_error m) = m
message (other m) = m
