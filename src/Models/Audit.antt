-- ===== src/Models/Audit.antt =====
-- Audit events and the answer of the integrity check (src/document_core/models.py).
use document_feeder.Prelude.{ℕ, String, Option}
use document_feeder.Json.{Fields}

pub record AuditEvent : Type 0 where
  pub id : String
  pub actor_user_id : Option String
  pub actor_username : String
  pub action : String
  pub resource_type : String
  pub resource_id : Option String
  pub outcome : String
  pub status_code : ℕ
  pub details : Fields
  pub created_at : ℕ

pub record AuditIntegrityStatus : Type 0 where
  pub status : String
  pub checked : ℕ
  pub first_invalid_index : Option ℕ
  pub detail : Option String
