-- ===== src/Models/Target.antt =====
-- Target systems, delivery rules and input channels (src/document_core/models.py).
use document_feeder.Prelude.{ℕ, String, Bool, Option, List}

pub record TargetSystem : Type 0 where
  pub id : String
  pub name : String
  pub kind : String
  pub endpoint_url : Option String
  pub healthcheck_url : Option String
  pub directory : String
  pub path_template : String
  pub bearer_token : Option String
  pub graph_tenant_id : Option String
  pub graph_client_id : Option String
  pub graph_client_secret : Option String
  pub graph_drive_id : Option String
  pub graph_folder : String
  pub timeout_seconds : ℕ
  pub max_response_bytes : ℕ
  pub enabled : Bool
  pub is_default : Bool
  pub last_delivery_at : Option ℕ
  pub last_error : Option String
  pub created_at : ℕ
  pub updated_at : ℕ

pub record DeliveryRule : Type 0 where
  pub id : String
  pub name : String
  pub document_type : String
  pub target_system_id : String
  pub path_template : Option String
  pub enabled : Bool
  pub priority : ℕ
  pub created_at : ℕ
  pub updated_at : ℕ

pub record InputChannel : Type 0 where
  pub id : String
  pub name : String
  pub kind : String
  pub directory : String
  pub patterns : List String
  pub enabled : Bool
  pub last_ingested_at : Option ℕ
  pub last_error : Option String
  pub created_at : ℕ
  pub updated_at : ℕ
