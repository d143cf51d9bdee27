-- ===== src/Models/Job.antt =====
-- Jobs, their events and their reviews (src/document_core/models.py).
use document_feeder.Prelude.{ℕ, String, Bool, Option, List}
use document_feeder.Json.{Fields}

pub data JobStatus : Type 0 where
  received processing delivering delivered quarantined failed : JobStatus

pub JobStatus-discrete : Discrete JobStatus
JobStatus-discrete = hlevel

-- `status.value`
abbrev pub value : JobStatus → String
value received = "received"
value processing = "processing"
value delivering = "delivering"
value delivered = "delivered"
value quarantined = "quarantined"
value failed = "failed"

abbrev pub is_received : JobStatus → Bool
is_received received = Bool.true
is_received _ = Bool.false

abbrev pub is_processing : JobStatus → Bool
is_processing processing = Bool.true
is_processing _ = Bool.false

abbrev pub is_delivered : JobStatus → Bool
is_delivered delivered = Bool.true
is_delivered _ = Bool.false

abbrev pub is_quarantined : JobStatus → Bool
is_quarantined quarantined = Bool.true
is_quarantined _ = Bool.false

abbrev pub is_failed : JobStatus → Bool
is_failed failed = Bool.true
is_failed _ = Bool.false

pub record RoutingReference : Type 0 where
  pub namespace : String
  pub type : String
  pub reference_value : String

pub record ReviewEvent : Type 0 where
  pub reviewer : String
  pub reason : String
  pub changes : Fields
  pub reviewed_at : ℕ

pub record ReviewRequest : Type 0 where
  pub reviewer : String
  pub reason : String
  pub document_type : Option String
  pub routing_reference : Option RoutingReference
  pub metadata : Fields
  pub target_system_id : Option String

pub record JobEvent : Type 0 where
  pub id : String
  pub job_id : String
  pub event_type : String
  pub status : String
  pub message : String
  pub attempt : Option ℕ
  pub target_system_id : Option String
  pub target_name : Option String
  pub delivery_rule : Option String
  pub external_reference : Option String
  pub error : Option String
  pub details : Fields
  pub started_at : ℕ
  pub completed_at : Option ℕ

pub record DocumentJob : Type 0 where
  pub id : String
  pub status : JobStatus
  pub source : String
  pub original_filename : String
  pub stored_path : String
  pub sha256 : String
  pub document_type : String
  pub routing_reference : Option RoutingReference
  pub target_system_id : Option String
  pub delivery_path_template : Option String
  pub metadata : Fields
  pub review_history : List ReviewEvent
  pub text_preview : String
  pub errors : List String
  pub attempt_count : ℕ
  pub next_attempt_at : Option ℕ
  pub lease_expires_at : Option ℕ
  pub worker_id : Option String
  pub last_error : Option String
  pub created_at : ℕ
  pub updated_at : ℕ
  pub duplicate : Bool
