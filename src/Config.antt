-- ===== src/Config.antt =====
-- The settings that the pipeline reads, and the directories derived from them
-- (src/document_core/config.py).
use document_feeder.Prelude.{ℕ, String, ◌<>◌, Bool, Option, none, some}

-- `delivered_file_policy`, whose pattern admits these three
pub data FilePolicy : Type 0 where
  retain archive delete : FilePolicy

pub record Settings : Type 0 where
  pub data_dir : String
  pub input_root_dir : Option String
  pub work_dir : Option String
  pub destination_root_dir : Option String
  pub delivered_file_policy : FilePolicy
  pub worker_lease_seconds : ℕ
  pub worker_max_attempts : ℕ
  pub worker_retry_base_seconds : ℕ
  pub require_routing_reference : Bool
  pub ingest_chunk_size_bytes : ℕ
  pub max_file_size_bytes : ℕ
  pub session_ttl_hours : ℕ
  pub login_max_attempts : ℕ
  pub login_window_minutes : ℕ
  pub auth_enabled : Bool
  pub license_public_key : String
  pub connector_entitlements : String

-- `directory / name`, for a name that is no absolute path
infixl 70 ◌//◌
abbrev pub ◌//◌ : String → String → String
dir // name = dir <> ("/" <> name)

abbrev pub or_else : Option String → String → String
or_else none default = default
or_else (some dir) default = dir

abbrev pub work_root_dir : Settings → String
work_root_dir s = or_else s.work_dir s.data_dir

abbrev pub inbox_dir : Settings → String
inbox_dir s = work_root_dir s // "inbox"

abbrev pub input_root : Settings → String
input_root s = or_else s.input_root_dir s.data_dir

abbrev pub destination_root : Settings → String
destination_root s = or_else s.destination_root_dir s.data_dir

abbrev pub hotfolder_dir : Settings → String
hotfolder_dir s = input_root s // "hotfolder"

abbrev pub output_dir : Settings → String
output_dir s = destination_root s // "output"

abbrev pub quarantine_dir : Settings → String
quarantine_dir s = work_root_dir s // "quarantine"

abbrev pub completed_dir : Settings → String
completed_dir s = work_root_dir s // "completed"
