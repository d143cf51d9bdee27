-- ===== src/Pipeline/Ingest.antt =====
-- The reception of documents: `ingest`, `_stage_and_hash` and `_record_duplicate` of
-- `DocumentPipeline` (src/document_core/pipeline.py). The file does not change while it is read.
pub mod Staging
pub mod Received
use document_feeder.Prelude.{
  ℕ, suc, ◌+◌, String, ◌<>◌, Bool, true, false, not, Option, none, some, List, [], ◌∷◌, ◌++◌, ◌==◌,
  ltb, length, if◌then◌else◌, Outcome, ok, raise,
}
use mathlib.Core.Option
use document_feeder.Prelude.Exec.{Exec, pure, throw, gets, lift, try_except, ◌>>=◌, ◌>>◌}
use document_feeder.Prelude.Decimal.{to_decimal}
use document_feeder.Prelude.Text.{take_chars}
use document_feeder.Json.{text, number, object, empty, field}
use document_feeder.Auth.{Bytes}
use document_feeder.Config.{inbox_dir, ◌//◌}
use document_feeder.Models.Job.{DocumentJob, received}
use document_feeder.Models.Target.{TargetSystem}
use document_feeder.Connectors.{Failure, other}
use document_feeder.Secrets.Cipher.{SecretCipher}
use document_feeder.Intake.Chunks.{chunks}
use document_feeder.Intake.Validation.{Rejection, file_too_large, detect_and_validate_type}
use document_feeder.Intake.Malware.{MalwareScanner, MalwareScanResult, Network, scan}
use document_feeder.Store.Database.{Database}
use document_feeder.Store.Jobs.{JobTable, StoreError, create_if_absent, find_by_hash}
use document_feeder.Store.Settings.{get_system_setting}
use document_feeder.Store.Targets.{TargetError, get_default_target_system}
use document_feeder.Pipeline.World.{Environment, Run, Method, target_failure}
use document_feeder.Pipeline.Activity.{an_event, event}

-- What the reception takes from outside besides the environment of the pipeline: the scanner and
-- its network, temporary files, reading and writing of files, SHA-256 of bytes, and the name and
-- the lower-case suffix of a path.
pub record IngestEnvironment : Type 1 where
  pub base : Environment
  pub scanner : MalwareScanner
  pub network : base.Files → Network
  pub create_temporary : String → base.Files → Outcome Failure (String × base.Files)
  pub read_file : String → base.Files → Outcome Failure Bytes
  pub append_file : String → Bytes → base.Files → Outcome Failure base.Files
  pub sha256_hexdigest : Bytes → String
  pub file_name : String → String
  pub suffix_of : String → String

-- The state in the reception of one file.
pub record Reception (Files : Type 0) : Type 0 where
  pub db : Database
  pub files : Files
  pub last_event_at : List (String × ℕ)
  pub readings : ℕ
  pub draws : ℕ

pub data IngestError : Type 0 where
  rejected : Rejection → IngestError
  failed : Failure → IngestError

-- What the checks lead to: the document is there already, or its file has been moved.
pub data Prepared : Type 0 where
  duplicate : DocumentJob → Prepared
  moved : DocumentJob → Prepared

abbrev pub target_id_of : Option TargetSystem → Option String
target_id_of = Option.map (λ t. t.id)

abbrev pub is_enabled : Option String → Bool
is_enabled none = false
is_enabled (some s) = s == "true"

module _ (env : IngestEnvironment) where
  abbrev pub Step : Type 0 → Type 0
  Step A = Exec (Reception env.base.Files) IngestError A

  -- a call of the file system that changes it
  unfoldable pub filed : Outcome Failure env.base.Files → Step Unit
  filed (ok files) s = (ok tt, record s { files = files })
  filed (raise e) s = (raise (failed e), s)

  unfoldable pub unlink : String → Step Unit
  unfolding filed
  unlink path s = filed (env.base.unlink path s.files) s

  unfoldable pub append : String → Bytes → Step Unit
  unfolding filed
  append path chunk s = filed (env.append_file path chunk s.files) s

  unfoldable pub replace_by : String → String → Step Unit
  unfolding filed
  replace_by path new s = filed (env.base.replace_file path new s.files) s

  unfoldable pub created_file : Outcome Failure (String × env.base.Files) → Step String
  created_file (ok (path, files)) s = (ok path, record s { files = files })
  created_file (raise e) s = (raise (failed e), s)

  abbrev pub failure_of : {A : Type 0} → Outcome Failure A → Outcome IngestError A
  failure_of (ok a) = ok a
  failure_of (raise e) = raise (failed e)

  abbrev pub rejection_of : {A : Type 0} → Outcome Rejection A → Outcome IngestError A
  rejection_of (ok a) = ok a
  rejection_of (raise e) = raise (rejected e)

  abbrev pub contents : String → Step Bytes
  contents path s = (failure_of (env.read_file path s.files), s)

  abbrev pub ingest_now : Step ℕ
  ingest_now s = (ok (env.base.clock s.readings), record s { readings = suc s.readings })

  abbrev pub ingest_id : Step String
  ingest_id s = (ok (env.base.uuid s.draws), record s { draws = suc s.draws })

  unfoldable pub after_run : {A : Type 0} → Outcome Failure A × Run env.base.Files → Step A
  after_run (r, run) s = (
    failure_of r,
    record {
      db = run.db;
      files = run.files;
      last_event_at = run.last_event_at;
      readings = run.readings;
      draws = run.draws;
    },
  )

  -- a method of the pipeline on a job
  unfoldable pub on_job : {A : Type 0} → Method env.base A → DocumentJob → Step A
  unfolding after_run
  on_job m job s =
      after_run
        (m (record {
          job = job;
          db = s.db;
          files = s.files;
          last_event_at = s.last_event_at;
          readings = s.readings;
          draws = s.draws;
          target = none;
        }))
        s

  -- the loop of `_stage_and_hash`: what has been digested, and its size
  unfoldable pub stage_chunks : String → List Bytes → Bytes → ℕ → Step (Bytes × ℕ)
  unfolding append
  stage_chunks staged [] digested size = pure (digested, size)
  stage_chunks staged (chunk ∷ rest) digested size =
      let more = stage_chunks staged rest (digested ++ chunk) (size + length chunk) in
      if ltb env.base.settings.max_file_size_bytes (size + length chunk)
      then throw (
          rejected (
            file_too_large (
              "Datei überschreitet das Limit von "
              <> (to_decimal env.base.settings.max_file_size_bytes <> " Bytes"))))
      else (append staged chunk >> more)

  unfoldable pub stage_file : String → String → Step (String × String × ℕ)
  unfolding stage_chunks chunks
  stage_file source staged = contents source >>= λ content.
      stage_chunks staged (chunks env.base.settings.ingest_chunk_size_bytes content) [] 0 >>= λ r.
      pure (staged, env.sha256_hexdigest r.0, r.1)

  -- `_stage_and_hash`
  unfoldable pub stage_and_hash : String → Step (String × String × ℕ)
  unfolding stage_file created_file unlink
  stage_and_hash source =
      (λ s. created_file (env.create_temporary (inbox_dir env.base.settings) s.files) s)
      >>= λ staged. try_except (stage_file source staged) (λ e. unlink staged >> throw e)

  -- `_record_duplicate`
  unfoldable pub record_duplicate : DocumentJob → String → String → Step Unit
  unfolding on_job
  record_duplicate job source filename =
      on_job
        (event env.base
          (record (an_event "duplicate_detected"
            "Identischer Dokumentinhalt wurde bereits erfasst") {
              details = field "source" (text source) (
                  field "filename" (text filename) (
                    field "sha256" (text job.sha256)
                      (field "existing_job_id" (text job.id) empty)));
            }))
        job

  -- the scan, where the operator has not paused it
  unfoldable pub scan_staged : String → Step MalwareScanResult
  scan_staged staged s =
      if is_enabled (get_system_setting "malware_scanning_enabled" (some "true") s.db.settings)
      then (rejection_of (scan (env.network s.files) env.scanner staged), s)
      else (ok (record { status = "paused"; engine = "operator" }), s)

  defaulted : Outcome TargetError (Option TargetSystem) × SecretCipher → Step (Option TargetSystem)
  unfolding target_failure
  defaulted (ok t, c) s = (ok t, record s { db = record s.db { cipher = c } })
  defaulted (raise e, c) s =
      (raise (failed (target_failure env.base e)), record s { db = record s.db { cipher = c } })

  -- `self.store.get_default_target_system()`
  unfoldable pub default_target : Step (Option TargetSystem)
  unfolding defaulted
  default_target s = defaulted (get_default_target_system s.db.targets s.db.cipher) s

  abbrev pub new_job :
      String
      → String
      → String
      → String
      → String
      → ℕ
      → MalwareScanResult
      → Option String
      → String
      → ℕ
      → ℕ
      → DocumentJob
  new_job source filename path hash type size scanned target id created updated = record {
    id = id;
    status = received;
    source = source;
    original_filename = filename;
    stored_path = path;
    sha256 = hash;
    document_type = "unknown";
    routing_reference = none;
    target_system_id = target;
    delivery_path_template = none;
    metadata = field "ingest_content_type" (text type) (
        field "ingest_size_bytes" (number size) (
          field "malware_scan"
            (object
              (field "status" (text scanned.status) (field "engine" (text scanned.engine) empty)))
            empty));
    review_history = [];
    text_preview = "";
    errors = [];
    attempt_count = 0;
    next_attempt_at = none;
    lease_expires_at = none;
    worker_id = none;
    last_error = none;
    created_at = created;
    updated_at = updated;
    duplicate = false;
  }

  abbrev pub final_path : String → String → String
  final_path hash filename =
      inbox_dir env.base.settings // (take_chars 12 hash <> ("-" <> filename))

  unfoldable pub prepared :
      String
      → String
      → String
      → String
      → ℕ
      → String
      → MalwareScanResult
      → Option DocumentJob
      → Step Prepared
  unfolding record_duplicate default_target replace_by
  prepared source filename staged hash size type scanned (some existing) =
      record_duplicate existing source filename
      >> pure (Prepared.duplicate (record existing { duplicate = true }))
  prepared source filename staged hash size type scanned none = default_target >>= λ target.
      ingest_id >>= λ id. ingest_now >>= λ created. ingest_now >>= λ updated.
      replace_by staged (final_path hash filename)
      >> pure (
          moved (
            new_job source filename (final_path hash filename) hash type size scanned
              (target_id_of target) id created updated))

  -- the checks of the staged file
  unfoldable pub examine : String → String → String → String → ℕ → Step Prepared
  unfolding scan_staged prepared detect_and_validate_type
  examine source filename staged hash size = contents staged >>= λ content.
      lift (rejection_of (detect_and_validate_type (env.suffix_of filename) content)) >>= λ type.
      scan_staged staged >>= λ scanned.
      gets (λ s. find_by_hash hash s.db.jobs)
      >>= prepared source filename staged hash size type scanned

  abbrev pub is_at : String → Option DocumentJob → Bool
  is_at path none = false
  is_at path (some job) = job.stored_path == path

  -- what follows `create_if_absent`
  unfoldable pub persisted :
      String → String → DocumentJob → Outcome StoreError (DocumentJob × Bool) → Step DocumentJob
  unfolding unlink record_duplicate on_job
  persisted source filename job (raise e) =
      gets (λ s. find_by_hash job.sha256 s.db.jobs) >>= λ referenced.
      (if is_at job.stored_path referenced then pure tt else unlink job.stored_path)
      >> throw (failed (other env.base.database_error))
  persisted source filename job (ok (stored, true)) =
      on_job
        (event env.base (record (an_event "ingested" "Dokument wurde angenommen") {
          status = some received;
          details = field "source" (text source) (field "filename" (text filename) empty);
        }))
        stored
      >> pure stored
  persisted source filename job (ok (stored, false)) =
      (if job.stored_path == stored.stored_path then pure tt else unlink job.stored_path)
      >> record_duplicate stored source filename
      >> pure (record stored { duplicate = true })

  -- `self.store.create_if_absent(job)`
  unfoldable pub create_job : DocumentJob → Step (Outcome StoreError (DocumentJob × Bool))
  create_job job s =
      let (r, jobs) = create_if_absent job s.db.jobs in
      (ok r, record s { db = record s.db { jobs = jobs } })

  unfoldable pub settle : String → String → String → Prepared → Step DocumentJob
  unfolding create_job persisted unlink
  settle source filename staged (Prepared.duplicate job) = unlink staged >> pure job
  settle source filename staged (moved job) = create_job job >>= persisted source filename job

  -- `Path(original_filename or source_path.name).name`
  abbrev pub name_of : String → Option String → String
  name_of source_path none = env.file_name source_path
  name_of source_path (some original) =
      env.file_name (if original == "" then source_path else original)

  -- `ingest`
  unfoldable pub ingest : String → String → Option String → Step DocumentJob
  unfolding stage_and_hash examine settle
  ingest source_path source original_filename =
      let filename = name_of source_path original_filename in
      stage_and_hash source_path >>= λ staged.
      try_except (examine source filename staged.0 staged.1 staged.2)
        (λ e. unlink staged.0 >> throw e)
      >>= settle source filename staged.0
