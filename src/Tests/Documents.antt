-- ===== src/Tests/Documents.antt =====
-- A document that is processed and released, with an extractor and a connector that are busy
-- (src/document_core/pipeline.py).
use document_feeder.Prelude.{
  ℕ, suc, ◌+◌, ◌<◌, String, ◌≡◌, refl, ◌⊎◌, true, false, none, some, List, [], ◌∷◌, raise, eqb,
  if◌then◌else◌,
}
use document_feeder.Json.{empty, get}
use document_feeder.Models.Job.{
  DocumentJob, JobEvent, received, processing, quarantined, delivered, failed,
}
use document_feeder.Config.{Settings, retain}
use document_feeder.Connectors.{Failure, temporary, other, message}
use document_feeder.Store.Database.{redact}
use document_feeder.Prelude.Exec.{◌>>=◌, try_except}
use document_feeder.Prelude.Decimal.{to_decimal}
use document_feeder.Store.Events.{save_event}
use document_feeder.Secrets.Redaction.{redact_text}
use document_feeder.Processing.{validate}
use document_feeder.Store.Jobs.{values, save, claim_delivery}
use document_feeder.Pipeline.World.{Environment, Run, save_job, save_target}
use document_feeder.Pipeline.Delivery.{deliver}
use document_feeder.Pipeline.Activity.{an_event, event}
use document_feeder.Pipeline.Activity.Laws.{IsRecordError}
use document_feeder.Pipeline.Activity.Order.{IsLogged, event-later}
use document_feeder.Pipeline.Process.{process, recover, print_delay, at_least, backoff, deliver_job}
use document_feeder.Pipeline.Process.Settled.{IsSettled, IsFree, process-IsSettled, process-Raises}
use document_feeder.Pipeline.Process.Retry.{may_retry, delay_after, recover-job}
use document_feeder.Pipeline.Release.{release}
use document_feeder.Pipeline.Release.Claim.{release-claimed}
use document_feeder.Tests.Queue.{first_job}

abbrev pub settings : Settings
settings = record {
  data_dir = "/data";
  input_root_dir = none;
  work_dir = none;
  destination_root_dir = none;
  delivered_file_policy = retain;
  worker_lease_seconds = 300;
  worker_max_attempts = 3;
  worker_retry_base_seconds = 5;
  require_routing_reference = false;
  ingest_chunk_size_bytes = 4096;
  max_file_size_bytes = 1000000;
  session_ttl_hours = 12;
  login_max_attempts = 2;
  login_window_minutes = 15;
  auth_enabled = true;
  license_public_key = "key";
  connector_entitlements = "";
}

abbrev busy : Failure
busy = temporary "busy" (some 60)

-- everything that the environment does fails, with the same error
abbrev pub environment : Environment
environment = record {
  settings = settings;
  clock = λ n. 1000 + n;
  uuid = λ n. if eqb n 0 then "u0" else "u1";
  isoformat = λ t. "";
  validation_error = λ f. f;
  database_error = "database";
  Files = ℕ;
  resolve = λ p files. p;
  make_parents = λ p files. raise busy;
  replace_file = λ p q files. raise busy;
  unlink = λ p files. raise busy;
  extract = λ p files. raise busy;
  classify = λ s. raise busy;
  extract_metadata = λ s t. empty;
  Connector = Unit;
  default_connector = tt;
  default_connector_name = "FilesystemConnector";
  create_connector = λ t. raise busy;
  connector_deliver = λ c job files. (raise busy, suc files);
}

-- a call on a job that is stored, with the events so far
abbrev call_on : DocumentJob → List JobEvent → Run ℕ
call_on job events = record {
  job = job;
  db = record {
    jobs = values job ∷ [];
    events = events;
    targets = [];
    rules = [];
    settings = [];
    cipher = record { keys = none; known = [] };
  };
  files = 0;
  last_event_at = [];
  readings = 0;
  draws = 0;
  target = none;
}

abbrev running : DocumentJob
running = record first_job { status = processing; attempt_count = 1; worker_id = some "w1" }

abbrev waiting : DocumentJob
waiting = record running {
  status = received;
  errors = "busy" ∷ [];
  last_error = some "busy";
  next_attempt_at = some 60001000;
}

recover-job_example : (recover environment busy (call_on running [])).1.job ≡ waiting
unfolding at_least backoff redact redact_text message may_retry delay_after
recover-job_example = recover-job environment busy (call_on running [])

abbrev event_with : String → JobEvent
event_with id = record {
  id = id;
  job_id = "a";
  event_type = "ingested";
  status = "received";
  message = "m";
  attempt = none;
  target_system_id = none;
  target_name = none;
  delivery_rule = none;
  external_reference = none;
  error = none;
  details = empty;
  started_at = 1;
  completed_at = none;
}

-- the first identifier is taken
process-Raises_example : IsRecordError environment (other "database")
unfolding process ◌>>=◌ event to_decimal get save_event
process-Raises_example =
    process-Raises environment (call_on running (event_with "u0" ∷ [])) (other "database") refl

abbrev put_back : DocumentJob
put_back = record running {
  status = received;
  worker_id = none;
  errors = "busy" ∷ [];
  last_error = some "busy";
  next_attempt_at = some 60001001;
  updated_at = 1003;
}

process-IsSettled_example : IsSettled 3 put_back × IsFree put_back
unfolding process ◌>>=◌ event to_decimal get save_event try_except print_delay at_least backoff
    save_job save redact redact_text message
process-IsSettled_example = process-IsSettled environment (call_on running []) put_back refl

abbrev earlier : Run ℕ
earlier = record (call_on running []) { last_event_at = ("a", 5000) ∷ [] }

-- the clock stands before the last event
event-later_example :
    (start : ℕ) × (5000 < start)
    × IsLogged earlier start (event environment (an_event "review_saved" "m") earlier).1
unfolding event ◌>>=◌ get save_event
event-later_example = event-later environment (an_event "review_saved" "m") earlier 5000 refl refl

abbrev to_release : DocumentJob
to_release = record first_job { status = quarantined; document_type = "invoice" }

abbrev release_ended : DocumentJob
release_ended = record to_release {
  status = failed;
  errors = "busy" ∷ [];
  last_error = some "busy";
  updated_at = 1003;
}

release-claimed_example : (release_ended.status ≡ delivered) ⊎ (release_ended.status ≡ failed)
unfolding release ◌>>=◌ validate claim_delivery values try_except deliver_job deliver event get
    save_event save_target save_job save redact redact_text message
release-claimed_example =
    release-claimed environment (call_on to_release []) release_ended refl refl refl refl
