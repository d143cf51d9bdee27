-- ===== src/Web/World.antt =====
-- What the routes work on (src/document_core/api.py): the tables of the store, the files and the
-- clock. The framework's routing and its reading of requests are outside the model.
use document_feeder.Prelude.{ℕ, suc, ◌*◌, String, Bool, Option, none, List, Outcome, ok, raise}
use document_feeder.Prelude.Exec.{Exec}
use document_feeder.Json.{Fields, Json}
use document_feeder.Models.Job.{DocumentJob}
use document_feeder.Models.Audit.{AuditEvent}
use document_feeder.Config.{Settings}
use document_feeder.Connectors.{Failure, message}
use document_feeder.Auth.{Crypto}
use document_feeder.Store.Database.{Database}
use document_feeder.Store.Users.{UserTable, SessionTable}
use document_feeder.Store.Channels.{ChannelTable}
use document_feeder.Store.Audit.{AuditRow, AuditLog, AuditError, Hashing, save_audit_event}
use document_feeder.Pipeline.World.{Environment, Run}

-- `HTTPException`, which the framework answers with its status, or another exception
pub data WebError : Type 0 where
  http_exception : ℕ → String → WebError
  uncaught : String → WebError

pub record Response : Type 0 where
  pub status_code : ℕ
  pub content : Json

-- The parts of a request that the middleware reads.
pub record Request : Type 0 where
  pub method : String
  pub path : String
  pub session_cookie : Option String
  pub csrf_cookie : Option String
  pub csrf_header : Option String

-- What the routes take from outside: what the pipeline takes, cryptography, hashes of the audit
-- log, `str.lower`, `str.casefold` and `str.strip`, the test `ILIKE` of the database, and
-- `json.dumps(…, separators=(",", ":"))`.
pub record WebEnvironment : Type 1 where
  pub pipeline : Environment
  pub crypto : Crypto
  pub hashing : Hashing
  pub lower : String → String
  pub casefold : String → String
  pub strip : String → String
  pub ilike : String → String → Bool
  pub json_dumps : Fields → String

-- the tables of the store that routes work on
pub record Tables : Type 0 where
  pub db : Database
  pub users : UserTable
  pub sessions : SessionTable
  pub channels : ChannelTable
  pub audit_rows : List AuditRow

-- The state of the service, with how often the clock and the generators were used.
pub record Service (Files : Type 0) : Type 0 where
  pub tables : Tables
  pub files : Files
  pub last_event_at : List (String × ℕ)
  pub readings : ℕ
  pub draws : ℕ

abbrev pub audit_log : Tables → AuditLog
audit_log t = record { rows = t.audit_rows; settings = t.db.settings }

-- the tables after a change of the audit log
abbrev pub with_log : Tables → AuditLog → Tables
with_log t log = record t { db = record t.db { settings = log.settings }; audit_rows = log.rows }

abbrev pub minutes : ℕ → ℕ
minutes n = n * 60000000

module _ (env : WebEnvironment) where
  abbrev pub Handler : Type 0 → Type 0
  Handler A = Exec (Service env.pipeline.Files) WebError A

  abbrev pub web_settings : Settings
  web_settings = env.pipeline.settings

  -- `datetime.now(UTC)`
  abbrev pub web_now : Handler ℕ
  web_now s = (ok (env.pipeline.clock s.readings), record s { readings = suc s.readings })

  -- the number of the next random draw
  abbrev pub draw : Handler ℕ
  draw s = (ok s.draws, record s { draws = suc s.draws })

  abbrev pub read : {A : Type 0} → (Tables → A) → Handler A
  read f s = (ok (f s.tables), s)

  abbrev pub write : (Tables → Tables) → Handler Unit
  write f s = (ok tt, record s { tables = f s.tables })

  abbrev pub reject : {A : Type 0} → ℕ → String → Handler A
  reject status detail s = (raise (http_exception status detail), s)

  unfoldable pub audited : Outcome AuditError AuditEvent × AuditLog → Handler Unit
  audited (ok e, log) s = (ok tt, record s { tables = with_log s.tables log })
  audited (raise e, log) s =
      (raise (uncaught env.pipeline.database_error), record s { tables = with_log s.tables log })

  -- `store.save_audit_event(AuditEvent(…))`: the event takes an identifier and the time.
  unfoldable pub record_event : (String → ℕ → AuditEvent) → Handler Unit
  unfolding audited
  record_event make s =
      audited
        (save_audit_event env.hashing s.tables.db.cipher.known
          (make (env.pipeline.uuid s.draws) (env.pipeline.clock s.readings)) (audit_log s.tables))
        (record s { readings = suc s.readings; draws = suc s.draws })

  in_job : {A : Type 0} → Outcome Failure A × Run env.pipeline.Files → Handler A
  in_job (ok a, r) s = (
    ok a,
    record s {
      tables = record s.tables { db = r.db };
      files = r.files;
      last_event_at = r.last_event_at;
      readings = r.readings;
      draws = r.draws;
    },
  )
  in_job (raise e, r) s = (
    raise (uncaught (message e)),
    record s {
      tables = record s.tables { db = r.db };
      files = r.files;
      last_event_at = r.last_event_at;
      readings = r.readings;
      draws = r.draws;
    },
  )

  -- a method of the pipeline, called with a job
  unfoldable pub call_pipeline :
      {A : Type 0} → Exec (Run env.pipeline.Files) Failure A → DocumentJob → Handler A
  unfolding in_job
  call_pipeline m job s =
      in_job
        (m (record {
          job = job;
          db = s.tables.db;
          files = s.files;
          last_event_at = s.last_event_at;
          readings = s.readings;
          draws = s.draws;
          target = none;
        }))
        s
