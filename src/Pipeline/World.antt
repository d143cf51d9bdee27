-- ===== src/Pipeline/World.antt =====
-- What the pipeline works on, and its calls of the repository (src/document_core/pipeline.py).
use document_feeder.Prelude.{ℕ, suc, String, Option, none, some, List, Outcome, ok, raise}
use document_feeder.Prelude.Exec.{Exec, pure, gets, ◌>>=◌}
use mathlib.Core.Option
use document_feeder.Json.{Fields}
use document_feeder.Models.Job.{DocumentJob}
use document_feeder.Models.Target.{TargetSystem}
use document_feeder.Connectors.{Failure, other, DeliveryReceipt}
use document_feeder.Processing.{ExtractionResult, ClassificationResult}
use document_feeder.Config.{Settings}
use document_feeder.Secrets.Cipher.{
  SecretCipher, SecretError, no_keys, not_encrypted, keys_missing, wrong_keys, no_rotation,
}
use document_feeder.Store.Database.{Database, redact}
use document_feeder.Store.Jobs.{JobTable, StoreError, integrity_error, save}
use document_feeder.Store.Targets.{
  TargetTable, TargetError, secret_error, get_target_system, save_target_system,
}

-- What `deliver` of a connector returns: a receipt, or a text as older connectors do.
pub data DeliveryResult : Type 0 where
  with_receipt : DeliveryReceipt → DeliveryResult
  legacy : String → DeliveryResult

-- The parts that the pipeline is built from and the system around it: the clock, whose reading
-- number n is `clock n`, and the random identifiers likewise; the random bytes of the encryption;
-- the texts of the errors of pydantic, for a field, and of the database; the extractor, the
-- classifier and the metadata patterns; the connectors and their registry; and the file system.
pub record Environment : Type 1 where
  pub settings : Settings
  pub clock : ℕ → ℕ
  pub uuid : ℕ → String
  pub isoformat : ℕ → String
  pub validation_error : String → String
  pub database_error : String
  pub Files : Type 0
  pub resolve : String → Files → String
  pub make_parents : String → Files → Outcome Failure Files
  pub replace_file : String → String → Files → Outcome Failure Files
  pub unlink : String → Files → Outcome Failure Files
  pub extract : String → Files → Outcome Failure ExtractionResult
  pub classify : String → Outcome Failure ClassificationResult
  pub extract_metadata : String → String → Fields
  pub Connector : Type 0
  pub default_connector : Connector
  pub default_connector_name : String
  pub create_connector : TargetSystem → Outcome Failure Connector
  pub connector_deliver : Connector → DocumentJob → Files → Outcome Failure DeliveryResult × Files

-- The state in a call on one job: the job object, which the methods change in place, the
-- repository, the files, `_last_event_at`, how often the clock and the generators were used, and
-- the target object of `_deliver`.
pub record Run (Files : Type 0) : Type 0 where
  pub job : DocumentJob
  pub db : Database
  pub files : Files
  pub last_event_at : List (String × ℕ)
  pub readings : ℕ
  pub draws : ℕ
  pub target : Option TargetSystem

-- `str` of the errors of `SecretCipher`
unfoldable pub secret_message : SecretError → String
secret_message no_keys =
    "Connector-Secret vorhanden, aber DOCUMENT_CORE_CONNECTOR_SECRET_KEYS fehlt"
secret_message not_encrypted = "Unverschlüsseltes Connector-Secret erkannt"
secret_message keys_missing = "Verschlüsseltes Connector-Secret vorhanden, aber Schlüssel fehlt"
secret_message wrong_keys =
    "Connector-Secret kann mit den konfigurierten Schlüsseln nicht entschlüsselt werden"
secret_message no_rotation =
    "Connector-Secret kann mit den konfigurierten Schlüsseln nicht rotiert werden"

module _ (env : Environment) where
  abbrev pub Method : Type 0 → Type 0
  Method A = Exec (Run env.Files) Failure A

  -- `datetime.now(UTC)`
  abbrev pub now : Method ℕ
  now s = (ok (env.clock s.readings), record s { readings = suc s.readings })

  -- `uuid4()`
  abbrev pub fresh_id : Method String
  fresh_id s = (ok (env.uuid s.draws), record s { draws = suc s.draws })

  -- an assignment to fields of the job
  abbrev pub modify_job : (DocumentJob → DocumentJob) → Method Unit
  modify_job f s = (ok tt, record s { job = f s.job })

  unfoldable pub target_failure : TargetError → Failure
  unfolding secret_message
  target_failure (secret_error e) = other (secret_message e)
  target_failure TargetError.integrity_error = other env.database_error

  unfoldable pub saved : Outcome StoreError JobTable × DocumentJob → Method Unit
  saved (ok jobs, job) s = (ok tt, record s { job = job; db = record s.db { jobs = jobs } })
  saved (raise integrity_error, job) s = (raise (other env.database_error), record s { job = job })

  -- `self.store.save(job)`
  unfoldable pub save_job : Method Unit
  unfolding saved
  save_job = now >>= λ t s. saved (save t s.job s.db.jobs) s

  fetched : Outcome TargetError (Option TargetSystem) × SecretCipher → Method (Option TargetSystem)
  unfolding target_failure
  fetched (ok t, c) s = (ok t, record s { db = record s.db { cipher = c } })
  fetched (raise e, c) s = (raise (target_failure e), record s { db = record s.db { cipher = c } })

  -- `self.store.get_target_system(id)`
  unfoldable pub fetch_target : String → Method (Option TargetSystem)
  unfolding fetched
  fetch_target id s = fetched (get_target_system id s.db.targets s.db.cipher) s

  target_written : Outcome TargetError TargetTable × SecretCipher → Method Unit
  unfolding target_failure
  target_written (ok ts, c) s = (ok tt, record s { db = record s.db { targets = ts; cipher = c } })
  target_written (raise e, c) s =
      (raise (target_failure e), record s { db = record s.db { cipher = c } })

  store_target_of : Option TargetSystem → Method Unit
  unfolding target_written
  store_target_of none = pure tt
  store_target_of (some target) = now >>= λ t s.
      target_written
        (save_target_system t s.draws (suc s.draws) (record target { updated_at = t }) s.db.targets
          s.db.cipher)
        (record s { target = some (record target { updated_at = t }); draws = suc (suc s.draws) })

  -- `if target is not None:` an assignment to its fields and
  -- `self.store.save_target_system(target)`
  unfoldable pub save_target : (TargetSystem → TargetSystem) → Method Unit
  unfolding store_target_of
  save_target f s = store_target_of (Option.map f s.target) s

  -- `self.store.redact(text)`
  abbrev pub redacted : String → Method String
  redacted text = gets (λ s. redact s.db text)
