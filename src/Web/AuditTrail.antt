-- ===== src/Web/AuditTrail.antt =====
-- The routes on the audit log, and its daily upkeep (src/document_core/api.py).
pub mod Upkeep
pub mod Round
use document_feeder.Prelude.{
  ℕ, ◌-◌, ◌*◌, String, Bool, true, false, not, Option, none, some, List, eqb, max, min,
  if◌then◌else◌, Outcome, ok, raise,
}
use document_feeder.Prelude.Decimal.{of_decimal, to_decimal}
use document_feeder.Prelude.Exec.{pure, throw, ◌>>=◌, ◌>>◌}
use document_feeder.Json.{Json, Fields, null, text, number, empty, field, optional_text}
use document_feeder.Models.Audit.{AuditEvent, AuditIntegrityStatus}
use document_feeder.Store.Settings.{SettingTable, get_system_setting, set_setting}
use document_feeder.Store.Audit.{AuditRow, AuditLog, AuditError, or_default, verify_audit_chain}
use document_feeder.Store.Audit.Retention.{delete_audit_events_before}
use document_feeder.Store.Audit.Search.{search_audit_events}
use document_feeder.Web.World.{
  WebEnvironment, WebError, uncaught, Service, Tables, Handler, audit_log, with_log, web_now, read,
  write, record_event,
}

pub record AuditListResponse : Type 0 where
  pub items : List AuditEvent
  pub total : ℕ
  pub limit : ℕ
  pub offset : ℕ

pub record AuditCleanupResult : Type 0 where
  pub deleted : ℕ
  pub cutoff : ℕ

abbrev pub days : ℕ → ℕ
days n = n * 86400000000

-- `max(30, min(3650, int(text)))`, and 365 on a `ValueError`
unfoldable pub clamp_days : Option ℕ → ℕ
clamp_days none = 365
clamp_days (some n) = max 30 (min 3650 n)

-- `audit_retention_days`
unfoldable pub audit_retention_days : SettingTable → ℕ
unfolding clamp_days
audit_retention_days t =
    clamp_days
      (of_decimal (or_default (get_system_setting "audit_retention_days" (some "365") t) "365"))

optional_number : Option ℕ → Json
optional_number none = null
optional_number (some n) = number n

-- the dictionary that `verify_audit_chain` gives
unfoldable pub integrity_fields : AuditIntegrityStatus → Fields
unfolding optional_number
integrity_fields r = field "status" (text r.status) (
    field "checked" (number r.checked) (
      field "first_invalid_index" (optional_number r.first_invalid_index)
        (field "detail" (optional_text r.detail) empty)))

module _ (env : WebEnvironment) where
  unfoldable pub deletion : Outcome AuditError ℕ × AuditLog → Handler env ℕ
  deletion (ok n, log) s = (ok n, record s { tables = with_log s.tables log })
  deletion (raise e, log) s =
      (raise (uncaught env.pipeline.database_error), record s { tables = with_log s.tables log })

  -- `store.delete_audit_events_before(cutoff)`
  unfoldable pub delete_before : ℕ → Handler env ℕ
  unfolding deletion
  delete_before cutoff = web_now env >>= λ now s.
      deletion (delete_audit_events_before now cutoff (audit_log s.tables)) s

  -- `store.set_system_setting(key, value)`
  unfoldable pub set_system_setting : String → String → Handler env Unit
  set_system_setting key value = web_now env >>= λ now.
      write env
        (λ t. record t { db = record t.db { settings = set_setting now key value t.db.settings } })

  abbrev pub cutoff_now : Handler env ℕ
  cutoff_now =
      web_now env >>= λ now. read env (λ t. now - days (audit_retention_days t.db.settings))

  abbrev pub retention_event : ℕ → ℕ → String → ℕ → AuditEvent
  retention_event deleted cutoff id now = record {
    id = id;
    actor_user_id = none;
    actor_username = "system";
    action = "AUDIT_RETENTION";
    resource_type = "audit";
    resource_id = none;
    outcome = "success";
    status_code = 200;
    details =
        field "deleted" (number deleted)
          (field "cutoff" (text (env.pipeline.isoformat cutoff)) empty);
    created_at = now;
  }

  unfoldable pub report : Option AuditIntegrityStatus → Handler env AuditIntegrityStatus
  unfolding set_system_setting
  report none = throw (uncaught "ValueError")
  report (some r) =
      set_system_setting "audit_integrity_status" (env.json_dumps (integrity_fields r)) >> pure r

  -- `verify_audit_integrity`
  unfoldable pub verify_audit_integrity : Handler env AuditIntegrityStatus
  unfolding report
  verify_audit_integrity = read env (λ t. verify_audit_chain env.hashing (audit_log t)) >>= report

  unfoldable pub note_deletion : ℕ → ℕ → Handler env Unit
  note_deletion cutoff deleted =
      if eqb deleted 0 then pure tt else record_event env (retention_event deleted cutoff)

  -- one round of `enforce_audit_retention`
  unfoldable pub retention_round : Handler env AuditIntegrityStatus
  unfolding delete_before note_deletion verify_audit_integrity
  retention_round = cutoff_now >>= λ cutoff.
      delete_before cutoff >>= note_deletion cutoff >> verify_audit_integrity

  -- `get_audit_retention`
  unfoldable pub get_audit_retention : Handler env ℕ
  get_audit_retention = read env (λ t. audit_retention_days t.db.settings)

  -- `set_audit_retention`, for a number of days that the request model admits
  unfoldable pub set_audit_retention : ℕ → Handler env ℕ
  unfolding set_system_setting
  set_audit_retention n = set_system_setting "audit_retention_days" (to_decimal n) >> pure n

  -- `cleanup_audit_events`
  unfoldable pub cleanup_audit_events : Handler env AuditCleanupResult
  unfolding delete_before
  cleanup_audit_events = cutoff_now >>= λ cutoff.
      delete_before cutoff >>= λ deleted. pure (record { deleted = deleted; cutoff = cutoff })

  -- the route `list_audit_events`, with the order that the database gives rows of one time
  unfoldable pub list_audit_events :
      (AuditRow → AuditRow → Bool)
      → Option String
      → Option String
      → ℕ
      → ℕ
      → Handler env AuditListResponse
  list_audit_events tie q outcome limit offset = read env (λ t.
      let (events, total) =
        search_audit_events env.ilike env.strip tie q outcome limit offset t.audit_rows in
      record { items = events; total = total; limit = limit; offset = offset })
