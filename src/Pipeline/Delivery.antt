-- ===== src/Pipeline/Delivery.antt =====
-- The delivery of a job (src/document_core/pipeline.py): the choice of its target, the call of the
-- connector, and what becomes of the work copy.
use document_feeder.Prelude.{
  ℕ, String, ◌<>◌, Option, none, some, ◌==◌, if◌then◌else◌, Outcome, ok, raise,
}
use document_feeder.Prelude.Exec.{pure, throw, gets, lift, try_except, ◌>>=◌, ◌>>◌}
use document_feeder.Json.{Json, Fields, text, object, optional_text, empty, field, set, update}
use document_feeder.Models.Job.{JobStatus, delivering, delivered, failed, DocumentJob}
use document_feeder.Models.Target.{TargetSystem, DeliveryRule}
use document_feeder.Connectors.{
  Failure, os_error, other, message, DeliveryReceipt, receipt_metadata,
}
use document_feeder.Config.{FilePolicy, retain, archive, delete, completed_dir, ◌//◌}
use document_feeder.Store.Rules.{find_delivery_rule}
use document_feeder.Pipeline.World.{
  Environment, Run, Method, DeliveryResult, with_receipt, legacy, now, modify_job, fetch_target,
  save_target, redacted,
}
use document_feeder.Pipeline.Activity.{EventArgs, an_event, event}

-- `if job.target_system_id:` an empty text is false
abbrev pub truthy : Option String → Option String
truthy none = none
truthy (some s) = if s == "" then none else some s

-- `a or b`
abbrev pub or_text : Option String → String → String
or_text none b = b
or_text (some a) b = if a == "" then b else a

abbrev pub set_metadata : String → Json → DocumentJob → DocumentJob
set_metadata k v job = record job { metadata = set k v job.metadata }

abbrev pub receipt_of : DeliveryResult → DeliveryReceipt
receipt_of (with_receipt r) = r
receipt_of (legacy s) = record {
  reference = s;
  connector = "legacy";
  status_code = none;
  content_type = none;
  details = empty;
}

abbrev pub policy_name : FilePolicy → String
policy_name retain = "retain"
policy_name archive = "archive"
policy_name delete = "delete"

module _ (env : Environment) where
  -- `get_target_system(id) if id else None`
  unfoldable pub target_if : Option String → Method env (Option TargetSystem)
  target_if none = pure none
  target_if (some id) = fetch_target env id

  apply_path : Option TargetSystem → Method env Unit
  apply_path none = pure tt
  apply_path (some target) =
      modify_job env (λ job. record job { delivery_path_template = some target.path_template })

  -- the second half of `_apply_delivery_rule`: the path of the target that the job has
  unfoldable pub keep_target : Method env Unit
  unfolding apply_path target_if
  keep_target = gets (λ s. truthy s.job.target_system_id) >>= λ id. target_if id >>= apply_path

  unfoldable pub take_rule : DeliveryRule → Option TargetSystem → Method env Unit
  unfolding keep_target
  take_rule rule none = keep_target
  take_rule rule (some target) =
      if target.enabled
      then modify_job env (λ job. set_metadata "delivery_rule" (text rule.name) (record job {
        target_system_id = some target.id;
        delivery_path_template = some (or_text rule.path_template target.path_template);
      }))
      else keep_target

  unfoldable pub apply_rule : Option DeliveryRule → Method env Unit
  unfolding keep_target take_rule
  apply_rule none = keep_target
  apply_rule (some rule) = fetch_target env rule.target_system_id >>= take_rule rule

  -- `_apply_delivery_rule`
  unfoldable pub apply_delivery_rule : Method env Unit
  unfolding apply_rule
  apply_delivery_rule = gets (λ s. find_delivery_rule s.job.document_type s.db.rules) >>= apply_rule

  -- `target.parent.mkdir(…)` and the move, unless the file is there already
  unfoldable pub move_work_copy : String → Method env Unit
  move_work_copy target s = elim (env.make_parents target s.files) [
    | raise e ↦ (raise e, s)
    | ok files ↦
        if env.resolve s.job.stored_path files == env.resolve target files
        then (ok tt, record s { files = files })
        else elim (env.replace_file s.job.stored_path target files) [
          | raise e ↦ (raise e, record s { files = files })
          | ok files' ↦
              (ok tt, record s { files = files'; job = record s.job { stored_path = target } })
        ]
  ]

  unlink_work_copy : Outcome Failure env.Files → Method env Unit
  unlink_work_copy (ok files) s = (ok tt, record s { files = files })
  unlink_work_copy (raise e) s = (raise e, s)

  -- what a policy does with the work copy, and the details that it adds
  unfoldable pub clean_up : FilePolicy → Method env Fields
  unfolding unlink_work_copy move_work_copy
  clean_up delete =
      (λ s. unlink_work_copy (env.unlink s.job.stored_path s.files) s)
      >> pure (field "state" (text "deleted") empty)
  clean_up archive =
      gets (λ s. completed_dir env.settings // (s.job.id <> ("-" <> s.job.original_filename)))
      >>= λ target.
          move_work_copy target
          >> pure (field "state" (text "archived") (field "path" (text target) empty))
  clean_up retain =
      gets (λ s. field "state" (text "retained") (field "path" (text s.job.stored_path) empty))

  -- only an `OSError` is caught
  clean_up_failed : Failure → Method env Fields
  clean_up_failed (os_error m) =
      pure (field "state" (text "cleanup_failed") (field "error" (text m) empty))
  clean_up_failed e = throw e

  -- `_finalize_work_copy`
  unfoldable pub finalize_work_copy : Method env Unit
  unfolding clean_up clean_up_failed
  finalize_work_copy = now env >>= λ t.
      try_except (clean_up env.settings.delivered_file_policy) clean_up_failed >>= λ details.
      modify_job env (
        set_metadata "work_copy" (
          object (
            update
              (field "policy" (text (policy_name env.settings.delivered_file_policy))
                (field "completed_at" (text (env.isoformat t)) empty))
              details)))

  unfoldable pub connector_of : Option TargetSystem → Method env env.Connector
  connector_of none = throw (other "Konfiguriertes Zielsystem ist nicht vorhanden oder deaktiviert")
  connector_of (some target) =
      if target.enabled
      then lift (env.create_connector target)
      else throw (other "Konfiguriertes Zielsystem ist nicht vorhanden oder deaktiviert")

  configured_connector : Option String → Method env env.Connector
  unfolding connector_of
  configured_connector none = pure env.default_connector
  configured_connector (some id) = fetch_target env id >>= connector_of

  -- `_connector_for`
  unfoldable pub connector_for : Method env env.Connector
  unfolding configured_connector
  connector_for = gets (λ s. truthy s.job.target_system_id) >>= configured_connector

  -- `connector.deliver(job)`
  unfoldable pub call_connector : env.Connector → Method env DeliveryResult
  call_connector c s =
      let (r, files) = env.connector_deliver c s.job s.files in (r, record s { files = files })

  target_name : Option TargetSystem → String
  target_name none = env.default_connector_name
  target_name (some target) = target.name

  path_details : DocumentJob → Fields
  path_details job = field "path_template" (optional_text job.delivery_path_template) empty

  -- what the three events of a delivery share; `details` is from before it
  abbrev pub delivery_event : String → String → JobStatus → ℕ → Fields → Run env.Files → EventArgs
  delivery_event event_type words status started details s = record (an_event event_type words) {
    status = some status;
    attempt = some s.job.attempt_count;
    target = s.target;
    details = details;
    started_at = some started;
  }

  -- the body of the `try` in `_deliver`
  unfoldable pub attempt_delivery : String → ℕ → Fields → Method env String
  unfolding connector_for call_connector
  attempt_delivery name started details = connector_for >>= λ c. call_connector c >>= λ result.
      modify_job env
        (set_metadata "delivery_receipt" (object (receipt_metadata (receipt_of result))))
      >> (now env >>= λ completed.
          save_target env
            (λ target. record target { last_delivery_at = some completed; last_error = none })
          >> (λ s.
              event env
                (record (delivery_event "delivery_succeeded"
                  ("Dokument an " <> (name <> " zugestellt")) delivered started
                  (set "receipt" (object (receipt_metadata (receipt_of result))) details) s) {
                    external_reference = some (receipt_of result).reference;
                    completed_at = some completed;
                  })
                s)
          >> pure (receipt_of result).reference)

  -- its `except` clause, which raises the exception again
  unfoldable pub delivery_failed : String → ℕ → Fields → Failure → Method env String
  delivery_failed name started details e = now env >>= λ completed.
      redacted env (message e) >>= λ error.
      save_target env (λ target. record target { last_error = some error })
      >> (λ s.
          event env
            (record (delivery_event "delivery_failed"
              ("Zustellung an " <> (name <> " fehlgeschlagen")) failed started details s) {
                error = some error;
                completed_at = some completed;
              })
            s)
      >> throw e

  deliver_to : String → ℕ → Fields → Method env String
  unfolding attempt_delivery delivery_failed
  deliver_to name started details =
      (λ s.
        event env
          (delivery_event "delivery_started" ("Zustellung an " <> (name <> " gestartet")) delivering
            started details s)
          s)
      >> try_except (attempt_delivery name started details) (delivery_failed name started details)

  -- `_deliver`
  unfoldable pub deliver : Method env String
  unfolding target_if target_name path_details deliver_to
  deliver = gets (λ s. truthy s.job.target_system_id) >>= λ id. target_if id >>= λ target.
      (λ s. (ok tt, record s { target = target }))
      >> (now env >>= λ started.
          gets (λ s. path_details s.job) >>= deliver_to (target_name target) started)
