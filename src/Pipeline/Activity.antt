-- ===== src/Pipeline/Activity.antt =====
-- `DocumentPipeline._event` (src/document_core/pipeline.py): the activity log of a job.
pub mod Laws
pub mod Order
use document_feeder.Prelude.{
  ℕ, suc, ◌+◌, String, count, Bool, true, false, Option, none, some, List, [], ◌∷◌, ◌==◌, leb, ltb,
  if◌then◌else◌, Outcome, ok, raise, ◌&&◌,
}
use mathlib.Core.Option
use document_feeder.Prelude.Exec.{Exec, pure, throw, gets, lift, continue, ◌>>=◌, ◌>>◌}
use document_feeder.Json.{Json, Fields, text, null, empty, get}
use document_feeder.Models.Job.{JobStatus, value, DocumentJob, JobEvent}
use document_feeder.Models.Target.{TargetSystem}
use document_feeder.Connectors.{Failure, other}
use document_feeder.Store.Jobs.{StoreError, integrity_error}
use document_feeder.Store.Events.{EventTable, save_event}
use document_feeder.Pipeline.World.{Environment, Run, Method, now, fresh_id}

-- the arguments of `_event` besides the job
pub record EventArgs : Type 0 where
  pub event_type : String
  pub message : String
  pub status : Option JobStatus
  pub attempt : Option ℕ
  pub target : Option TargetSystem
  pub external_reference : Option String
  pub error : Option String
  pub details : Fields
  pub started_at : Option ℕ
  pub completed_at : Option ℕ

-- the defaults of `_event`
abbrev pub an_event : String → String → EventArgs
an_event event_type message = record {
  event_type = event_type;
  message = message;
  status = none;
  attempt = none;
  target = none;
  external_reference = none;
  error = none;
  details = empty;
  started_at = none;
  completed_at = none;
}

abbrev pub last_of : String → List (String × ℕ) → Option ℕ
last_of k [] = none
last_of k ((j, t) ∷ m) = if j == k then some t else last_of k m

abbrev pub put_last : String → ℕ → List (String × ℕ) → List (String × ℕ)
put_last k t [] = (k, t) ∷ []
put_last k t ((j, u) ∷ m) = if j == k then (j, t) ∷ m else (j, u) ∷ put_last k t m

-- one microsecond after the job's previous event, where the time is not later than that
unfoldable pub after_previous : Option ℕ → ℕ → ℕ
after_previous none t = t
after_previous (some previous) t = if leb t previous then previous + 1 else t

unfoldable pub not_before : ℕ → Option ℕ → Option ℕ
not_before start none = none
not_before start (some t) = some (if ltb t start then start else t)

abbrev pub target_id_of : Option TargetSystem → Option String → Option String
target_id_of none default = default
target_id_of (some t) default = some t.id

abbrev pub status_or : Option JobStatus → JobStatus → JobStatus
status_or none default = default
status_or (some s) default = s

module _ (env : Environment) where
  -- `job.metadata.get("delivery_rule")`, which must be a text or null in an event
  unfoldable pub rule_name : Option Json → Outcome Failure (Option String)
  rule_name none = ok none
  rule_name (some null) = ok none
  rule_name (some (text s)) = ok (some s)
  rule_name (some _) = raise (other (env.validation_error "delivery_rule"))

  -- the limits of pydantic on the message
  unfoldable pub valid_message : String → Outcome Failure String
  valid_message m =
      if leb 1 (count m) && leb (count m) 500
      then ok m
      else raise (other (env.validation_error "message"))

  recorded : Outcome StoreError JobEvent × EventTable → Method env Unit
  recorded (ok e, es) s = (ok tt, record s { db = record s.db { events = es } })
  recorded (raise integrity_error, es) s = (raise (other env.database_error), s)

  -- `started_at or datetime.now(UTC)`
  unfoldable pub start_of : Option ℕ → Method env ℕ
  start_of none = now env
  start_of (some t) = pure t

  -- the event that is built from the arguments
  abbrev pub event_of : EventArgs → ℕ → String → Option String → DocumentJob → JobEvent
  event_of a start id rule job = record {
    id = id;
    job_id = job.id;
    event_type = a.event_type;
    status = value (status_or a.status job.status);
    message = a.message;
    attempt = a.attempt;
    target_system_id = target_id_of a.target job.target_system_id;
    target_name = Option.map (λ (t : TargetSystem). t.name) a.target;
    delivery_rule = rule;
    external_reference = a.external_reference;
    error = a.error;
    details = a.details;
    started_at = start;
    completed_at = not_before start a.completed_at;
  }

  -- the event at its time, which is also kept in `_last_event_at`
  unfoldable pub event_at : EventArgs → ℕ → Method env Unit
  unfolding rule_name valid_message recorded
  event_at a start =
      (λ s. (ok tt, record s { last_event_at = put_last s.job.id start s.last_event_at }))
      >> (lift (valid_message a.message)
          >> (gets (λ s. get "delivery_rule" s.job.metadata) >>= λ v. lift (rule_name v) >>= λ rule.
              fresh_id env >>= λ id s.
              recorded (save_event (event_of a start id rule s.job) s.db.events) s))

  -- `_event`
  unfoldable pub event : EventArgs → Method env Unit
  unfolding start_of event_at
  event a = start_of a.started_at >>= λ t s.
      event_at a (after_previous (last_of s.job.id s.last_event_at) t) s
