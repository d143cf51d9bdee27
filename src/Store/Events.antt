-- ===== src/Store/Events.antt =====
-- `job_events`: the activity log of the jobs, and the deletion of a job with its events
-- (src/document_core/store.py).
pub mod Laws
use text.Mathlib.Text.{is_le, is_eq}
use Prim.Native.String.{compare}
use document_feeder.Prelude.{
  ℕ, String, Bool, true, false, not, ◌&&◌, ◌||◌, Option, none, some, List, ◌==◌, ltb, eqb, select,
  if◌then◌else◌, Outcome, ok, raise,
}
use document_feeder.Prelude.Sorting.{sort_by}
use document_feeder.Models.Job.{DocumentJob, JobEvent}
use document_feeder.Table.{lookup, has, add}
use document_feeder.Store.Jobs.{
  JobRow, JobTable, StoreError, integrity_error, row_id, delete_row, delete_stalled,
}

-- The columns of a row are the fields of the event, so rows are events.
abbrev pub EventTable : Type 0
EventTable = List JobEvent

abbrev pub event_id : JobEvent → String
event_id e = e.id

-- A second event with an id would break the primary key.
unfoldable pub save_event : JobEvent → EventTable → Outcome StoreError JobEvent × EventTable
save_event event t =
    if has event_id event.id t then (raise integrity_error, t) else (ok event, add event_id event t)

-- An open event stands behind the closed ones of its start, as PostgreSQL sorts NULL.
abbrev pub completed_before : Option ℕ → Option ℕ → Bool
completed_before (some a) (some b) = ltb a b
completed_before (some a) none = true
completed_before none _ = false

abbrev pub same_completion : Option ℕ → Option ℕ → Bool
same_completion (some a) (some b) = eqb a b
same_completion none none = true
same_completion _ _ = false

-- `ORDER BY started_at, completed_at, id`
unfoldable pub event_order : JobEvent → JobEvent → Bool
event_order a b =
    ltb a.started_at b.started_at
    || eqb a.started_at b.started_at
      && (completed_before a.completed_at b.completed_at
          || same_completion a.completed_at b.completed_at && is_le (compare a.id b.id))

unfoldable pub list_events : String → EventTable → List JobEvent
unfolding event_order
list_events job_id t = sort_by event_order (select (λ e. e.job_id == job_id) t)

-- the events that the deletion of a job leaves
unfoldable pub delete_events : String → EventTable → EventTable
delete_events job_id = select (λ e. not (e.job_id == job_id))

-- The events of the job go exactly when its row goes.
unfoldable pub delete_stalled_job :
    String → JobTable → EventTable → Option DocumentJob × JobTable × EventTable
unfolding delete_stalled delete_events
delete_stalled_job job_id t es =
    let (job, t') = delete_stalled job_id t in
    (job, t', elim job [ none ↦ es | some _ ↦ delete_events job_id es ])
