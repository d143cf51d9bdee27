-- ===== src/Web/Jobs.antt =====
-- The routes on the jobs that may change them (src/document_core/api.py).
pub mod Listing
pub mod Guards
use package.text.Mathlib.Text.{starts_with}
use document_feeder.Prelude.{
  ℕ, suc, String, ◌<>◌, Bool, true, false, not, Option, none, some, List, if◌then◌else◌, Outcome,
  ok, raise,
}
use document_feeder.Prelude.Exec.{pure, ◌>>=◌, ◌>>◌}
use document_feeder.Json.{empty}
use document_feeder.Models.Job.{
  JobStatus, quarantined, delivering, delivered, failed, value, is_quarantined, is_failed, received,
  DocumentJob, JobEvent, ReviewRequest,
}
use document_feeder.Models.Target.{TargetSystem}
use document_feeder.Connectors.{Failure, message}
use document_feeder.Config.{quarantine_dir, work_root_dir, ◌//◌}
use document_feeder.Store.Jobs.{JobTable, StoreError, get, retry_failed}
use document_feeder.Store.Events.{EventTable, save_event, list_events, delete_stalled_job}
use document_feeder.Pipeline.World.{fetch_target}
use document_feeder.Pipeline.Review.{review}
use document_feeder.Pipeline.Release.{release}
use document_feeder.Web.World.{
  WebEnvironment, WebError, uncaught, Service, Tables, Handler, web_settings, web_now, draw, read,
  write, reject, call_pipeline,
}

abbrev pub may_release : JobStatus → Bool
may_release quarantined = true
may_release delivering = true
may_release delivered = true
may_release _ = false

-- `root in path.parents`, for resolved paths
abbrev pub is_inside : String → String → Bool
is_inside root path = starts_with path (root <> "/")

module _ (env : WebEnvironment) where
  abbrev pub stored_job : String → Handler env (Option DocumentJob)
  stored_job id = read env (λ t. get id t.db.jobs)

  -- `if job is None: raise HTTPException(404)`
  abbrev pub not_found : {A : Type 0} → Handler env A
  not_found = reject env 404 "Job nicht gefunden"

  -- the route on the stored job, if there is one
  abbrev pub on_found :
      {A : Type 0} → (DocumentJob → Handler env A) → Option DocumentJob → Handler env A
  on_found f none = not_found
  on_found f (some job) = f job

  -- `get_job`
  unfoldable pub get_job : String → Handler env DocumentJob
  get_job id = stored_job id >>= on_found pure

  -- `get_job_events`
  unfoldable pub get_job_events : String → Handler env (List JobEvent)
  get_job_events id = stored_job id >>= on_found (λ job. read env (λ t. list_events id t.db.events))

  abbrev pub usable : Option TargetSystem → Bool
  usable none = false
  usable (some target) = target.enabled

  -- the check of the target that a review asks for
  unfoldable pub check_target : DocumentJob → Option String → Handler env Unit
  check_target job none = pure tt
  check_target job (some id) = call_pipeline env (fetch_target env.pipeline id) job >>= λ target.
      if usable target
      then pure tt
      else reject env 422 "Zielsystem ist nicht vorhanden oder deaktiviert"

  unfoldable pub review_found : ReviewRequest → DocumentJob → Handler env DocumentJob
  unfolding check_target
  review_found q job =
      if not (is_quarantined job.status)
      then reject env 409 "Nur quarantänisierte Jobs können geprüft werden"
      else (check_target job q.target_system_id >> call_pipeline env (review env.pipeline q) job)

  -- `review_job`
  unfoldable pub review_job : String → ReviewRequest → Handler env DocumentJob
  unfolding review_found
  review_job id q = stored_job id >>= on_found (review_found q)

  unfoldable pub release_found : DocumentJob → Handler env DocumentJob
  release_found job =
      if not (may_release job.status)
      then reject env 409 "Job kann in diesem Status nicht freigegeben werden"
      else call_pipeline env (release env.pipeline) job

  -- `release_job`
  unfoldable pub release_job : String → Handler env DocumentJob
  unfolding release_found
  release_job id = stored_job id >>= on_found release_found

  with_jobs : {A : Type 0} → A × JobTable → Handler env A
  with_jobs (a, jobs) s =
      (ok a, record s { tables = record s.tables { db = record s.tables.db { jobs = jobs } } })

  with_events : Outcome StoreError JobEvent × EventTable → Handler env Unit
  with_events (ok e, events) s =
      (ok tt, record s { tables = record s.tables { db = record s.tables.db { events = events } } })
  with_events (raise e, events) s = (raise (uncaught env.pipeline.database_error), s)

  -- `store.save_event(JobEvent(…))` of a manual retry
  unfoldable pub log_retry : DocumentJob → Handler env Unit
  unfolding with_events
  log_retry job = draw env >>= λ n. web_now env >>= λ now s.
      with_events
        (save_event
          (record {
            id = env.pipeline.uuid n;
            job_id = job.id;
            event_type = "manual_retry";
            status = value received;
            message = "Manueller Retry wurde eingeplant";
            attempt = none;
            target_system_id = none;
            target_name = none;
            delivery_rule = none;
            external_reference = none;
            error = none;
            details = empty;
            started_at = now;
            completed_at = none;
          })
          s.tables.db.events)
        s

  unfoldable pub retried : Option DocumentJob → Handler env DocumentJob
  unfolding log_retry
  retried none = reject env 409 "Jobstatus wurde zwischenzeitlich geändert"
  retried (some job) = log_retry job >> pure job

  unfoldable pub retry_found : String → DocumentJob → Handler env DocumentJob
  unfolding retried with_jobs
  retry_found id job =
      if not (is_failed job.status)
      then reject env 409 "Nur fehlgeschlagene Jobs können neu gestartet werden"
      else (web_now env >>= λ now.
          (λ s. with_jobs (retry_failed now id s.tables.db.jobs) s) >>= retried)

  -- `retry_job`
  unfoldable pub retry_job : String → Handler env DocumentJob
  unfolding retry_found
  retry_job id = stored_job id >>= on_found (retry_found id)

  unlinked : Outcome Failure env.pipeline.Files → Handler env Unit
  unlinked (ok files) s = (ok tt, record s { files = files })
  unlinked (raise e) s = (raise (uncaught (message e)), s)

  -- `path.unlink(missing_ok=True)`
  unfoldable pub unlink_file : String → Handler env Unit
  unfolding unlinked
  unlink_file path s = unlinked (env.pipeline.unlink path s.files) s

  -- the files of a deleted job
  unfoldable pub deleted : Option DocumentJob → Handler env Unit
  unfolding unlink_file
  deleted none =
      reject env 409
        "Nur Jobs in Verarbeitung, manueller Prüfung oder mit Fehler können gelöscht werden"
  deleted (some job) =
      (λ s.
        let path = env.pipeline.resolve job.stored_path s.files in
        let root = env.pipeline.resolve (work_root_dir (web_settings env)) s.files in
        (if is_inside root path then unlink_file path else pure tt) s)
      >> unlink_file
          (quarantine_dir (web_settings env) // (job.id <> ("-" <> job.original_filename)))

  unfoldable pub with_deletion :
      Option DocumentJob × JobTable × EventTable → Handler env (Option DocumentJob)
  with_deletion (job, jobs, events) s = (
    ok job,
    record s {
      tables = record s.tables { db = record s.tables.db { jobs = jobs; events = events } };
    },
  )

  unfoldable pub remove_job : String → DocumentJob → Handler env Unit
  unfolding deleted with_deletion
  remove_job id existing =
      (λ s. with_deletion (delete_stalled_job id s.tables.db.jobs s.tables.db.events) s) >>= deleted

  -- `delete_job`
  unfoldable pub delete_job : String → Handler env Unit
  unfolding remove_job
  delete_job id = stored_job id >>= on_found (remove_job id)
