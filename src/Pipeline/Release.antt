-- ===== src/Pipeline/Release.antt =====
-- `DocumentPipeline.release` (src/document_core/pipeline.py): a document in quarantine is delivered
-- on request.
pub mod Claim
use document_feeder.Prelude.{
  ℕ, String, Bool, true, false, Option, none, some, List, [], ◌∷◌, ◌++◌, is_some, Outcome, ok,
  raise,
}
use document_feeder.Prelude.Exec.{Exec, pure, gets, try_except, handled, continue, ◌>>=◌, ◌>>◌}
use document_feeder.Json.{array, empty, field}
use document_feeder.Models.Job.{
  JobStatus, quarantined, delivering, failed, is_delivered, DocumentJob,
}
use document_feeder.Processing.{texts, validate}
use document_feeder.Connectors.{Failure, message}
use document_feeder.Store.Jobs.{JobTable, claim_delivery}
use document_feeder.Store.Jobs
use document_feeder.Pipeline.World.{Environment, Run, Method, now, modify_job, redacted, save_job}
use document_feeder.Pipeline.Activity.{an_event, event}
use document_feeder.Pipeline.Process.{no_errors, deliver_job}

-- `self.store.get(job.id) or job`
abbrev pub stored_or : Option DocumentJob → DocumentJob → DocumentJob
stored_or none job = job
stored_or (some stored) job = stored

module _ (env : Environment) where
  -- the branch of a job with errors
  unfoldable pub reject : Method env DocumentJob
  reject =
      modify_job env (λ job. record job { status = quarantined })
      >> save_job env
      >> (λ s.
          event env
            (record (an_event "release_rejected" "Freigabe wegen fehlender Angaben abgelehnt") {
              status = some quarantined;
              details = field "reasons" (array (texts s.job.errors)) empty;
            })
            s)
      >> gets (λ s. s.job)

  -- the `except` clause
  unfoldable pub release_failed : Failure → Method env Unit
  release_failed e = redacted env (message e) >>= λ error. modify_job env (λ job. record job {
    errors = job.errors ++ error ∷ [];
    last_error = some error;
    status = failed;
  })

  -- `self.store.claim_delivery(job.id)`
  unfoldable pub claim : Method env Bool
  claim = now env >>= λ t s.
      let (claimed, jobs) = claim_delivery t s.job.id s.db.jobs in
      (ok claimed, record s { db = record s.db { jobs = jobs } })

  unfoldable pub release_claimed : Bool → Method env DocumentJob
  unfolding release_failed
  release_claimed false s = (ok (stored_or (Jobs.get s.job.id s.db.jobs) s.job), s)
  release_claimed true s =
      (modify_job env (λ job. record job { status = delivering })
          >> try_except (deliver_job env) release_failed
          >> save_job env
          >> gets (λ s. s.job))
        s

  unfoldable pub release_checked : Bool → Method env DocumentJob
  unfolding reject claim release_claimed
  release_checked false = reject
  release_checked true = claim >>= release_claimed

  unfoldable pub release_open : Bool → Method env DocumentJob
  unfolding release_checked
  release_open true = gets (λ s. s.job)
  release_open false =
      modify_job env (λ job. record job {
        errors =
            validate env.settings.require_routing_reference job.document_type
              (is_some job.routing_reference);
      })
      >> (gets (λ s. no_errors s.job.errors) >>= release_checked)

  -- `release`
  unfoldable pub release : Method env DocumentJob
  unfolding release_open
  release = gets (λ s. is_delivered s.job.status) >>= release_open
