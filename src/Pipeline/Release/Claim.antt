-- ===== src/Pipeline/Release/Claim.antt =====
-- How a release ends that has claimed its job (src/document_core/pipeline.py).
use document_feeder.Prelude.{
  suc, String, ◌≡◌, refl, sym, subst, ◌⊎◌, inl, inr, Bool, true, false, is_some, ok, List,
}
use document_feeder.Prelude.Exec.{◌>>=◌}
use document_feeder.Prelude.Exec.Laws.{Ensures, bind-Ensures, try-Ensures}
use document_feeder.Models.Job.{DocumentJob, delivered, failed, is_delivered}
use document_feeder.Processing.{validate}
use document_feeder.Connectors.{Failure}
use document_feeder.Store.Jobs.{claim_delivery}
use document_feeder.Pipeline.World.{Environment, Run}
use document_feeder.Pipeline.Activity.Laws.{save_job-job}
use document_feeder.Pipeline.Process.{no_errors, deliver_job}
use document_feeder.Pipeline.Release.{
  claim, release_claimed, release_failed, release_checked, release_open, release,
}

module _ (env : Environment) where
  -- the errors that `release` finds
  abbrev pub release_errors : DocumentJob → List String
  release_errors job =
      validate env.settings.require_routing_reference job.document_type
        (is_some job.routing_reference)

  abbrev pub claims : Run env.Files → Bool
  claims s = (claim_delivery (env.clock s.readings) s.job.id s.db.jobs).0

  abbrev IsOver : DocumentJob → Type 0
  IsOver job = (job.status ≡ delivered) ⊎ (job.status ≡ failed)

  abbrev EndsOver : Run env.Files → Type 0
  EndsOver s = IsOver s.job

  deliver_job-Ensures : (s : Run env.Files) → Ensures (λ _. EndsOver) (deliver_job env) s
  unfolding deliver_job
  deliver_job-Ensures s =
      bind-Ensures (λ _ _. Unit) (λ _. EndsOver) _ _ s (λ a e. tt) (λ _ s _ a e. inl refl)

  release_failed-Ensures :
      (e : Failure) (s : Run env.Files) → Ensures (λ _. EndsOver) (release_failed env e) s
  unfolding release_failed
  release_failed-Ensures e s =
      bind-Ensures (λ _ _. Unit) (λ _. EndsOver) _ _ s (λ a e. tt) (λ _ s _ a e. inr refl)

  claimed-Ensures : (s : Run env.Files) → Ensures (λ job _. IsOver job) (release_claimed env true) s
  unfolding release_claimed
  claimed-Ensures s =
      let Q = λ (job : DocumentJob) (_ : Run env.Files). IsOver job in
      bind-Ensures (λ _. EndsOver) Q _ _ s
        (bind-Ensures (λ _. EndsOver) (λ _. EndsOver) _ _ s
          (bind-Ensures (λ _ _. Unit) (λ _. EndsOver) _ _ s (λ a k. tt)
            (λ _ s _.
              try-Ensures (λ _. EndsOver) _ _ s (deliver_job-Ensures s) release_failed-Ensures))
          (λ _ s p a k. subst IsOver (sym (save_job-job env s)) p))
        (λ _ s p job k. let same : s.job ≡ job = cc in subst IsOver same p)

  -- The release of a job that is not delivered, has no validation errors and can be claimed returns
  -- the job delivered or failed, if it raises nothing.
  pub release-claimed :
      (s : Run env.Files) (job : DocumentJob)
      → is_delivered s.job.status ≡ false
      → no_errors (release_errors s.job) ≡ true
      → claims s ≡ true
      → (release env s).0 ≡ ok job
      → (job.status ≡ delivered) ⊎ (job.status ≡ failed)
  unfolding release release_open release_checked claim ◌>>=◌
  release-claimed s job d n c e =
      let claimed = record s {
        job = record s.job { errors = release_errors s.job };
        readings = suc s.readings;
        db = record s.db { jobs = (claim_delivery (env.clock s.readings) s.job.id s.db.jobs).1 };
      } in
      claimed-Ensures claimed job (rw (d, n, c) at e)
