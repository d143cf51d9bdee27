-- ===== src/Pipeline/Activity/Laws.antt =====
-- What `_event` leaves alone, and what it can raise.
use document_feeder.Prelude.{
  ℕ, suc, String, ◌≡◌, refl, ap, subst, inl, inr, Option, none, some, leb, count, ◌&&◌, Bool-cases,
  Outcome, ok, raise,
}
use document_feeder.Prelude.Exec.{lift, ◌>>=◌}
use document_feeder.Prelude.Exec.Laws.{Keeps, Raises, bind-Keeps, bind-Raises}
use document_feeder.Json.{Json, text, null}
use document_feeder.Models.Job.{DocumentJob, JobEvent}
use document_feeder.Connectors.{Failure, other}
use document_feeder.Store.Jobs.{JobTable, StoreError, integrity_error, save}
use document_feeder.Store.Events.{EventTable}
use document_feeder.Pipeline.World.{Environment, Run, saved, save_job}
use document_feeder.Pipeline.Activity.{
  EventArgs, rule_name, valid_message, recorded, start_of, event_at, event,
}

abbrev pub job_of : (env : Environment) → Run env.Files → DocumentJob
job_of env s = s.job

abbrev pub jobs_of : (env : Environment) → Run env.Files → JobTable
jobs_of env s = s.db.jobs

abbrev kept_of : (env : Environment) → Run env.Files → DocumentJob × JobTable
kept_of env s = (s.job, s.db.jobs)

-- The errors of a write to the repository: a refused row, or a field that an event cannot have.
pub data IsRecordError (env : Environment) : Failure → Type 0 where
  refused : IsRecordError env (other env.database_error)
  invalid : (field : String) → IsRecordError env (other (env.validation_error field))

module _ (env : Environment) where
  recorded-Keeps :
      (r : Outcome StoreError JobEvent × EventTable) → Keeps (kept_of env) (recorded env r)
  unfolding recorded
  recorded-Keeps (ok e, es) s = refl
  recorded-Keeps (raise integrity_error, es) s = refl

  refused_row : (e x : Failure) → IsRecordError env e → e ≡ x → IsRecordError env x
  refused_row e x r p = subst (IsRecordError env) p r

  recorded-Raises :
      (r : Outcome StoreError JobEvent × EventTable) (s : Run env.Files)
      → Raises (IsRecordError env) (recorded env r) s
  unfolding recorded
  recorded-Raises (ok e, es) s x k = cc
  recorded-Raises (raise integrity_error, es) s x k =
      refused_row (other env.database_error) x refused cc

  event_at-Keeps : (a : EventArgs) (start : ℕ) → Keeps (kept_of env) (event_at env a start)
  unfolding event_at
  event_at-Keeps a start =
      bind-Keeps (kept_of env) _ _ (λ s. refl)
        (λ _.
          bind-Keeps (kept_of env) _ _ (λ s. refl)
            (λ _.
              bind-Keeps (kept_of env) _ _ (λ s. refl)
                (λ v.
                  bind-Keeps (kept_of env) _ _ (λ s. refl)
                    (λ rule.
                      bind-Keeps (kept_of env) _ _ (λ s. refl) (λ id s. recorded-Keeps _ s)))))

  start_of-Keeps : (t : Option ℕ) → Keeps (kept_of env) (start_of env t)
  unfolding start_of
  start_of-Keeps none s = refl
  start_of-Keeps (some t) s = refl

  event-Keeps_both : (a : EventArgs) → Keeps (kept_of env) (event env a)
  unfolding event
  event-Keeps_both a =
      bind-Keeps (kept_of env) _ _ (start_of-Keeps a.started_at) (λ t s. event_at-Keeps a _ s)

  -- An event leaves the job as it is, whether it is written or refused.
  pub event-Keeps : (a : EventArgs) → Keeps (job_of env) (event env a)
  event-Keeps a s = ap (λ (k : DocumentJob × JobTable). k.0) (event-Keeps_both a s)

  -- So it does the table of the jobs.
  pub event-Keeps_jobs : (a : EventArgs) → Keeps (jobs_of env) (event env a)
  event-Keeps_jobs a s = ap (λ (k : DocumentJob × JobTable). k.1) (event-Keeps_both a s)

  message-Raises :
      (m : String) (s : Run env.Files)
      → Raises {A = String} (IsRecordError env) (lift (valid_message env m)) s
  unfolding valid_message
  message-Raises m s x k = elim (Bool-cases (leb 1 (count m) && leb (count m) 500)) [
    | inl e ↦ let k' = rw e at k in cc
    | inr e ↦
        let k' = rw e at k in
        refused_row (other (env.validation_error "message")) x (invalid "message") cc
  ]

  rule-Raises :
      (v : Option Json) (s : Run env.Files)
      → Raises {A = Option String} (IsRecordError env) (lift (rule_name env v)) s
  unfolding rule_name
  rule-Raises none s x k = cc
  rule-Raises (some null) s x k = cc
  rule-Raises (some (text t)) s x k = cc
  rule-Raises (some v) s x k =
      refused_row (other (env.validation_error "delivery_rule")) x (invalid "delivery_rule") cc

  event_at-Raises :
      (a : EventArgs) (start : ℕ) (s : Run env.Files)
      → Raises (IsRecordError env) (event_at env a start) s
  unfolding event_at
  event_at-Raises a start s =
      bind-Raises (IsRecordError env) _ _ s (λ x k. cc)
        (λ _ s. bind-Raises (IsRecordError env) _ _ s (message-Raises a.message s) (λ _ s.
          bind-Raises (IsRecordError env) _ _ s (λ x k. cc)
            (λ v s. bind-Raises (IsRecordError env) _ _ s (rule-Raises v s) (λ rule s.
              bind-Raises (IsRecordError env) _ _ s (λ x k. cc) (λ id s. recorded-Raises _ s)))))

  start_of-Raises :
      (t : Option ℕ) (s : Run env.Files) → Raises (IsRecordError env) (start_of env t) s
  unfolding start_of
  start_of-Raises none s x k = cc
  start_of-Raises (some t) s x k = cc

  -- An event raises only the errors of its own record.
  pub event-Raises :
      (a : EventArgs) (s : Run env.Files) → Raises (IsRecordError env) (event env a) s
  unfolding event
  event-Raises a s =
      bind-Raises (IsRecordError env) _ _ s (start_of-Raises a.started_at s)
        (λ t s. event_at-Raises a _ s)

  saved-Raises :
      (r : Outcome StoreError JobTable × DocumentJob) (s : Run env.Files)
      → Raises (IsRecordError env) (saved env r) s
  unfolding saved
  saved-Raises (ok jobs, job) s x k = cc
  saved-Raises (raise integrity_error, job) s x k =
      refused_row (other env.database_error) x refused cc

  saved-job :
      (r : Outcome StoreError JobTable × DocumentJob) (s : Run env.Files)
      → (saved env r s).1.job ≡ r.1
  unfolding saved
  saved-job (ok jobs, job) s = refl
  saved-job (raise integrity_error, job) s = refl

  -- A save changes only the `updated_at` of the job.
  pub save_job-job :
      (s : Run env.Files)
      → (save_job env s).1.job ≡ record s.job { updated_at = env.clock s.readings }
  unfolding save_job ◌>>=◌ save
  save_job-job s =
      saved-job (save (env.clock s.readings) s.job s.db.jobs)
        (record s { readings = suc s.readings })

  -- A save raises only that the row is refused.
  pub save_job-Raises : (s : Run env.Files) → Raises (IsRecordError env) (save_job env) s
  unfolding save_job
  save_job-Raises s =
      bind-Raises (IsRecordError env) _ _ s (λ x k. cc)
        (λ t s. saved-Raises (save t s.job s.db.jobs) s)
