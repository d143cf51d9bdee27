-- ===== src/Pipeline/Process/Settled.antt =====
-- How `process` leaves a job, and which exceptions come out of it.
use document_feeder.Prelude.{
  ℕ, ◌<◌, String, ◌≡◌, refl, subst, sym, ap, ◌∙◌, ◌⊎◌, Bool, true, false, not, ◌&&◌, ltb, arith,
  none, some, ok, raise, inl, inr,
}
use document_feeder.Prelude.Exec.Laws.{
  Ensures, Raises, bind-Ensures, bind-Raises, try-Ensures, try-Raises,
}
use document_feeder.Models.Job.{DocumentJob, received, delivered, quarantined, failed}
use document_feeder.Connectors.{Failure}
use document_feeder.Pipeline.World.{Environment, Run}
use document_feeder.Pipeline.Activity.Laws.{
  IsRecordError, event-Keeps, event-Raises, save_job-job, save_job-Raises,
}
use document_feeder.Pipeline.Delivery.{move_work_copy}
use document_feeder.Pipeline.Process.{
  is_permanent, begin, announce, start, work, quarantine, deliver_job, route, schedule_retry,
  give_up, retry_or_fail, recover, process,
}

-- The ways in which a job is settled, under a bound on the attempts: delivered or held for a
-- review, both without an error; to be tried again at a time, with attempts left; or failed.
pub data IsSettled (attempts : ℕ) (job : DocumentJob) : Type 0 where
  done :
      job.status ≡ delivered
      → job.last_error ≡ none
      → job.next_attempt_at ≡ none
      → IsSettled attempts job
  held :
      job.status ≡ quarantined
      → job.last_error ≡ none
      → job.next_attempt_at ≡ none
      → IsSettled attempts job
  again :
      (at : ℕ)
      → job.status ≡ received
      → job.next_attempt_at ≡ some at
      → job.attempt_count < attempts
      → IsSettled attempts job
  broken : job.status ≡ failed → job.next_attempt_at ≡ none → IsSettled attempts job

-- The lease is given back.
pub record IsFree (job : DocumentJob) : Type 0 where
  pub no_worker : job.worker_id ≡ none
  pub no_lease : job.lease_expires_at ≡ none

same_fields :
    {attempts : ℕ} (j j' : DocumentJob)
    → j'.status ≡ j.status
    → j'.last_error ≡ j.last_error
    → j'.next_attempt_at ≡ j.next_attempt_at
    → j'.attempt_count ≡ j.attempt_count
    → IsSettled attempts j
    → IsSettled attempts j'
same_fields j j' s l n c (done p q r) = done (s ∙ p) (l ∙ q) (n ∙ r)
same_fields j j' s l n c (held p q r) = held (s ∙ p) (l ∙ q) (n ∙ r)
same_fields j j' s l n c (again at p q r) = again at (s ∙ p) (n ∙ q) (rw c r)
same_fields j j' s l n c (broken p q) = broken (s ∙ p) (n ∙ q)

module _ (env : Environment) where
  abbrev State : Type 0
  State = Run env.Files

  abbrev EndsSettled : State → Type 0
  EndsSettled s = IsSettled env.settings.worker_max_attempts s.job

  move-status :
      (target : String) (s : State) → (move_work_copy env target s).1.job.status ≡ s.job.status
  unfolding move_work_copy
  move-status target s = ground arith

  -- the status after a branch of the body
  abbrev EndsHeld : State → Type 0
  EndsHeld s = s.job.status ≡ quarantined

  abbrev EndsRouted : State → Type 0
  EndsRouted s = (s.job.status ≡ delivered) ⊎ (s.job.status ≡ quarantined)

  quarantine-Ensures : (s : State) → Ensures (λ _. EndsHeld) (quarantine env) s
  unfolding quarantine
  quarantine-Ensures s =
      bind-Ensures (λ _. EndsHeld) (λ _. EndsHeld) _ _ s
        (bind-Ensures (λ _. EndsHeld) (λ _. EndsHeld) _ _ s (λ a e. refl)
          (λ _ s p.
            bind-Ensures (λ _. EndsHeld) (λ _. EndsHeld) _ _ s (λ a e. p)
              (λ target s p a e. move-status target s ∙ p)))
        (λ _ s p a e. ap (λ (job : DocumentJob). job.status) (event-Keeps env _ s) ∙ p)

  route-Ensures : (b : Bool) (s : State) → Ensures (λ _. EndsRouted) (route env b) s
  unfolding route deliver_job
  route-Ensures false s a e = inr (quarantine-Ensures s a e)
  route-Ensures true s a e =
      bind-Ensures (λ _ _. Unit) (λ _. EndsRouted) _ _ s (λ a e. tt) (λ _ s _ a e. inl refl) a e

  work-Ensures : (s : State) → Ensures (λ _. EndsSettled) (work env) s
  unfolding work
  work-Ensures s =
      bind-Ensures (λ _. EndsRouted) (λ _. EndsSettled) _ _ s
        (bind-Ensures (λ _ _. Unit) (λ _. EndsRouted) _ _ s (λ a e. tt)
          (λ _ s _.
            bind-Ensures (λ _ _. Unit) (λ _. EndsRouted) _ _ s (λ a e. tt)
              (λ b s _. route-Ensures b s)))
        (λ _ s p a e. elim p [ inl d ↦ done d refl refl | inr h ↦ held h refl refl ])

  by_event :
      (j j' : DocumentJob)
      → j' ≡ j
      → IsSettled env.settings.worker_max_attempts j
      → IsSettled env.settings.worker_max_attempts j'
  by_event j j' e p = subst (IsSettled env.settings.worker_max_attempts) (sym e) p

  schedule_retry-Ensures :
      (e : Failure) (error : String) (s : State)
      → s.job.attempt_count < env.settings.worker_max_attempts
      → Ensures (λ _. EndsSettled) (schedule_retry env e error) s
  unfolding schedule_retry
  schedule_retry-Ensures e error s left =
      let P = λ (s : State).
        (s.job.status ≡ received) × (s.job.attempt_count < env.settings.worker_max_attempts) in
      bind-Ensures (λ _. EndsSettled) (λ _. EndsSettled) _ _ s
        (bind-Ensures (λ _. P) (λ _. EndsSettled) _ _ s (λ a k. (refl, left))
          (λ _ s p.
            bind-Ensures (λ _. P) (λ _. EndsSettled) _ _ s (λ a k. p)
              (λ t s p a k. again _ p.0 refl p.1)))
        (λ _ s p a k. by_event _ _ (event-Keeps env _ s) p)

  give_up-Ensures : (error : String) (s : State) → Ensures (λ _. EndsSettled) (give_up env error) s
  unfolding give_up
  give_up-Ensures error s =
      bind-Ensures (λ _. EndsSettled) (λ _. EndsSettled) _ _ s (λ a k. broken refl refl)
        (λ _ s p a k. by_event _ _ (event-Keeps env _ s) p)

  retry_or_fail-Ensures :
      (e : Failure) (error : String) (b : Bool) (s : State)
      → (not (is_permanent e) && ltb s.job.attempt_count env.settings.worker_max_attempts) ≡ b
      → Ensures (λ _. EndsSettled) (retry_or_fail env e error b) s
  unfolding retry_or_fail
  retry_or_fail-Ensures e error true s h = schedule_retry-Ensures e error s (ground arith)
  retry_or_fail-Ensures e error false s h = give_up-Ensures error s

  recover-Ensures : (e : Failure) (s : State) → Ensures (λ _. EndsSettled) (recover env e) s
  unfolding recover
  recover-Ensures e s =
      bind-Ensures (λ _ _. Unit) (λ _. EndsSettled) _ _ s (λ a k. tt)
        (λ error s _.
          bind-Ensures (λ _ _. Unit) (λ _. EndsSettled) _ _ s (λ a k. tt)
            (λ _ s _.
              bind-Ensures
                (λ b (s : State).
                  (not (is_permanent e) && ltb s.job.attempt_count env.settings.worker_max_attempts)
                  ≡ b)
                (λ _. EndsSettled) _ _ s (λ a k. cc)
                (λ b s h. retry_or_fail-Ensures e error b s h)))

  -- A job that `process` returns is delivered or quarantined without an error, put back with the
  -- time of its next attempt while attempts are left, or failed; and its lease is given back. This
  -- holds whatever the extractor, the classifier, the connectors and the file system do.
  pub process-IsSettled :
      (s : State) (job : DocumentJob)
      → (process env s).0 ≡ ok job
      → IsSettled env.settings.worker_max_attempts job × IsFree job
  unfolding process
  process-IsSettled s =
      let EndsFree = λ (s : State). EndsSettled s × IsFree s.job in
      let Q = λ (job : DocumentJob) (s : State).
        IsSettled env.settings.worker_max_attempts job × IsFree job in
      bind-Ensures (λ _. EndsFree) Q _ _ s
        (bind-Ensures (λ _. EndsFree) (λ _. EndsFree) _ _ s
          (bind-Ensures (λ _. EndsSettled) (λ _. EndsFree) _ _ s
            (bind-Ensures (λ _ _. Unit) (λ _. EndsSettled) _ _ s (λ a k. tt)
              (λ _ s _. try-Ensures (λ _. EndsSettled) _ _ s (work-Ensures s) recover-Ensures))
            (λ _ s p a k. (
              same_fields s.job (record s.job { worker_id = none; lease_expires_at = none }) refl
                  refl refl refl p,
              record { no_worker = refl; no_lease = refl },
            )))
          (λ _ s p a k. (
            by_event _ _ (save_job-job env s) (
                same_fields s.job (record s.job { updated_at = env.clock s.readings }) refl refl
                  refl refl p.0),
            subst IsFree (sym (save_job-job env s))
                (record { no_worker = p.1.no_worker; no_lease = p.1.no_lease }),
          )))
        (λ _ s p job k.
          let same : s.job ≡ job = cc in
          subst (λ j. IsSettled env.settings.worker_max_attempts j × IsFree j) same p)

  retry_or_fail-Raises :
      (e : Failure) (error : String) (b : Bool) (s : State)
      → Raises (IsRecordError env) (retry_or_fail env e error b) s
  unfolding retry_or_fail schedule_retry give_up
  retry_or_fail-Raises e error true s =
      bind-Raises (IsRecordError env) _ _ s
        (bind-Raises (IsRecordError env) _ _ s (λ x k. cc)
          (λ _ s. bind-Raises (IsRecordError env) _ _ s (λ x k. cc) (λ t s x k. cc)))
        (λ _ s. event-Raises env _ s)
  retry_or_fail-Raises e error false s =
      bind-Raises (IsRecordError env) _ _ s (λ x k. cc) (λ _ s. event-Raises env _ s)

  recover-Raises : (e : Failure) (s : State) → Raises (IsRecordError env) (recover env e) s
  unfolding recover
  recover-Raises e s =
      bind-Raises (IsRecordError env) _ _ s (λ x k. cc)
        (λ error s.
          bind-Raises (IsRecordError env) _ _ s (λ x k. cc)
            (λ _ s.
              bind-Raises (IsRecordError env) _ _ s (λ x k. cc)
                (λ b s. retry_or_fail-Raises e error b s)))

  begin-Raises : (b : Bool) (s : State) → Raises (IsRecordError env) (begin env b) s
  unfolding begin
  begin-Raises false s x k = cc
  begin-Raises true s x k =
      bind-Raises (IsRecordError env) _ _ s (λ x k. cc) (λ _ s. save_job-Raises env s) x k

  announce-Raises : (b : Bool) (s : State) → Raises (IsRecordError env) (announce env b) s
  unfolding announce
  announce-Raises false s x k = cc
  announce-Raises true s x k = event-Raises env _ s x k

  start-Raises : (s : State) → Raises (IsRecordError env) (start env) s
  unfolding start
  start-Raises s =
      bind-Raises (IsRecordError env) _ _ s
        (bind-Raises (IsRecordError env) _ _ s (λ x k. cc) (λ b s. begin-Raises b s))
        (λ _ s. bind-Raises (IsRecordError env) _ _ s (λ x k. cc) (λ b s. announce-Raises b s))

  -- No exception of the extractor, the classifier, a connector or the file system comes out of
  -- `process`: what it raises is the refusal of a row, or of a field of an event.
  pub process-Raises : (s : State) (e : Failure) → (process env s).0 ≡ raise e → IsRecordError env e
  unfolding process
  process-Raises s =
      bind-Raises (IsRecordError env) _ _ s
        (bind-Raises (IsRecordError env) _ _ s
          (bind-Raises (IsRecordError env) _ _ s
            (bind-Raises (IsRecordError env) _ _ s (start-Raises s)
              (λ _ s. try-Raises (IsRecordError env) _ _ s recover-Raises))
            (λ _ s x k. cc))
          (λ _ s. save_job-Raises env s))
        (λ _ s x k. cc)
