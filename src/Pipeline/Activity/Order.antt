-- ===== src/Pipeline/Activity/Order.antt =====
-- The times of the events of one job increase.
use document_feeder.Prelude.{
  ℕ, suc, ◌<◌, String, ◌≡◌, refl, Option, none, some, List, [], ◌∷◌, ◌++◌, ◌==◌, arith, ap, ◌∙◌,
  exists, eq_refl, ok, Bool-cases, inl, inr,
}
use document_feeder.Prelude.Exec.{◌>>=◌}
use document_feeder.Prelude.Exec.Laws.{Ensures, bind-Ensures}
use document_feeder.Models.Job.{DocumentJob, JobEvent}
use document_feeder.Store.Events.{save_event}
use document_feeder.Pipeline.World.{Environment, Run}
use document_feeder.Pipeline.Activity.{
  EventArgs, event_of, last_of, put_last, after_previous, recorded, start_of, event_at, event,
}

last-put : (k : String) (t : ℕ) (m : List (String × ℕ)) → last_of k (put_last k t m) ≡ some t
last-put k t [] = ground (arith, eq_refl k)
last-put k t ((j, u) ∷ m) = ground (arith, last-put k t m)

later : (previous t : ℕ) → previous < after_previous (some previous) t
unfolding after_previous
later previous t = ground arith

-- The log holds one more event, the last one: it is of the job, and starts at the time kept for
-- the job.
pub record IsLogged {Files : Type 0} (before : Run Files) (start : ℕ) (after : Run Files)
    : Type 0 where
  pub written : JobEvent
  pub appended : after.db.events ≡ before.db.events ++ written ∷ []
  pub of_job : written.job_id ≡ before.job.id
  pub starts : written.started_at ≡ start
  pub kept : last_of before.job.id after.last_event_at ≡ some start

module _ (env : Environment) where
  recorded-Ensures :
      (e : JobEvent) (s : Run env.Files)
      → Ensures
          (λ _ (s' : Run env.Files).
            (s'.db.events ≡ s.db.events ++ e ∷ []) × (s'.last_event_at ≡ s.last_event_at))
          (recorded env (save_event e s.db.events))
          s
  unfolding recorded save_event
  recorded-Ensures e s a k = elim (Bool-cases (exists (λ x. x.id == e.id) s.db.events)) [
    | inl t ↦ let k' = rw t at k in cc
    | inr t ↦ rw t (refl, refl)
  ]

  -- the state between the update of `_last_event_at` and the write of the event
  abbrev IsReady : Run env.Files → ℕ → Run env.Files → Type 0
  IsReady before start s =
      (s.job ≡ before.job)
      × (s.db.events ≡ before.db.events)
      × (last_of before.job.id s.last_event_at ≡ some start)

  recorded-IsLogged :
      (a : EventArgs) (before : Run env.Files) (start : ℕ) (id : String) (rule : Option String)
      (s : Run env.Files)
      → IsReady before start s
      → Ensures
          (λ _. IsLogged before start)
          (recorded env (save_event (event_of env a start id rule s.job) s.db.events))
          s
  recorded-IsLogged a before start id rule s p u k =
      let e = event_of env a start id rule s.job in
      let r = recorded-Ensures e s u k in
      record {
        written = e;
        appended = r.0 ∙ ap (λ es. es ++ e ∷ []) p.1;
        of_job = ap (λ (job : DocumentJob). job.id) p.0;
        starts = refl;
        kept = ap (last_of before.job.id) r.1 ∙ p.2;
      }

  event_at-IsLogged :
      (a : EventArgs) (start : ℕ) (s : Run env.Files)
      → Ensures (λ _. IsLogged s start) (event_at env a start) s
  unfolding event_at
  event_at-IsLogged a start before =
      let ready = IsReady before start in
      let logged = IsLogged before start in
      bind-Ensures (λ _. ready) (λ _. logged) _ _ before
        (λ u k. (refl, refl, last-put before.job.id start before.last_event_at))
        (λ _ s p.
          bind-Ensures (λ _. ready) (λ _. logged) _ _ s (λ u k. p)
            (λ _ s p.
              bind-Ensures (λ _. ready) (λ _. logged) _ _ s (λ u k. p)
                (λ v s p.
                  bind-Ensures (λ _. ready) (λ _. logged) _ _ s (λ u k. p)
                    (λ rule s p.
                      bind-Ensures (λ _. ready) (λ _. logged) _ _ s (λ u k. p)
                        (λ id s p. recorded-IsLogged a before start id rule s p)))))

  same_log :
      {start : ℕ} {after : Run env.Files} (before : Run env.Files) (n : ℕ)
      → IsLogged (record before { readings = n }) start after
      → IsLogged before start after
  same_log before n l = record {
    written = l.written;
    appended = l.appended;
    of_job = l.of_job;
    starts = l.starts;
    kept = l.kept;
  }

  started :
      (a : EventArgs) (t : Option ℕ) (s : Run env.Files) (previous : ℕ)
      → last_of s.job.id s.last_event_at ≡ some previous
      → let m = start_of env t >>= λ t s.
          event_at env a (after_previous (last_of s.job.id s.last_event_at) t) s in
        (m s).0 ≡ ok tt → (start : ℕ) × (previous < start) × IsLogged s start (m s).1
  unfolding start_of ◌>>=◌
  started a none s previous h k =
      let t = env.clock s.readings in
      (
        after_previous (last_of s.job.id s.last_event_at) t,
        rw h (later previous t),
        same_log s (suc s.readings)
            (event_at-IsLogged a _ (record s { readings = suc s.readings }) tt k),
      )
  started a (some t) s previous h k = (
    after_previous (last_of s.job.id s.last_event_at) t,
    rw h (later previous t),
    event_at-IsLogged a _ s tt k,
  )

  -- An event that is written is the last row of the log, and starts later than the time kept for
  -- the event of the same job before it, whatever the clock says and whatever start the caller
  -- gives; its own start is kept for the next one.
  pub event-later :
      (a : EventArgs) (s : Run env.Files) (previous : ℕ)
      → last_of s.job.id s.last_event_at ≡ some previous
      → (event env a s).0 ≡ ok tt
      → (start : ℕ) × (previous < start) × IsLogged s start (event env a s).1
  unfolding event
  event-later a s previous h k = started a a.started_at s previous h k
