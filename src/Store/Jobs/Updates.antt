-- ===== src/Store/Jobs/Updates.antt =====
-- When each conditional `UPDATE` of a job takes effect, and what it leaves.
use document_feeder.Prelude.{
  ℕ, ◌+◌, String, ◌≡◌, refl, Bool, false, ◌&&◌, Option, none, some, [], ◌∷◌, arith, ◌==◌, eq_iff,
  if◌then◌else◌, update_rows, count_rows, eqb, ◌∙◌, ap,
}
use mathlib.Core.Option
use document_feeder.Models.Job.{
  received, delivering, is_quarantined, is_processing, is_failed, DocumentJob,
}
use document_feeder.Table.{lookup}
use document_feeder.Table.Reads.{lookup-update_rows}
use document_feeder.Table.Unique.{rowcount-holds_at, holds_at}
use document_feeder.Store.Jobs.{
  JobRow, JobTable, row_id, seconds, holds, reset, model, get, claim_delivery, renew_lease,
  retry_failed,
}
use document_feeder.Store.Jobs.Integrity.{
  IsWellFormed, call_claim_delivery, apply, apply-IsWellFormed,
}

-- the job that a write gives, where the stored job meets the condition
abbrev pub changed_if :
    (DocumentJob → Bool) → (DocumentJob → DocumentJob) → Option DocumentJob → Option DocumentJob
changed_if q f none = none
changed_if q f (some job) = some (if q job then f job else job)

abbrev pub answers : (DocumentJob → Bool) → Option DocumentJob → Bool
answers q none = false
answers q (some job) = q job

-- A conditional write to the row at a key, seen through `get`.
module _ (q : DocumentJob → Bool) (f : JobRow → JobRow) (g : DocumentJob → DocumentJob)
    (keeps : (r : JobRow) → (f r).id ≡ r.id) (same : (r : JobRow) → model (f r) ≡ g (model r)) where
  at_key :
      (id : String) (o : Option JobRow)
      → Option.map row_id o ≡ Option.map (λ _. id) o
      → Option.map model (Option.map (λ r. if r.id == id && q (model r) then f r else r) o)
        ≡ changed_if q g (Option.map model o)
  at_key id none h = refl
  at_key id (some r) h = ground (arith, same r, eq_iff r.id id)

  found_id :
      (id : String) (t : JobTable)
      → Option.map row_id (lookup row_id id t) ≡ Option.map (λ _. id) (lookup row_id id t)
  found_id id [] = refl
  found_id id (x ∷ t) = ground (arith, eq_iff x.id id, found_id id t)

  get-update :
      (id : String) (t : JobTable)
      → get id (update_rows (λ r. r.id == id && q (model r)) f t) ≡ changed_if q g (get id t)
  unfolding get
  get-update id t =
      rw (lookup-update_rows row_id id (λ r. r.id == id && q (model r)) f t keeps)
        (at_key id (lookup row_id id t) (found_id id t))

answers_at :
    (q : DocumentJob → Bool) (o : Option JobRow)
    → holds_at row_id (λ r. q (model r)) o ≡ answers q (Option.map model o)
answers_at q none = refl
answers_at q (some r) = refl

module _ (now : ℕ) (id : String) (t : JobTable) (wf : IsWellFormed t) where
  -- the answer `rowcount == 1` of a conditional write to the row at a key
  rowcount :
      (q : DocumentJob → Bool)
      → eqb (count_rows (λ r. r.id == id && q (model r)) t) 1 ≡ answers q (get id t)
  unfolding get
  rowcount q =
      rowcount-holds_at row_id id (λ r. q (model r)) t wf.ids ∙ answers_at q (lookup row_id id t)

  -- In a table with unique ids and hashes `claim_delivery` succeeds exactly for a stored job in
  -- quarantine, which is then in delivery; otherwise the stored job is as it was.
  pub claim_delivery_lem :
      ((claim_delivery now id t).0 ≡ answers (λ job. is_quarantined job.status) (get id t))
      × (get id (claim_delivery now id t).1
          ≡ changed_if
              (λ job. is_quarantined job.status)
              (λ job. record job { status = delivering; updated_at = now })
              (get id t))
  unfolding claim_delivery model
  claim_delivery_lem = (
    rowcount (λ job. is_quarantined job.status),
    get-update (λ job. is_quarantined job.status)
        (λ r. record r { status = delivering; updated_at = now }) _ (λ r. refl) (λ r. refl) id t,
  )

  -- In a table with unique ids and hashes `renew_lease` succeeds exactly for a stored job that the
  -- worker processes, whose lease then ends `lease` seconds from now; otherwise the stored job is
  -- as it was.
  pub renew_lease_lem :
      (w : String) (lease : ℕ)
      → ((renew_lease now id w lease t).0
          ≡ answers (λ job. is_processing job.status && holds job.worker_id w) (get id t))
        × (get id (renew_lease now id w lease t).1
            ≡ changed_if
                (λ job. is_processing job.status && holds job.worker_id w)
                (λ job. record job {
                  lease_expires_at = some (now + seconds lease);
                  updated_at = now;
                })
                (get id t))
  unfolding renew_lease model
  renew_lease_lem w lease = (
    rowcount (λ job. is_processing job.status && holds job.worker_id w),
    get-update (λ job. is_processing job.status && holds job.worker_id w)
        (λ r. record r { lease_expires_at = some (now + seconds lease); updated_at = now }) _
        (λ r. refl) (λ r. refl) id t,
  )

  abbrev restarted : DocumentJob → DocumentJob
  restarted job = record job {
    status = received;
    attempt_count = 0;
    next_attempt_at = none;
    lease_expires_at = none;
    worker_id = none;
    last_error = none;
    updated_at = now;
  }

  -- In a table with unique ids and hashes `retry_failed` puts a failed job back into the queue with
  -- no attempt counted and no lease, and returns it; for any other job it returns nothing and the
  -- stored job is as it was.
  pub retry_failed_lem :
      ((retry_failed now id t).0 ≡ (
        if answers (λ job. is_failed job.status) (get id t)
        then changed_if (λ job. is_failed job.status) restarted (get id t)
        else none))
      × (get id (retry_failed now id t).1
          ≡ changed_if (λ job. is_failed job.status) restarted (get id t))
  unfolding retry_failed model
  retry_failed_lem =
      let kept =
        get-update (λ job. is_failed job.status) (reset now) restarted (λ r. refl) (λ r. refl) id
          t in
      (rw (rowcount (λ job. is_failed job.status), kept), kept)

no_longer :
    (now : ℕ) (o : Option DocumentJob)
    → answers
        (λ job. is_quarantined job.status)
        (changed_if
          (λ job. is_quarantined job.status)
          (λ job. record job { status = delivering; updated_at = now })
          o)
      ≡ false
no_longer now none = refl
no_longer now (some job) = ground arith

-- In a table with unique ids and hashes, of two calls of `claim_delivery` for a job in a row the
-- second does not succeed.
pub claim_delivery_once :
    (now later : ℕ) (id : String) (t : JobTable)
    → IsWellFormed t
    → (claim_delivery later id (claim_delivery now id t).1).0 ≡ false
claim_delivery_once now later id t wf =
    let t' = (claim_delivery now id t).1 in
    let wf' : IsWellFormed t' =
      unfold apply in apply-IsWellFormed (call_claim_delivery now id) t wf in
    (claim_delivery_lem later id t' wf').0
    ∙ ap (answers (λ job. is_quarantined job.status)) (claim_delivery_lem now id t wf).1
    ∙ no_longer now (get id t)
