-- ===== src/Store/Jobs/Lease.antt =====
-- Leases: while a worker's lease runs, no other worker is handed its job.
pub mod Exclusive
use document_feeder.Prelude.{
  ℕ, ◌+◌, ◌≤◌, ◌<◌, String, ◌≡◌, refl, ◌≢◌, Bool, true, false, ◌&&◌, Option, none, some, List, [],
  ◌∷◌, arith, ◌==◌, eq_iff, eq_refl, Bool-cases, inl, inr, subst, update_rows, if◌then◌else◌,
}
use document_feeder.Models.Job.{DocumentJob, processing, is_processing, is_quarantined, is_failed}
use document_feeder.Table.{lookup, has}
use document_feeder.Table.Reads.{
  exists-find_first, lookup-update_rows, lookup-remove, find_first-append, find_first_holds,
}
use document_feeder.Table.Unique.{lookup_of_mem}
use document_feeder.Store.Jobs.{
  JobRow, JobTable, row_id, seconds, claimed, next_due, claim_row, claim_next, model,
  claim_delivery, renew_lease, retry_failed, delete_stalled, delete_row, create_if_absent, save,
  write_row, hash_taken, values, is_deletable, holds,
}
use document_feeder.Store.Jobs.Integrity.{
  IsWellFormed, Call, call_save, call_create, call_claim_delivery, call_claim_next,
  call_renew_lease, call_retry_failed, call_delete, apply, apply_all, apply-IsWellFormed,
}
use document_feeder.Store.Jobs.Creation.{lookup-write_ne}
use document_feeder.Store.Jobs.Queue.{IsDue, next_due-IsNext}

-- The row is leased to the worker `w` at least until a time.
pub record Holds (w : String) (until : ℕ) (row : JobRow) : Type 0 where
  pub running : row.status ≡ processing
  pub owner : row.worker_id ≡ some w
  pub lease : ℕ
  pub leased : row.lease_expires_at ≡ some lease
  pub lasts : until ≤ lease

-- The job is stored, and so leased.
pub record IsHeld (w : String) (until : ℕ) (id : String) (t : JobTable) : Type 0 where
  pub row : JobRow
  pub found : lookup row_id id t ≡ some row
  pub held : Holds w until row

-- What the rest of the system may do meanwhile: any call of the queue's methods by any worker
-- before the lease ends, a renewal by the holder, and saves and deletions of other jobs.
pub data Meanwhile (w : String) (until : ℕ) (id : String) : Call → Type 0 where
  a_claim :
      (now : ℕ) (locked : String → Bool) (w' : String) (lease : ℕ)
      → now < until
      → Meanwhile w until id (call_claim_next now locked w' lease)
  a_delivery : (now : ℕ) (j : String) → Meanwhile w until id (call_claim_delivery now j)
  a_creation : (job : DocumentJob) → Meanwhile w until id (call_create job)
  a_retry : (now : ℕ) (j : String) → Meanwhile w until id (call_retry_failed now j)
  another_renewal :
      (now : ℕ) (j w' : String) (lease : ℕ)
      → w' ≢ w
      → Meanwhile w until id (call_renew_lease now j w' lease)
  a_renewal :
      (now : ℕ) (j : String) (lease : ℕ)
      → until ≤ now + seconds lease
      → Meanwhile w until id (call_renew_lease now j w lease)
  another_save :
      (now : ℕ) (job : DocumentJob) → job.id ≢ id → Meanwhile w until id (call_save now job)
  another_delete : (j : String) → j ≢ id → Meanwhile w until id (call_delete j)

pub data AllMeanwhile (w : String) (until : ℕ) (id : String) : List Call → Type 0 where
  done : AllMeanwhile w until id []
  then_call :
      {c : Call} {cs : List Call}
      → Meanwhile w until id c
      → AllMeanwhile w until id cs
      → AllMeanwhile w until id (c ∷ cs)

module _ (w : String) (until : ℕ) (id : String) where
  -- the row of a held job is not due before the end
  not-IsDue : (now : ℕ) (row : JobRow) → Holds w until row → now < until → ¬ IsDue now row
  not-IsDue now row h n (IsDue.fresh s _) = cc (h.running)
  not-IsDue now row h n (IsDue.retry at s _ _) = cc (h.running)
  not-IsDue now row h n (IsDue.abandoned at s l e) = ground (arith, h.leased)

  pub next_due_other :
      (now : ℕ) (locked : String → Bool) (t : JobTable) {row : JobRow}
      → IsWellFormed t
      → IsHeld w until id t
      → now < until
      → next_due now locked t ≡ some row
      → row.id ≢ id
  next_due_other now locked t {row} wf h n e same =
      let next = next_due-IsNext now locked t e in
      let here : lookup row_id id t ≡ some row =
        subst (λ k. lookup row_id k t ≡ some row) same
          (lookup_of_mem row_id t wf.ids next.stored) in
      let one : row ≡ h.row = cc (here, h.found) in
      not-IsDue now h.row h.held n (subst (IsDue now) one next.is_due)

  update_rows-IsHeld :
      (p : JobRow → Bool) (f : JobRow → JobRow) (t : JobTable)
      → ((r : JobRow) → (f r).id ≡ r.id)
      → (h : IsHeld w until id t) → Holds w until (if p h.row then f h.row else h.row)
      → IsHeld w until id (update_rows p f t)
  update_rows-IsHeld p f t keeps h new = record {
    row = if p h.row then f h.row else h.row;
    found = rw (lookup-update_rows row_id id p f t keeps, h.found);
    held = new;
  }

  -- the key of the held row
  held_id : (t : JobTable) (h : IsHeld w until id t) → h.row.id ≡ id
  held_id t h = (eq_iff h.row.id id).0 (find_first_holds (λ r. r.id == id) t h.found)

  untouched :
      (row row' : JobRow) (b : Bool)
      → b ≡ false
      → Holds w until row
      → Holds w until (if b then row' else row)
  untouched row row' b e h = rw e h

  miss_delivery :
      (row : JobRow) (j : String)
      → Holds w until row
      → (row.id == j && is_quarantined row.status) ≡ false
  miss_delivery row j h = ground (arith, h.running)

  miss_retry :
      (row : JobRow) (j : String)
      → Holds w until row
      → (row.id == j && is_failed row.status) ≡ false
  miss_retry row j h = ground (arith, h.running)

  miss_renewal :
      (row : JobRow) (j w' : String)
      → w' ≢ w
      → Holds w until row
      → (row.id == j && (is_processing row.status && holds row.worker_id w')) ≡ false
  miss_renewal row j w' ne h = ground (arith, h.owner, eq_iff w w')

  renewed :
      (b : Bool) (now lease : ℕ) (row : JobRow)
      → until ≤ now + seconds lease
      → Holds w until row
      → Holds w until (
          if b
          then record row { lease_expires_at = some (now + seconds lease); updated_at = now }
          else row)
  renewed true now lease row l h = record {
    running = h.running;
    owner = h.owner;
    lease = now + seconds lease;
    leased = refl;
    lasts = l;
  }
  renewed false now lease row l h = h

  claim_row-IsHeld :
      (now : ℕ) (locked : String → Bool) (w' : String) (lease : ℕ) (t : JobTable)
      (found : Option JobRow)
      → IsWellFormed t
      → IsHeld w until id t
      → now < until
      → next_due now locked t ≡ found
      → IsHeld w until id (claim_row now w' lease found t).1
  unfolding claim_row claimed
  claim_row-IsHeld now locked w' lease t none wf h n e = h
  claim_row-IsHeld now locked w' lease t (some row) wf h n e =
      let other = next_due_other now locked t wf h n e in
      let miss : (h.row.id == row.id) ≡ false =
        ground (arith, eq_iff h.row.id row.id, held_id t h) in
      update_rows-IsHeld (λ r. r.id == row.id) _ t (λ r. refl) h (rw miss h.held)

  save-IsHeld :
      (now : ℕ) (job : DocumentJob) (t : JobTable)
      → job.id ≢ id
      → IsHeld w until id t
      → IsHeld w until id (apply (call_save now job) t)
  unfolding apply save write_row values
  save-IsHeld now job t ne h = elim (Bool-cases (has row_id job.id t && hash_taken row t)) [
    | inl e ↦ rw e h
    | inr e ↦ rw e (record {
      row = h.row;
      found = rw (lookup-write_ne row id t (ground (arith, eq_iff job.id id)), h.found);
      held = h.held;
    })
  ]
    where
      row : JobRow
      row = values (record job { updated_at = now })

  delete_row-IsHeld :
      (j : String) (found : Option JobRow) (t : JobTable)
      → j ≢ id
      → IsHeld w until id t
      → IsHeld w until id (delete_row j found t).1
  unfolding delete_row
  delete_row-IsHeld j none t ne h = h
  delete_row-IsHeld j (some row) t ne h = elim (Bool-cases (is_deletable row.status)) [
    | inl d ↦ rw d (record {
      row = h.row;
      found = ground (arith, lookup-remove row_id j id t, eq_iff j id, h.found);
      held = h.held;
    })
    | inr d ↦ rw d h
  ]

  create-IsHeld :
      (job : DocumentJob) (t : JobTable)
      → IsHeld w until id t
      → IsHeld w until id (create_if_absent job t).1
  unfolding create_if_absent
  create-IsHeld job t h = record {
    row = h.row;
    found = ground (
      arith,
      find_first-append (λ r. r.id == id) t (values job),
      exists-find_first (λ r. r.id == id) t,
      h.found,
    );
    held = h.held;
  }

  -- No call that may come in the meantime takes the job from its holder.
  pub apply-IsHeld :
      (c : Call) (t : JobTable)
      → Meanwhile w until id c
      → IsWellFormed t
      → IsHeld w until id t
      → IsHeld w until id (apply c t)
  unfolding apply claim_delivery claim_next renew_lease retry_failed delete_stalled
  apply-IsHeld c t (a_claim now locked w' lease n) wf h =
      claim_row-IsHeld now locked w' lease t (next_due now locked t) wf h n refl
  apply-IsHeld c t (a_delivery now j) wf h =
      update_rows-IsHeld _ _ t (λ r. refl) h
        (untouched h.row _ _ (miss_delivery h.row j h.held) h.held)
  apply-IsHeld c t (a_creation job) wf h = create-IsHeld job t h
  apply-IsHeld c t (a_retry now j) wf h =
      update_rows-IsHeld _ _ t (λ r. refl) h
        (untouched h.row _ _ (miss_retry h.row j h.held) h.held)
  apply-IsHeld c t (another_renewal now j w' lease ne) wf h =
      update_rows-IsHeld _ _ t (λ r. refl) h
        (untouched h.row _ _ (miss_renewal h.row j w' ne h.held) h.held)
  apply-IsHeld c t (a_renewal now j lease l) wf h =
      update_rows-IsHeld _ _ t (λ r. refl) h (renewed _ now lease h.row l h.held)
  apply-IsHeld c t (another_save now job ne) wf h = save-IsHeld now job t ne h
  apply-IsHeld c t (another_delete j ne) wf h = delete_row-IsHeld j (lookup row_id j t) t ne h
