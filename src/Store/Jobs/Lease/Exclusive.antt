-- ===== src/Store/Jobs/Lease/Exclusive.antt =====
-- The claim of a job excludes every other claim of it until the lease ends.
use document_feeder.Prelude.{
  ℕ, ◌+◌, ◌<◌, String, ◌≡◌, refl, ◌≢◌, Bool, Option, none, some, List, [], ◌∷◌, arith, ◌==◌,
  eq_refl,
}
use document_feeder.Models.Job.{DocumentJob}
use document_feeder.Table.Reads.{lookup-update_rows}
use document_feeder.Table.Unique.{lookup_of_mem}
use document_feeder.Store.Jobs.{
  JobRow, JobTable, row_id, seconds, claimed, next_due, claim_row, claim_next, model,
}
use document_feeder.Store.Jobs.Integrity.{
  IsWellFormed, Call, call_claim_next, apply, apply_all, apply-IsWellFormed,
}
use document_feeder.Store.Jobs.Queue.{next_due-IsNext}
use document_feeder.Store.Jobs.Lease.{
  IsHeld, AllMeanwhile, done, then_call, next_due_other, apply-IsHeld,
}

-- the row behind a claimed job
claimed_row :
    (now : ℕ) (w' : String) (lease : ℕ) (found : Option JobRow) (t : JobTable) {job : DocumentJob}
    → (claim_row now w' lease found t).0 ≡ some job
    → (row : JobRow) × (found ≡ some row) × (job.id ≡ row.id)
unfolding claim_row model claimed
claimed_row now w' lease none t e = cc
claimed_row now w' lease (some row) t e = (row, refl, ground arith)

module _ (w : String) (until : ℕ) (id : String) where
  apply_all-IsHeld :
      (cs : List Call) (t : JobTable)
      → AllMeanwhile w until id cs
      → IsWellFormed t
      → IsHeld w until id t
      → IsWellFormed (apply_all cs t) × IsHeld w until id (apply_all cs t)
  unfolding apply_all
  apply_all-IsHeld [] t done wf h = (wf, h)
  apply_all-IsHeld (c ∷ cs) t (then_call m ms) wf h =
      apply_all-IsHeld cs (apply c t) ms (apply-IsWellFormed c t wf)
        (apply-IsHeld w until id c t m wf h)

  -- While the job is held no claim hands it out.
  claim_next_other :
      (now : ℕ) (locked : String → Bool) (w' : String) (lease : ℕ) (t : JobTable)
      {job : DocumentJob}
      → IsWellFormed t
      → IsHeld w until id t
      → now < until
      → (claim_next now locked w' lease t).0 ≡ some job
      → job.id ≢ id
  unfolding claim_next
  claim_next_other now locked w' lease t {job} wf h n e =
      let found = claimed_row now w' lease (next_due now locked t) t e in
      λ is. next_due_other w until id now locked t wf h n found.1 (cc (found.2))

claim_row_holds :
    (now : ℕ) (locked : String → Bool) (w : String) (lease : ℕ) (t : JobTable)
    (found : Option JobRow) {job : DocumentJob}
    → IsWellFormed t
    → next_due now locked t ≡ found
    → (claim_row now w lease found t).0 ≡ some job
    → IsHeld w (now + seconds lease) job.id (claim_row now w lease found t).1
unfolding claim_row claimed model
claim_row_holds now locked w lease t none wf d e = cc
claim_row_holds now locked w lease t (some row) {job} wf d e =
    let next = next_due-IsNext now locked t d in
    let here = lookup_of_mem row_id t wf.ids next.stored in
    let same : job.id ≡ row.id = ground arith in
    rw same (record {
      row = claimed now w lease row;
      found =
          rw
            (
              lookup-update_rows row_id row.id (λ r. r.id == row.id) (claimed now w lease) t
                  (λ r. refl),
              here,
            )
            (ground (arith, eq_refl row.id));
      held = record {
        running = refl;
        owner = refl;
        lease = now + seconds lease;
        leased = refl;
        lasts = omega arith;
      };
    })

-- The claim itself makes its worker the holder.
claim_next-IsHeld :
    (now : ℕ) (locked : String → Bool) (w : String) (lease : ℕ) (t : JobTable) {job : DocumentJob}
    → IsWellFormed t
    → (claim_next now locked w lease t).0 ≡ some job
    → IsHeld w (now + seconds lease) job.id (claim_next now locked w lease t).1
unfolding claim_next
claim_next-IsHeld now locked w lease t wf e =
    claim_row_holds now locked w lease t (next_due now locked t) wf refl e

-- In a table with unique ids and hashes a worker's claim keeps its job from every other claim until
-- the lease ends: whatever calls come in between, among them claims by others, renewals and
-- retries, but no save or deletion of this job, a claim before that time hands out another job.
pub claim_exclusive :
    (now : ℕ) (locked : String → Bool) (w : String) (lease : ℕ) (t : JobTable) {job : DocumentJob}
    → IsWellFormed t
    → (claim_next now locked w lease t).0 ≡ some job
    → (cs : List Call) → AllMeanwhile w (now + seconds lease) job.id cs
    → (now' : ℕ) (locked' : String → Bool) (w' : String) (lease' : ℕ) {job' : DocumentJob}
    → now' < now + seconds lease
    → (claim_next now' locked' w' lease' (apply_all cs (claim_next now locked w lease t).1)).0
      ≡ some job'
    → job'.id ≢ job.id
claim_exclusive now locked w lease t {job} wf e cs ms now' locked' w' lease' n e' =
    let t1 = (claim_next now locked w lease t).1 in
    let wf1 : IsWellFormed t1 =
      unfold apply in apply-IsWellFormed (call_claim_next now locked w lease) t wf in
    let after =
      apply_all-IsHeld w (now + seconds lease) job.id cs t1 ms wf1
        (claim_next-IsHeld now locked w lease t wf e) in
    claim_next_other w (now + seconds lease) job.id now' locked' w' lease' (apply_all cs t1) after.0
      after.1 n e'
