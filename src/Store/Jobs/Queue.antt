-- ===== src/Store/Jobs/Queue.antt =====
-- The queue: what `claim_next` hands to a worker.
use document_feeder.Prelude.{
  ℕ, ◌≤◌, String, ◌≡◌, refl, Bool, true, false, not, ◌&&◌, Option, none, some, [], ◌∷◌, arith, All,
  select, ◌+◌, ◌*◌, subst,
}
use mathlib.Core.List.{Memᴰ}
use document_feeder.Prelude.Sorting.{sort_by-least}
use document_feeder.Models.Job.{
  JobStatus, received, processing, delivering, delivered, quarantined, failed, DocumentJob,
}
use document_feeder.Table.{modify}
use document_feeder.Table.Reads.{mem-select}
use document_feeder.Store.Jobs.{
  JobRow, JobTable, older, due, claimed, next_due, claim_row, claim_next, model, row_id,
}

-- the ways in which a job waits for a worker
pub data IsDue (now : ℕ) (row : JobRow) : Type 0 where
  fresh : row.status ≡ received → row.next_attempt_at ≡ none → IsDue now row
  retry :
      (at : ℕ) → row.status ≡ received → row.next_attempt_at ≡ some at → at ≤ now → IsDue now row
  abandoned :
      (at : ℕ) → row.status ≡ processing → row.lease_expires_at ≡ some at → at ≤ now → IsDue now row

abbrev free : ℕ → (String → Bool) → JobRow → Bool
free now locked r = due now r && not (locked r.id)

-- The row that a job is claimed from: no free row was created before it.
pub record IsNext (now : ℕ) (locked : String → Bool) (t : JobTable) (row : JobRow) : Type 0 where
  pub stored : Memᴰ row t
  pub is_due : IsDue now row
  pub unlocked : locked row.id ≡ false
  pub oldest :
      All
        (λ (r : JobRow). row.created_at ≤ r.created_at)
        (select (λ r. due now r && not (locked r.id)) t)

due-IsDue :
    (now : ℕ) (row : JobRow) (s : JobStatus) (next lease : Option ℕ)
    → row.status ≡ s
    → row.next_attempt_at ≡ next
    → row.lease_expires_at ≡ lease
    → due now row ≡ true
    → IsDue now row
unfolding due
due-IsDue now row received none lease s n l h = fresh s n
due-IsDue now row received (some at) lease s n l h = retry at s n (ground arith)
due-IsDue now row processing next (some at) s n l h = abandoned at s l (ground arith)
due-IsDue now row processing next none s n l h = absurd (ground arith)
due-IsDue now row delivering next lease s n l h = absurd (ground arith)
due-IsDue now row delivered next lease s n l h = absurd (ground arith)
due-IsDue now row quarantined next lease s n l h = absurd (ground arith)
due-IsDue now row failed next lease s n l h = absurd (ground arith)

older_total : (x y : JobRow) → older x y ≡ false → older y x ≡ true
older_total x y h = ground arith

older_trans : (x y z : JobRow) → older x y ≡ true → older y z ≡ true → older x z ≡ true
older_trans x y z h k = ground arith

created_first :
    (row : JobRow) (t : JobTable)
    → All (λ (r : JobRow). older row r ≡ true) t
    → All (λ (r : JobRow). row.created_at ≤ r.created_at) t
created_first row [] h = tt
created_first row (x ∷ t) h = (ground arith, created_first row t h.1)

pub next_due-IsNext :
    (now : ℕ) (locked : String → Bool) (t : JobTable) {row : JobRow}
    → next_due now locked t ≡ some row
    → IsNext now locked t row
unfolding next_due
next_due-IsNext now locked t {row} h =
    let least = sort_by-least older older_total older_trans (select (free now locked) t) h in
    let found = mem-select (free now locked) t least.0 in
    record {
      stored = found.0;
      is_due =
          due-IsDue now row row.status row.next_attempt_at row.lease_expires_at refl refl refl
            (ground arith);
      unlocked = ground arith;
      oldest = created_first row (select (free now locked) t) least.1;
    }

-- How a claim for the worker writes a row: in processing, leased to the worker for the seconds from
-- now on, with one more attempt and no time for a next one.
abbrev pub leased : ℕ → String → ℕ → JobRow → JobRow
leased now w lease row = record row {
  status = processing;
  worker_id = some w;
  lease_expires_at = some (now + lease * 1000000);
  next_attempt_at = none;
  attempt_count = row.attempt_count + 1;
  updated_at = now;
}

-- The claim of a row: the job that is handed out is the row's as the claim writes it, and the table
-- holds it.
pub record IsClaim (now : ℕ) (w : String) (lease : ℕ) (t : JobTable) (row : JobRow)
    (out : Option DocumentJob × JobTable) (job : DocumentJob) : Type 0 where
  pub handed_out : job ≡ model (leased now w lease row)
  pub attempts : job.attempt_count ≡ row.attempt_count + 1
  pub in_processing : job.status ≡ processing
  pub lease_end : job.lease_expires_at ≡ some (now + lease * 1000000)
  pub written : out.1 ≡ modify row_id row.id (leased now w lease) t

claim_row-IsClaim :
    (now : ℕ) (locked : String → Bool) (w : String) (lease : ℕ) (t : JobTable)
    (found : Option JobRow) {job : DocumentJob}
    → next_due now locked t ≡ found
    → (claim_row now w lease found t).0 ≡ some job
    → (row : JobRow) × IsNext now locked t row
      × IsClaim now w lease t row (claim_row now w lease found t) job
unfolding claim_row claimed model
claim_row-IsClaim now locked w lease t none e h = cc
claim_row-IsClaim now locked w lease t (some row) {job} e h =
    let same : model (leased now w lease row) ≡ job = cc in
    (
      row,
      next_due-IsNext now locked t e,
      subst (IsClaim now w lease t row (claim_row now w lease (some row) t)) same (record {
        handed_out = refl;
        attempts = refl;
        in_processing = refl;
        lease_end = refl;
        written = refl;
      }),
    )

-- A claimed job was waiting, no other transaction held it, and no job that was free was created
-- before it; it is handed out, and written to its row, in processing, leased to the worker for the
-- given seconds from now on, with one more attempt.
pub claim_next-IsNext :
    (now : ℕ) (locked : String → Bool) (w : String) (lease : ℕ) (t : JobTable) {job : DocumentJob}
    → (claim_next now locked w lease t).0 ≡ some job
    → (row : JobRow) × IsNext now locked t row
      × IsClaim now w lease t row (claim_next now locked w lease t) job
unfolding claim_next
claim_next-IsNext now locked w lease t h =
    claim_row-IsClaim now locked w lease t (next_due now locked t) refl h
