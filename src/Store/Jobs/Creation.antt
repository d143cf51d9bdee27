-- ===== src/Store/Jobs/Creation.antt =====
-- Deduplication by content hash, and what is read back after a job was written.
use document_feeder.Prelude.{
  ℕ, String, ◌≡◌, refl, Bool, true, false, none, some, [], ◌∷◌, arith, ◌==◌, eq_iff, eq_refl,
  if◌then◌else◌, Bool-cases, inl, inr, ok, raise, exists, find_first,
}
use mathlib.Core.Option
use document_feeder.Models.Job.{DocumentJob}
use document_feeder.Table.{lookup, has, modify}
use document_feeder.Table.Reads.{
  modify_absent, find_first-none, find_first-append, exists-find_first,
}
use document_feeder.Store.Jobs.{
  JobRow, JobTable, row_id, values, model, write_row, save, create_if_absent, get, find_by_hash,
  integrity_error,
}

-- The dump of a job read back is the job, but for `duplicate`, which is not stored.
pub model-values : (job : DocumentJob) → model (values job) ≡ record job { duplicate = false }
unfolding model values
model-values job = refl

-- what a save writes
abbrev pub stored : ℕ → DocumentJob → DocumentJob
stored now job = record job { updated_at = now; duplicate = false }

lookup-write_self :
    (row : JobRow) (t : JobTable)
    → has row_id row.id t ≡ true
    → lookup row_id row.id (modify row_id row.id (λ _. row) t) ≡ some row
lookup-write_self row [] h = cc
lookup-write_self row (x ∷ t) h = ground (arith, eq_refl row.id, lookup-write_self row t)

pub lookup-write_ne :
    (row : JobRow) (j : String) (t : JobTable)
    → (row.id == j) ≡ false
    → lookup row_id j (modify row_id row.id (λ _. row) t) ≡ lookup row_id j t
lookup-write_ne row j [] h = refl
lookup-write_ne row j (x ∷ t) h = ground (arith, eq_iff x.id row.id, lookup-write_ne row j t)

written :
    (row : JobRow) (t t' : JobTable)
    → write_row row t ≡ ok t'
    → t' ≡ modify row_id row.id (λ _. row) t
unfolding write_row
written row t t' h = ground arith

-- A save that raises nothing is read back in full where the job was stored, creates nothing where
-- it was not, and leaves the other jobs as they were.
pub get-save :
    (now : ℕ) (job : DocumentJob) (t t' : JobTable) (j : String)
    → (save now job t).0 ≡ ok t'
    → get j t' ≡ (
        if job.id == j
        then if has row_id job.id t then some (stored now job) else none
        else get j t)
unfolding save get model values
get-save now job t t' j h =
    let row = values (record job { updated_at = now }) in
    rw (written row t t' h) (elim (Bool-cases (job.id == j)) [
      | inl e ↦ rw e (
          rw (← (eq_iff job.id j).0 e) (elim (Bool-cases (has row_id job.id t)) [
            | inl there ↦ rw (there, lookup-write_self row t there)
            | inr absent ↦
                rw (absent, modify_absent row_id job.id (λ _. row) t absent)
                  (rw (find_first-none (λ r. r.id == job.id) t absent))
          ]))
      | inr e ↦ rw (e, lookup-write_ne row j t e)
    ])

module _ (job : DocumentJob) (t : JobTable) where
  abbrev fresh_copy : DocumentJob
  fresh_copy = record job { duplicate = false }

  known :
      (p : JobRow → Bool) {e : DocumentJob}
      → Option.map model (find_first p t) ≡ some e
      → exists p t ≡ true
  known p h = ground (arith, exists-find_first p t)

  unknown : (p : JobRow → Bool) → Option.map model (find_first p t) ≡ none → exists p t ≡ false
  unknown p h = ground (arith, exists-find_first p t)

  -- A job whose hash is stored is answered by the stored job, and nothing is written.
  pub create_known :
      (e : DocumentJob)
      → find_by_hash job.sha256 t ≡ some e
      → create_if_absent job t ≡ (ok (e, false), t)
  unfolding create_if_absent find_by_hash
  create_known e h = ground (arith, exists-find_first (λ r. r.sha256 == job.sha256) t)

  -- A job with a new hash and a new id is stored, and found by its id and by its hash.
  pub create_new :
      find_by_hash job.sha256 t ≡ none
      → get job.id t ≡ none
      → ((create_if_absent job t).0 ≡ ok (job, true))
        × (get job.id (create_if_absent job t).1 ≡ some fresh_copy)
        × (find_by_hash job.sha256 (create_if_absent job t).1 ≡ some fresh_copy)
  unfolding create_if_absent find_by_hash get values model
  create_new h i =
      let no_hash = unknown (λ r. r.sha256 == job.sha256) h in
      let no_id = unknown (λ r. r.id == job.id) i in
      rw (no_id, no_hash)
        (
          refl,
          ground (
            arith,
            find_first-append (λ r. r.id == job.id) t (values job),
            eq_refl job.id,
            no_id,
          ),
          ground (
            arith,
            find_first-append (λ r. r.sha256 == job.sha256) t (values job),
            eq_refl job.sha256,
            no_hash,
          ),
        )

  -- A taken id with a new hash is an error that writes nothing.
  pub create_conflict :
      (e : DocumentJob)
      → find_by_hash job.sha256 t ≡ none
      → get job.id t ≡ some e
      → create_if_absent job t ≡ (raise integrity_error, t)
  unfolding create_if_absent find_by_hash get
  create_conflict e h i = ground (
    arith,
    exists-find_first (λ r. r.sha256 == job.sha256) t,
    exists-find_first (λ r. r.id == job.id) t,
  )

-- Of two jobs with the same content only the first is stored: the second call answers with the
-- first job and leaves the table as the first call left it.
pub create_twice :
    (first second : DocumentJob) (t : JobTable)
    → find_by_hash first.sha256 t ≡ none
    → get first.id t ≡ none
    → second.sha256 ≡ first.sha256
    → let t' = (create_if_absent first t).1 in
      create_if_absent second t' ≡ (ok (record first { duplicate = false }, false), t')
create_twice first second t h i same =
    create_known second (create_if_absent first t).1 (record first { duplicate = false })
      (rw same (create_new first t h i).2)
