-- ===== src/Store/Jobs.antt =====
-- `document_jobs`: the job rows and the methods of `JobStore` that read and write them
-- (src/document_core/store.py). `now` is what `datetime.now(UTC)` returns in the call.
pub mod Integrity
pub mod Creation
pub mod Queue
pub mod Lease
pub mod Updates
pub mod Transitions
use document_feeder.Prelude.{
  ℕ, ◌+◌, ◌*◌, String, Bool, true, false, not, ◌&&◌, ◌||◌, Option, none, some, List, map, ◌==◌, leb,
  exists, select, update_rows, count_rows, is_some, eqb, if◌then◌else◌, Outcome, ok, raise,
}
use document_feeder.Prelude.Sorting.{sort_by, head?}
use document_feeder.Json.{Fields}
use document_feeder.Models.Job.{
  JobStatus, received, processing, delivering, quarantined, failed, is_received, is_processing,
  is_quarantined, is_failed, RoutingReference, ReviewEvent, DocumentJob,
}
use document_feeder.Table.{lookup, has, modify, remove, add}
use mathlib.Core.Option

-- The status column holds `status.value`, and the JSON columns the dumps of their records.
pub record JobRow : Type 0 where
  pub id : String
  pub status : JobStatus
  pub source : String
  pub original_filename : String
  pub stored_path : String
  pub sha256 : String
  pub document_type : String
  pub routing_reference : Option RoutingReference
  pub target_system_id : Option String
  pub delivery_path_template : Option String
  pub metadata_json : Fields
  pub review_history : List ReviewEvent
  pub text_preview : String
  pub errors : List String
  pub attempt_count : ℕ
  pub next_attempt_at : Option ℕ
  pub lease_expires_at : Option ℕ
  pub worker_id : Option String
  pub last_error : Option String
  pub created_at : ℕ
  pub updated_at : ℕ

abbrev pub JobTable : Type 0
JobTable = List JobRow

-- the exceptions that a method lets out
pub data StoreError : Type 0 where
  integrity_error : StoreError

abbrev pub row_id : JobRow → String
row_id r = r.id

abbrev pub row_hash : JobRow → String
row_hash r = r.sha256

-- `_values(job)`: `duplicate` is no column
unfoldable pub values : DocumentJob → JobRow
values job = record {
  id = job.id;
  status = job.status;
  source = job.source;
  original_filename = job.original_filename;
  stored_path = job.stored_path;
  sha256 = job.sha256;
  document_type = job.document_type;
  routing_reference = job.routing_reference;
  target_system_id = job.target_system_id;
  delivery_path_template = job.delivery_path_template;
  metadata_json = job.metadata;
  review_history = job.review_history;
  text_preview = job.text_preview;
  errors = job.errors;
  attempt_count = job.attempt_count;
  next_attempt_at = job.next_attempt_at;
  lease_expires_at = job.lease_expires_at;
  worker_id = job.worker_id;
  last_error = job.last_error;
  created_at = job.created_at;
  updated_at = job.updated_at;
}

-- `_model(row)`: `duplicate` takes its default
unfoldable pub model : JobRow → DocumentJob
model row = record {
  id = row.id;
  status = row.status;
  source = row.source;
  original_filename = row.original_filename;
  stored_path = row.stored_path;
  sha256 = row.sha256;
  document_type = row.document_type;
  routing_reference = row.routing_reference;
  target_system_id = row.target_system_id;
  delivery_path_template = row.delivery_path_template;
  metadata = row.metadata_json;
  review_history = row.review_history;
  text_preview = row.text_preview;
  errors = row.errors;
  attempt_count = row.attempt_count;
  next_attempt_at = row.next_attempt_at;
  lease_expires_at = row.lease_expires_at;
  worker_id = row.worker_id;
  last_error = row.last_error;
  created_at = row.created_at;
  updated_at = row.updated_at;
  duplicate = false;
}

-- another row has the hash, so that the write is refused by the unique index
unfoldable pub hash_taken : JobRow → JobTable → Bool
hash_taken row = exists (λ r. r.sha256 == row.sha256 && not (r.id == row.id))

-- the table after the `UPDATE` of the row, if there is one
unfoldable pub write_row : JobRow → JobTable → Outcome StoreError JobTable
unfolding hash_taken
write_row row t =
    if has row_id row.id t && hash_taken row t
    then raise integrity_error
    else ok (modify row_id row.id (λ _. row) t)

-- `save`: a missing row is left missing; the job's own `updated_at` changes in any case.
unfoldable pub save : ℕ → DocumentJob → JobTable → Outcome StoreError JobTable × DocumentJob
unfolding write_row values
save now job t = let job' = record job { updated_at = now } in (write_row (values job') t, job')

unfoldable pub existing_or_raise : Option JobRow → Outcome StoreError (DocumentJob × Bool)
existing_or_raise none = raise integrity_error
existing_or_raise (some existing) = ok (model existing, false)

-- `create_if_absent`: the insert fails on the primary key or on the unique hash; then the row
-- with the hash is returned, and without one the error goes out.
unfoldable pub create_if_absent :
    DocumentJob → JobTable → Outcome StoreError (DocumentJob × Bool) × JobTable
unfolding existing_or_raise
create_if_absent job t =
    if has row_id job.id t || has row_hash job.sha256 t
    then (existing_or_raise (lookup row_hash job.sha256 t), t)
    else (ok (job, true), add row_id (values job) t)

unfoldable pub get : String → JobTable → Option DocumentJob
get job_id t = Option.map model (lookup row_id job_id t)

unfoldable pub find_by_hash : String → JobTable → Option DocumentJob
find_by_hash sha256 t = Option.map model (lookup row_hash sha256 t)

abbrev pub newer : JobRow → JobRow → Bool
newer a b = leb b.created_at a.created_at

abbrev pub older : JobRow → JobRow → Bool
older a b = leb a.created_at b.created_at

unfoldable pub list : JobTable → List DocumentJob
list t = map model (sort_by newer t)

-- `UPDATE … WHERE id = … AND status = 'quarantined'`; the answer is `rowcount == 1`
unfoldable pub claim_delivery : ℕ → String → JobTable → Bool × JobTable
claim_delivery now job_id t =
    let hit = λ (r : JobRow). r.id == job_id && is_quarantined r.status in
    (
      eqb (count_rows hit t) 1,
      update_rows hit (λ r. record r { status = delivering; updated_at = now }) t,
    )

abbrev pub seconds : ℕ → ℕ
seconds n = n * 1000000

abbrev pub no_later : Option ℕ → ℕ → Bool
no_later none now = false
no_later (some time) now = leb time now

-- the rows that a worker may take
unfoldable pub due : ℕ → JobRow → Bool
due now r =
    is_received r.status && (not (is_some r.next_attempt_at) || no_later r.next_attempt_at now)
    || is_processing r.status && no_later r.lease_expires_at now

-- what a claim writes to its row
unfoldable pub claimed : ℕ → String → ℕ → JobRow → JobRow
claimed now worker_id lease_seconds r = record r {
  status = processing;
  worker_id = some worker_id;
  lease_expires_at = some (now + seconds lease_seconds);
  next_attempt_at = none;
  attempt_count = r.attempt_count + 1;
  updated_at = now;
}

-- the row that the `SELECT … FOR UPDATE SKIP LOCKED … LIMIT 1` gives: `locked` says which rows
-- other transactions hold
unfoldable pub next_due : ℕ → (String → Bool) → JobTable → Option JobRow
next_due now locked t = head? (sort_by older (select (λ r. due now r && not (locked r.id)) t))

unfoldable pub claim_row : ℕ → String → ℕ → Option JobRow → JobTable → Option DocumentJob × JobTable
claim_row now worker_id lease_seconds none t = (none, t)
claim_row now worker_id lease_seconds (some row) t = (
  some (model (claimed now worker_id lease_seconds row)),
  modify row_id row.id (claimed now worker_id lease_seconds) t,
)

unfoldable pub claim_next :
    ℕ → (String → Bool) → String → ℕ → JobTable → Option DocumentJob × JobTable
unfolding claim_row
claim_next now locked worker_id lease_seconds t =
    claim_row now worker_id lease_seconds (next_due now locked t) t

abbrev pub holds : Option String → String → Bool
holds none worker_id = false
holds (some w) worker_id = w == worker_id

unfoldable pub renew_lease : ℕ → String → String → ℕ → JobTable → Bool × JobTable
renew_lease now job_id worker_id lease_seconds t =
    let hit =
      λ (r : JobRow). r.id == job_id && (is_processing r.status && holds r.worker_id worker_id) in
    (
      eqb (count_rows hit t) 1,
      update_rows hit
          (λ r. record r {
            lease_expires_at = some (now + seconds lease_seconds);
            updated_at = now;
          })
          t,
    )

abbrev pub reset : ℕ → JobRow → JobRow
reset now r = record r {
  status = received;
  attempt_count = 0;
  next_attempt_at = none;
  lease_expires_at = none;
  worker_id = none;
  last_error = none;
  updated_at = now;
}

unfoldable pub retry_failed : ℕ → String → JobTable → Option DocumentJob × JobTable
unfolding get
retry_failed now job_id t =
    let hit = λ (r : JobRow). r.id == job_id && is_failed r.status in
    let t' = update_rows hit (reset now) t in
    (if eqb (count_rows hit t) 1 then get job_id t' else none, t')

-- `deletable_statuses`
abbrev pub is_deletable : JobStatus → Bool
is_deletable failed = true
is_deletable processing = true
is_deletable quarantined = true
is_deletable _ = false

unfoldable pub delete_row : String → Option JobRow → JobTable → Option DocumentJob × JobTable
delete_row job_id none t = (none, t)
delete_row job_id (some row) t =
    if is_deletable row.status then (some (model row), remove row_id job_id t) else (none, t)

-- The part of `delete_stalled_job` that concerns the jobs; its events go in the same transaction,
-- see `delete_stalled_job` in Store/Events.antt.
unfoldable pub delete_stalled : String → JobTable → Option DocumentJob × JobTable
unfolding delete_row
delete_stalled job_id t = delete_row job_id (lookup row_id job_id t) t
