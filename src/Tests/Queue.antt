-- ===== src/Tests/Queue.antt =====
-- Two received documents, and workers that claim, save, retry and delete them
-- (src/document_core/store.py).
use document_feeder.Prelude.{ℕ, String, ◌≡◌, refl, ◌≢◌, Bool, false, none, some, [], ◌∷◌, arith, ok}
use document_feeder.Json.{empty}
use document_feeder.Models.Job.{DocumentJob, received, quarantined, failed}
use document_feeder.Store.Jobs.{
  JobRow, JobTable, values, model, claimed, claim_next, claim_delivery, save, get, find_by_hash,
  create_if_absent, due, write_row, hash_taken, claim_row, next_due,
}
use document_feeder.Prelude.Sorting.{sort_by}
use document_feeder.Store.Jobs.Integrity.{
  IsWellFormed, call_claim_delivery, apply, apply_all, apply-IsWellFormed,
}
use document_feeder.Store.Jobs.Lease.{a_delivery, AllMeanwhile}
use document_feeder.Store.Jobs.Lease.Exclusive.{claim_exclusive}
use document_feeder.Store.Jobs.Queue.{IsNext, IsClaim, claim_next-IsNext}
use document_feeder.Store.Jobs.Creation.{stored, get-save, create_twice}
use document_feeder.Store.Jobs.Updates.{claim_delivery_once}
use document_feeder.Store.Jobs.Transitions.{Transition, status_of, apply-Transition}

abbrev pub document : String → String → ℕ → DocumentJob
document id sha256 created = record {
  id = id;
  status = received;
  source = "api";
  original_filename = "letter.pdf";
  stored_path = "/data/inbox/letter.pdf";
  sha256 = sha256;
  document_type = "unknown";
  routing_reference = none;
  target_system_id = none;
  delivery_path_template = none;
  metadata = empty;
  review_history = [];
  text_preview = "";
  errors = [];
  attempt_count = 0;
  next_attempt_at = none;
  lease_expires_at = none;
  worker_id = none;
  last_error = none;
  created_at = created;
  updated_at = created;
  duplicate = false;
}

abbrev pub first_job : DocumentJob
first_job = document "a" "aa" 10

abbrev pub second_job : DocumentJob
second_job = document "b" "bb" 20

abbrev held_back : DocumentJob
held_back = record second_job { status = quarantined }

abbrev pub two_jobs : JobTable
two_jobs = values first_job ∷ values second_job ∷ []

abbrev pub one_held_back : JobTable
one_held_back = values first_job ∷ values held_back ∷ []

abbrev nothing_locked : String → Bool
nothing_locked id = false

two_jobs-IsWellFormed : IsWellFormed two_jobs
unfolding values
two_jobs-IsWellFormed = record { ids = (refl, (refl, tt)); hashes = (refl, (refl, tt)) }

one_held_back-IsWellFormed : IsWellFormed one_held_back
unfolding values
one_held_back-IsWellFormed = record { ids = (refl, (refl, tt)); hashes = (refl, (refl, tt)) }

abbrev first_claimed : DocumentJob
first_claimed = model (claimed 100 "w1" 60 (values first_job))

abbrev second_claimed : DocumentJob
second_claimed = model (claimed 200 "w2" 60 (values second_job))

claim_exclusive_example : second_claimed.id ≢ first_claimed.id
unfolding claim_next next_due due values claim_row sort_by apply apply_all claim_delivery claimed
claim_exclusive_example =
    claim_exclusive 100 nothing_locked "w1" 60 two_jobs {job = first_claimed} two_jobs-IsWellFormed
      refl (call_claim_delivery 150 "a" ∷ [])
      (AllMeanwhile.then_call (a_delivery 150 "a") AllMeanwhile.done) 200 nothing_locked "w2" 60
      {job' = second_claimed} (omega arith) refl

claim_next-IsNext_example :
    (row : JobRow) × IsNext 100 nothing_locked two_jobs row
    × IsClaim 100 "w1" 60 two_jobs row
        (claim_next 100 nothing_locked "w1" 60 two_jobs)
        first_claimed
unfolding claim_next next_due due values claim_row sort_by
claim_next-IsNext_example =
    claim_next-IsNext 100 nothing_locked "w1" 60 two_jobs {job = first_claimed} refl

-- the second document waits for a later attempt
abbrev waiting : JobTable
waiting = values (record second_job { next_attempt_at = some 500 }) ∷ []

apply-IsWellFormed_example : IsWellFormed (apply (call_claim_delivery 100 "b") one_held_back)
apply-IsWellFormed_example =
    apply-IsWellFormed (call_claim_delivery 100 "b") one_held_back one_held_back-IsWellFormed

apply-Transition_example :
    Transition
      (some quarantined)
      (status_of "b" (apply (call_claim_delivery 100 "b") one_held_back))
unfolding values
apply-Transition_example =
    apply-Transition (call_claim_delivery 100 "b") "b" one_held_back refl one_held_back-IsWellFormed

-- the first document after its classification
abbrev classified : DocumentJob
classified = record first_job { document_type = "invoice"; attempt_count = 1 }

get-save_example :
    get "a" (values (record classified { updated_at = 70 }) ∷ values second_job ∷ [])
    ≡ some (stored 70 classified)
unfolding save write_row values hash_taken
get-save_example =
    get-save 70 classified two_jobs
      (values (record classified { updated_at = 70 }) ∷ values second_job ∷ []) "a" refl

create_twice_example :
    let t' = (create_if_absent first_job []).1 in
    create_if_absent (document "c" "aa" 30) t' ≡ (ok (first_job, false), t')
unfolding find_by_hash get
create_twice_example = create_twice first_job (document "c" "aa" 30) [] refl refl refl

claim_delivery_once_example :
    (claim_delivery 200 "b" (claim_delivery 100 "b" one_held_back).1).0 ≡ false
claim_delivery_once_example =
    claim_delivery_once 100 200 "b" one_held_back one_held_back-IsWellFormed

-- the first document in the hands of a worker, and after a failure
abbrev running : JobTable
running = values first_claimed ∷ values second_job ∷ []

abbrev broken : DocumentJob
broken = record first_job { status = failed; attempt_count = 3 }

abbrev one_failed : JobTable
one_failed = values broken ∷ values second_job ∷ []

running-IsWellFormed : IsWellFormed running
unfolding values model claimed
running-IsWellFormed = record { ids = (refl, (refl, tt)); hashes = (refl, (refl, tt)) }

one_failed-IsWellFormed : IsWellFormed one_failed
unfolding values
one_failed-IsWellFormed = record { ids = (refl, (refl, tt)); hashes = (refl, (refl, tt)) }
