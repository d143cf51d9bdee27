-- ===== src/Web/Jobs/Guards.antt =====
-- A job in the wrong state cannot be changed.
use mathlib.Core.Option
use document_feeder.Prelude.{
  ℕ, String, ◌≡◌, refl, sym, subst, ◌∙◌, Bool, true, false, not, Option, none, some, raise,
  if◌then◌else◌,
}
use document_feeder.Prelude.Exec.{pure, ◌>>=◌, ◌>>◌}
use document_feeder.Models.Job.{
  JobStatus, received, processing, delivering, delivered, quarantined, failed, is_quarantined,
  is_failed, DocumentJob, ReviewRequest,
}
use document_feeder.Table.{lookup}
use document_feeder.Store.Jobs.{
  JobRow, JobTable, row_id, get, model, is_deletable, delete_stalled, delete_row,
}
use document_feeder.Store.Events.{EventTable, delete_stalled_job}
use document_feeder.Web.World.{WebEnvironment, http_exception, Service, Handler, reject}
use document_feeder.Web.Jobs.{
  review_job, release_job, retry_job, delete_job, review_found, release_found, retry_found,
  stored_job, on_found, remove_job, with_deletion, deleted, may_release,
}

-- What a user may ask for a job.
pub data Wish : Type 0 where
  a_review : ReviewRequest → Wish
  a_release a_retry a_deletion : Wish

-- in which states of the job
abbrev pub suits : Wish → JobStatus → Bool
suits (a_review q) quarantined = true
suits a_release quarantined = true
suits a_release delivering = true
suits a_release delivered = true
suits a_retry failed = true
suits a_deletion failed = true
suits a_deletion processing = true
suits a_deletion quarantined = true
suits _ _ = false

suits_review : (q : ReviewRequest) (st : JobStatus) → suits (a_review q) st ≡ is_quarantined st
suits_review q received = refl
suits_review q processing = refl
suits_review q delivering = refl
suits_review q delivered = refl
suits_review q quarantined = refl
suits_review q failed = refl

suits_release : (st : JobStatus) → suits a_release st ≡ may_release st
suits_release received = refl
suits_release processing = refl
suits_release delivering = refl
suits_release delivered = refl
suits_release quarantined = refl
suits_release failed = refl

suits_retry : (st : JobStatus) → suits a_retry st ≡ is_failed st
suits_retry received = refl
suits_retry processing = refl
suits_retry delivering = refl
suits_retry delivered = refl
suits_retry quarantined = refl
suits_retry failed = refl

suits_deletion : (st : JobStatus) → suits a_deletion st ≡ is_deletable st
suits_deletion received = refl
suits_deletion processing = refl
suits_deletion delivering = refl
suits_deletion delivered = refl
suits_deletion quarantined = refl
suits_deletion failed = refl

delete_stalled_job-kept :
    (id : String) (row : JobRow) (t : JobTable) (es : EventTable)
    → lookup row_id id t ≡ some row
    → is_deletable row.status ≡ false
    → delete_stalled_job id t es ≡ (none, t, es)
unfolding delete_stalled_job delete_stalled delete_row
delete_stalled_job-kept id row t es e k = rw e (rw k refl)

module _ (env : WebEnvironment) where
  abbrev pub grant : Wish → String → Handler env Unit
  grant (a_review q) id = review_job env id q >> pure tt
  grant a_release id = release_job env id >> pure tt
  grant a_retry id = retry_job env id >> pure tt
  grant a_deletion id = delete_job env id

  -- The request is answered with the status of an error, and all is as before.
  abbrev pub IsDenied : {A : Type 0} → ℕ → Handler env A → Service env.pipeline.Files → Type 0
  IsDenied {A} status m s = (detail : String) × (m s ≡ (raise (http_exception status detail), s))

  IsDenied-then :
      {A B : Type 0} (status : ℕ) (m : Handler env A) (n : Handler env B)
      (s : Service env.pipeline.Files)
      → IsDenied status m s
      → IsDenied status (m >> n) s
  unfolding ◌>>=◌
  IsDenied-then status m n s (detail, e) = (detail, rw e refl)

  closed-IsDenied :
      {A : Type 0} (b : Bool) (status : ℕ) (detail : String) (m : Handler env A)
      (s : Service env.pipeline.Files)
      → b ≡ false
      → IsDenied status (if not b then reject env status detail else m) s
  closed-IsDenied true status detail m s e = cc
  closed-IsDenied false status detail m s e = (detail, refl)

  review_found-IsDenied :
      (q : ReviewRequest) (job : DocumentJob) (s : Service env.pipeline.Files)
      → suits (a_review q) job.status ≡ false
      → IsDenied 409 (review_found env q job) s
  unfolding review_found
  review_found-IsDenied q job s e =
      closed-IsDenied (is_quarantined job.status) 409 _ _ s (sym (suits_review q job.status) ∙ e)

  release_found-IsDenied :
      (job : DocumentJob) (s : Service env.pipeline.Files)
      → suits a_release job.status ≡ false
      → IsDenied 409 (release_found env job) s
  unfolding release_found
  release_found-IsDenied job s e =
      closed-IsDenied (may_release job.status) 409 _ _ s (sym (suits_release job.status) ∙ e)

  retry_found-IsDenied :
      (id : String) (job : DocumentJob) (s : Service env.pipeline.Files)
      → suits a_retry job.status ≡ false
      → IsDenied 409 (retry_found env id job) s
  unfolding retry_found
  retry_found-IsDenied id job s e =
      closed-IsDenied (is_failed job.status) 409 _ _ s (sym (suits_retry job.status) ∙ e)

  remove_job-IsDenied :
      (id : String) (found : Option JobRow) (job : DocumentJob) (s : Service env.pipeline.Files)
      → lookup row_id id s.tables.db.jobs ≡ found
      → Option.map model found ≡ some job
      → suits a_deletion job.status ≡ false
      → IsDenied 409 (remove_job env id job) s
  unfolding model remove_job ◌>>=◌ deleted with_deletion
  remove_job-IsDenied id none job s e f k = cc
  remove_job-IsDenied id (some row) job s e f k =
      let same : model row ≡ job = cc in
      let lasting : is_deletable row.status ≡ false =
        sym (suits_deletion row.status)
        ∙ subst (λ (j : DocumentJob). suits a_deletion j.status ≡ false) (sym same) k in
      (
        "Nur Jobs in Verarbeitung, manueller Prüfung oder mit Fehler können gelöscht werden",
        rw (delete_stalled_job-kept id row s.tables.db.jobs s.tables.db.events e lasting) refl,
      )

  module _ {A : Type 0} (f : DocumentJob → Handler env A) (id : String)
      (s : Service env.pipeline.Files) where
    lookup-IsDenied :
        (status : ℕ) (o : Option DocumentJob)
        → get id s.tables.db.jobs ≡ o
        → IsDenied status (on_found env f o) s
        → IsDenied status (stored_job env id >>= on_found env f) s
    unfolding ◌>>=◌
    lookup-IsDenied status o e d = subst (λ o. IsDenied status (on_found env f o) s) (sym e) d

    absent-IsDenied :
        get id s.tables.db.jobs ≡ none → IsDenied 404 (stored_job env id >>= on_found env f) s
    absent-IsDenied e = lookup-IsDenied 404 none e (_, refl)

  -- A review, a release, a retry or a deletion of a job that is not stored is answered with 404,
  -- and one of a job whose status does not suit it with 409; the tables, the files and the clock
  -- are as before.
  pub grant-IsDenied :
      (w : Wish) (id : String) (s : Service env.pipeline.Files)
      → (get id s.tables.db.jobs ≡ none → IsDenied 404 (grant w id) s)
        × ((job : DocumentJob)
            → get id s.tables.db.jobs ≡ some job
            → suits w job.status ≡ false
            → IsDenied 409 (grant w id) s)
  unfolding review_job release_job retry_job delete_job get
  grant-IsDenied (a_review q) id s = (
    λ e. IsDenied-then 404 _ _ s (absent-IsDenied (review_found env q) id s e),
    λ job e k. IsDenied-then 409 _ _ s (
        lookup-IsDenied (review_found env q) id s 409 (some job) e
          (review_found-IsDenied q job s k)),
  )
  grant-IsDenied a_release id s = (
    λ e. IsDenied-then 404 _ _ s (absent-IsDenied (release_found env) id s e),
    λ job e k. IsDenied-then 409 _ _ s (
        lookup-IsDenied (release_found env) id s 409 (some job) e (release_found-IsDenied job s k)),
  )
  grant-IsDenied a_retry id s = (
    λ e. IsDenied-then 404 _ _ s (absent-IsDenied (retry_found env id) id s e),
    λ job e k. IsDenied-then 409 _ _ s (
        lookup-IsDenied (retry_found env id) id s 409 (some job) e
          (retry_found-IsDenied id job s k)),
  )
  grant-IsDenied a_deletion id s = (
    λ e. absent-IsDenied (remove_job env id) id s e,
    λ job e k.
        lookup-IsDenied (remove_job env id) id s 409 (some job) e
          (remove_job-IsDenied id (lookup row_id id s.tables.db.jobs) job s refl e k),
  )
