-- ===== src/Web/Jobs/Listing.antt =====
-- `list_jobs` and `job_stats` (src/document_core/api.py).
pub mod Stats
use document_feeder.Prelude.{
  ℕ, zero, suc, ◌+◌, ◌*◌, ◌≤◌, String, ◌≡◌, refl, ap, ◌∙◌, Bool, true, false, not, ◌&&◌, ◌||◌,
  Option, none, some, List, [], ◌∷◌, arith, ◌==◌, eq_refl, length, select, exists, count_rows,
  if◌then◌else◌,
}
use document_feeder.Prelude.Pages.{page, pages, pages_all, length-take, drop}
use document_feeder.Prelude.Sorting.Count.{length-select}
use document_feeder.Models.Job.{
  JobStatus, received, processing, delivering, delivered, quarantined, failed, value,
  RoutingReference, DocumentJob,
}
use document_feeder.Processing.Classifier.{occurs_in}
use document_feeder.Store.Jobs.{JobTable, list}

pub record JobListResponse : Type 0 where
  pub items : List DocumentJob
  pub total : ℕ
  pub limit : ℕ
  pub offset : ℕ

pub record JobStatsResponse : Type 0 where
  pub total : ℕ
  pub by_status : List (JobStatus × ℕ)

abbrev pub same_status : JobStatus → JobStatus → Bool
same_status a b = value a == value b

-- `job.status in status`, where an empty list asks for all
abbrev pub has_status : List JobStatus → DocumentJob → Bool
has_status [] job = true
has_status (a ∷ rest) job = exists (λ st. same_status job.status st) (a ∷ rest)

abbrev pub reference_text : (RoutingReference → String) → Option RoutingReference → String
reference_text text none = ""
reference_text text (some r) = text r

-- What the listing takes from libraries: `str.casefold` and the text of a reference.
module _ (casefold : String → String) (text_of : RoutingReference → String) where
  abbrev pub contains : String → DocumentJob → Bool
  contains needle job =
      occurs_in needle (casefold job.original_filename)
      || (occurs_in needle (casefold job.id)
          || (occurs_in needle (casefold job.document_type)
              || occurs_in needle (casefold (reference_text text_of job.routing_reference))))

  -- `if q:` and the search
  abbrev pub is_found : Option String → DocumentJob → Bool
  is_found none job = true
  is_found (some q) job = q == "" || contains (casefold q) job

  -- `list_jobs`
  unfoldable pub list_jobs : List JobStatus → Option String → ℕ → ℕ → JobTable → JobListResponse
  list_jobs status q limit offset t =
      let jobs = select (is_found q) (select (has_status status) (list t)) in
      record { items = page offset limit jobs; total = length jobs; limit = limit; offset = offset }

  -- A page holds no more jobs than its limit. The pages from the first one on, as many as the total
  -- asks for, are together all jobs of the store that have the status and match the search, in
  -- the store's order.
  pub list_jobs-pages :
      (status : List JobStatus) (q : Option String) (limit n : ℕ) (t : JobTable)
      → (list_jobs status q limit 0 t).total ≤ n * limit
      → ((offset : ℕ) → length (list_jobs status q limit offset t).items ≤ limit)
        × (pages (λ offset. (list_jobs status q limit offset t).items) n limit 0
            ≡ select (is_found q) (select (has_status status) (list t)))
  unfolding list_jobs
  list_jobs-pages status q limit n t enough = (
    λ offset.
        length-take limit (drop offset (select (is_found q) (select (has_status status) (list t)))),
    pages_all n limit 0 (select (is_found q) (select (has_status status) (list t))) (omega arith),
  )

-- `counts[status] += 1`
unfoldable pub increment : JobStatus → List (JobStatus × ℕ) → List (JobStatus × ℕ)
increment st [] = []
increment st ((a, n) ∷ rest) = (if same_status st a then (a, suc n) else (a, n)) ∷ increment st rest

abbrev pub no_counts : List (JobStatus × ℕ)
no_counts =
    (received, 0)
    ∷ (processing, 0)
    ∷ (delivering, 0)
    ∷ (delivered, 0)
    ∷ (quarantined, 0)
    ∷ (failed, 0)
    ∷ []

-- the loop, in which every job adds one
unfoldable pub tally : List DocumentJob → List (JobStatus × ℕ) → List (JobStatus × ℕ)
unfolding increment
tally [] counts = counts
tally (job ∷ jobs) counts = tally jobs (increment job.status counts)

-- `job_stats`
unfoldable pub job_stats : JobTable → JobStatsResponse
unfolding tally
job_stats t = let jobs = list t in record { total = length jobs; by_status = tally jobs no_counts }
