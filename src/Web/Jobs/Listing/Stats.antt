-- ===== src/Web/Jobs/Listing/Stats.antt =====
-- The statistics agree with the listing.
use document_feeder.Prelude.{
  ℕ, suc, ◌+◌, String, ◌≡◌, refl, ap, ◌∙◌, sym, Bool, true, false, ◌||◌, none, List, [], ◌∷◌, arith,
  eq_iff, length, select, count_rows, if◌then◌else◌,
}
use document_feeder.Prelude.Sorting.Count.{length-select}
use document_feeder.Models.Job.{
  JobStatus, received, processing, delivering, delivered, quarantined, failed, value,
  RoutingReference, DocumentJob,
}
use document_feeder.Store.Jobs.{JobTable, list}
use document_feeder.Web.Jobs.Listing.{
  same_status, has_status, list_jobs, increment, no_counts, tally, job_stats,
}

-- the count of a status, and the sum of the counts
abbrev pub count_of : JobStatus → List (JobStatus × ℕ) → ℕ
count_of st [] = 0
count_of st ((a, n) ∷ rest) = if same_status st a then n else count_of st rest

abbrev pub sum_of : List (JobStatus × ℕ) → ℕ
sum_of [] = 0
sum_of ((a, n) ∷ rest) = n + sum_of rest

abbrev counted : JobStatus → List (JobStatus × ℕ) → Bool
counted st [] = false
counted st ((a, n) ∷ rest) = same_status st a || counted st rest

count_of-increment :
    (a st : JobStatus) (counts : List (JobStatus × ℕ))
    → counted st counts ≡ true
    → count_of st (increment a counts)
      ≡ (if same_status a st then suc (count_of st counts) else count_of st counts)
unfolding increment
count_of-increment a st [] k = cc
count_of-increment a st ((x, n) ∷ rest) k = ground (
  arith,
  eq_iff (value a) (value st),
  eq_iff (value st) (value x),
  eq_iff (value a) (value x),
  count_of-increment a st rest,
)

counted-increment :
    (a st : JobStatus) (counts : List (JobStatus × ℕ))
    → counted st (increment a counts) ≡ counted st counts
unfolding increment
counted-increment a st [] = refl
counted-increment a st ((x, n) ∷ rest) = ground (arith, counted-increment a st rest)

count_of-tally :
    (st : JobStatus) (jobs : List DocumentJob) (counts : List (JobStatus × ℕ))
    → counted st counts ≡ true
    → count_of st (tally jobs counts)
      ≡ count_of st counts + count_rows (λ (j : DocumentJob). same_status j.status st) jobs
unfolding tally
count_of-tally st [] counts k = omega arith
count_of-tally st (job ∷ jobs) counts k = ground (
  arith,
  count_of-tally st jobs (increment job.status counts),
  counted-increment job.status st counts,
  count_of-increment job.status st counts,
)

counted-all : (st : JobStatus) → (counted st no_counts ≡ true) × (count_of st no_counts ≡ 0)
counted-all received = (refl, refl)
counted-all processing = (refl, refl)
counted-all delivering = (refl, refl)
counted-all delivered = (refl, refl)
counted-all quarantined = (refl, refl)
counted-all failed = (refl, refl)

abbrev six : ℕ → ℕ → ℕ → ℕ → ℕ → ℕ → List (JobStatus × ℕ)
six a b c d e f =
    (received, a)
    ∷ (processing, b)
    ∷ (delivering, c)
    ∷ (delivered, d)
    ∷ (quarantined, e)
    ∷ (failed, f)
    ∷ []

-- one more step of the loop
sum_of-step :
    (jobs : List DocumentJob) (st : JobStatus) (a b c d e f : ℕ)
    → ((a b c d e f : ℕ)
        → sum_of (tally jobs (six a b c d e f)) ≡ a + b + c + d + e + f + length jobs)
    → sum_of (tally jobs (increment st (six a b c d e f)))
      ≡ a + b + c + d + e + f + suc (length jobs)
unfolding increment
sum_of-step jobs received a b c d e f ih = ih (suc a) b c d e f ∙ omega arith
sum_of-step jobs processing a b c d e f ih = ih a (suc b) c d e f ∙ omega arith
sum_of-step jobs delivering a b c d e f ih = ih a b (suc c) d e f ∙ omega arith
sum_of-step jobs delivered a b c d e f ih = ih a b c (suc d) e f ∙ omega arith
sum_of-step jobs quarantined a b c d e f ih = ih a b c d (suc e) f ∙ omega arith
sum_of-step jobs failed a b c d e f ih = ih a b c d e (suc f) ∙ omega arith

sum_of-tally :
    (jobs : List DocumentJob) (a b c d e f : ℕ)
    → sum_of (tally jobs (six a b c d e f)) ≡ a + b + c + d + e + f + length jobs
unfolding tally
sum_of-tally [] a b c d e f = omega arith
sum_of-tally (job ∷ jobs) a b c d e f = sum_of-step jobs job.status a b c d e f (sum_of-tally jobs)

select-true : {A : Type 0} (xs : List A) → select (λ _. true) xs ≡ xs
select-true [] = refl
select-true (x ∷ xs) = ap (λ r. x ∷ r) (select-true xs)

count_rows-or_false :
    (st : JobStatus) (jobs : List DocumentJob)
    → count_rows (has_status (st ∷ [])) jobs
      ≡ count_rows (λ (j : DocumentJob). same_status j.status st) jobs
count_rows-or_false st [] = refl
count_rows-or_false st (j ∷ jobs) = ground (arith, count_rows-or_false st jobs)

-- The counts of the statistics add up to their total, and that of each status is the total of the
-- listing that asks for this status alone.
pub job_stats-list_jobs :
    (casefold : String → String) (text_of : RoutingReference → String) (limit offset : ℕ)
    (t : JobTable)
    → (sum_of (job_stats t).by_status ≡ (job_stats t).total)
      × ((st : JobStatus)
          → count_of st (job_stats t).by_status
            ≡ (list_jobs casefold text_of (st ∷ []) none limit offset t).total)
unfolding job_stats list_jobs
job_stats-list_jobs casefold text_of limit offset t = (
  sum_of-tally (list t) 0 0 0 0 0 0 ∙ omega arith,
  λ st.
      count_of-tally st (list t) no_counts (counted-all st).0
      ∙ ap (λ n. n + count_rows (λ (j : DocumentJob). same_status j.status st) (list t))
          (counted-all st).1
      ∙ omega arith
      ∙ sym (count_rows-or_false st (list t))
      ∙ sym (length-select (has_status (st ∷ [])) (list t))
      ∙ ap length (sym (select-true (select (has_status (st ∷ [])) (list t)))),
)
