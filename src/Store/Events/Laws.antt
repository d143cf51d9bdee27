-- ===== src/Store/Events/Laws.antt =====
-- What the deletion of a job leaves of the jobs and of their events.
use document_feeder.Prelude.{
  String, ◌≡◌, refl, Bool, false, ◌&&◌, Option, none, some, [], ◌∷◌, arith, ◌==◌, eq_iff, select,
  if◌then◌else◌, Bool-cases, inl, inr,
}
use mathlib.Core.Option
use document_feeder.Prelude.Sorting.{sort_by}
use document_feeder.Models.Job.{DocumentJob, JobEvent}
use document_feeder.Table.{lookup}
use document_feeder.Table.Reads.{lookup-remove}
use document_feeder.Store.Jobs.{JobRow, JobTable, row_id, get, model, delete_row, is_deletable}
use document_feeder.Store.Events.{
  EventTable, event_order, list_events, delete_events, delete_stalled_job,
}

list_events-delete_self :
    (id : String) (es : EventTable)
    → select (λ (e : JobEvent). e.job_id == id) (delete_events id es) ≡ []
unfolding delete_events
list_events-delete_self id [] = refl
list_events-delete_self id (e ∷ es) = ground (arith, list_events-delete_self id es)

list_events-delete_other :
    (j id : String) (es : EventTable)
    → (id == j) ≡ false
    → select (λ (e : JobEvent). e.job_id == j) (delete_events id es)
      ≡ select (λ (e : JobEvent). e.job_id == j) es
unfolding delete_events
list_events-delete_other j id [] h = refl
list_events-delete_other j id (e ∷ es) h =
    ground (
      arith,
      eq_iff e.job_id id,
      eq_iff e.job_id j,
      eq_iff id j,
      list_events-delete_other j id es h,
    )

abbrev pub deletable : Option DocumentJob → Bool
deletable none = false
deletable (some job) = is_deletable job.status

-- A job that failed, is processed or is quarantined is returned and deleted with all its events,
-- and no other job or event. In any other case nothing is returned and nothing changes.
pub delete_stalled_job_lem :
    (id j : String) (t : JobTable) (es : EventTable)
    → let (job, t', es') = delete_stalled_job id t es in
      let gone = deletable (get id t) in
      (job ≡ (if gone then get id t else none))
      × (get j t' ≡ (if gone && id == j then none else get j t))
      × (list_events j es' ≡ (if gone && id == j then [] else list_events j es))
unfolding delete_stalled_job get list_events model sort_by
delete_stalled_job_lem id j t es = go (lookup row_id id t) refl
  where
    go :
        (o : Option JobRow)
        → lookup row_id id t ≡ o
        → let (job, t') = delete_row id o t in
          let gone = deletable (Option.map model o) in
          (job ≡ (if gone then Option.map model o else none))
          × (Option.map model (lookup row_id j t')
              ≡ (if gone && id == j then none else Option.map model (lookup row_id j t)))
          × (sort_by event_order (
                select
                  (λ (e : JobEvent). e.job_id == j)
                  (elim job [ none ↦ es | some _ ↦ delete_events id es ]))
              ≡ (if gone && id == j
                  then []
                  else sort_by event_order (select (λ (e : JobEvent). e.job_id == j) es)))
    go none e = (refl, refl, refl)
    go (some row) e = elim (Bool-cases (is_deletable row.status)) [
      | inl d ↦ elim (Bool-cases (id == j)) [
        | inl same ↦
            rw (d, lookup-remove row_id id j t, same)
              (rw (← (eq_iff id j).0 same, list_events-delete_self id es) (refl, refl, refl))
        | inr other ↦
            rw (d, lookup-remove row_id id j t, other, list_events-delete_other j id es other)
              (refl, refl, refl)
      ]
      | inr d ↦ rw d (refl, refl, refl)
    ]
