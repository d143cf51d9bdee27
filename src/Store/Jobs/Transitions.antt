-- ===== src/Store/Jobs/Transitions.antt =====
-- The status of a stored job: the transitions that the methods other than `save` make.
use document_feeder.Prelude.{
  ℕ, String, ◌≡◌, refl, Bool, true, false, ◌&&◌, Option, none, some, arith, ◌==◌, eq_iff,
  if◌then◌else◌, is_some, Bool-cases, inl, inr, update_rows, ◌∙◌, ap, sym, subst, ◌||◌,
}
use mathlib.Core.Option
use document_feeder.Models.Job.{
  JobStatus, received, processing, delivering, quarantined, failed, is_quarantined, is_failed,
  DocumentJob,
}
use document_feeder.Table.{lookup, has}
use document_feeder.Table.Reads.{
  lookup-update_rows, lookup-remove, find_first-append, exists-find_first, find_first_holds,
}
use document_feeder.Table.Unique.{lookup_of_mem}
use document_feeder.Store.Jobs.{
  JobRow, JobTable, row_id, claimed, values, claim_delivery, renew_lease, retry_failed,
  delete_stalled, delete_row, row_hash, is_deletable, claim_row, next_due, claim_next,
  create_if_absent,
}
use document_feeder.Store.Jobs.Integrity.{
  IsWellFormed, Call, call_create, call_claim_delivery, call_claim_next, call_renew_lease,
  call_retry_failed, call_delete, call_save, apply,
}
use document_feeder.Store.Jobs.Queue.{IsDue, next_due-IsNext}

-- A transition of a stored job: none, the claim by a worker, the claim for a release, the retry,
-- the creation, and the deletion of a job that failed, is processed or is quarantined.
pub data Transition : Option JobStatus → Option JobStatus → Type 0 where
  stays : {s : Option JobStatus} → Transition s s
  starts : Transition (some received) (some processing)
  releases : Transition (some quarantined) (some delivering)
  retries : Transition (some failed) (some received)
  appears : {s : JobStatus} → Transition none (some s)
  goes : {s : JobStatus} → is_deletable s ≡ true → Transition (some s) none

abbrev pub status_of : String → JobTable → Option JobStatus
status_of id t = Option.map (λ (r : JobRow). r.status) (lookup row_id id t)

abbrev pub is_save : Call → Bool
is_save (call_save now job) = true
is_save _ = false

update-Transition :
    (p : JobRow → Bool) (f : JobRow → JobRow) (id : String) (t : JobTable)
    → ((r : JobRow) → (f r).id ≡ r.id)
    → ((r : JobRow)
        → lookup row_id id t ≡ some r
        → p r ≡ true
        → Transition (some r.status) (some (f r).status))
    → Transition (status_of id t) (status_of id (update_rows p f t))
update-Transition p f id t keeps moves =
    rw (lookup-update_rows row_id id p f t keeps) (go (lookup row_id id t) refl)
  where
    go :
        (o : Option JobRow)
        → lookup row_id id t ≡ o
        → Transition
            (Option.map (λ (r : JobRow). r.status) o)
            (Option.map (λ (r : JobRow). r.status) (Option.map (λ r. if p r then f r else r) o))
    go none e = stays
    go (some r) e = elim (Bool-cases (p r)) [ inl b ↦ rw b (moves r e b) | inr b ↦ rw b stays ]

claims : (now : ℕ) (r : JobRow) → IsDue now r → Transition (some r.status) (some processing)
claims now r (IsDue.fresh s _) = rw s starts
claims now r (IsDue.retry at s _ _) = rw s starts
claims now r (IsDue.abandoned at s _ _) = rw s stays

claim_row-Transition :
    (now : ℕ) (locked : String → Bool) (w : String) (lease : ℕ) (id : String) (t : JobTable)
    (found : Option JobRow)
    → IsWellFormed t
    → next_due now locked t ≡ found
    → Transition (status_of id t) (status_of id (claim_row now w lease found t).1)
unfolding claim_row claimed
claim_row-Transition now locked w lease id t none wf e = stays
claim_row-Transition now locked w lease id t (some row) wf e =
    update-Transition (λ r. r.id == row.id) (claimed now w lease) id t (λ r. refl)
      (λ r found b.
        let next = next_due-IsNext now locked t e in
        let here = lookup_of_mem row_id t wf.ids next.stored in
        let at_row : r.id ≡ row.id = (eq_iff r.id row.id).0 b in
        let at_id : r.id ≡ id = (eq_iff r.id id).0 (find_first_holds (λ r. r.id == id) t found) in
        let both : some row ≡ some r =
          sym here ∙ ap (λ k. lookup row_id k t) (sym at_row ∙ at_id) ∙ found in
        let one : row ≡ r = cc both in claims now r (subst (IsDue now) one next.is_due))

appended :
    (o : Option JobRow) (b : Bool) (r : JobRow)
    → Transition (Option.map (λ (r : JobRow). r.status) o) (
        Option.map (λ (r : JobRow). r.status) (if is_some o then o else if b then some r else none))
appended none true r = appears
appended none false r = stays
appended (some x) b r = stays

create-Transition :
    (job : DocumentJob) (id : String) (t : JobTable)
    → Transition (status_of id t) (status_of id (create_if_absent job t).1)
unfolding create_if_absent
create-Transition job id t = elim (Bool-cases (has row_id job.id t || has row_hash job.sha256 t)) [
  | inl e ↦ rw e stays
  | inr e ↦
      rw
        (
          e,
          find_first-append (λ r. r.id == id) t (values job),
          exists-find_first (λ r. r.id == id) t,
        )
        (appended (lookup row_id id t) _ (values job))
]

delete_found :
    (j id : String) (t : JobTable) (o : Option JobRow)
    → lookup row_id j t ≡ o
    → Transition (status_of id t) (status_of id (delete_row j o t).1)
unfolding delete_row
delete_found j id t none e = stays
delete_found j id t (some row) e = elim (Bool-cases (is_deletable row.status)) [
  | inl d ↦ elim (Bool-cases (j == id)) [
    | inl same ↦ rw (d, lookup-remove row_id j id t, same) (rw (← (eq_iff j id).0 same, e) (goes d))
    | inr other ↦ rw (d, lookup-remove row_id j id t, other) stays
  ]
  | inr d ↦ rw d stays
]

status_quarantined : (b : Bool) (s : JobStatus) → (b && is_quarantined s) ≡ true → s ≡ quarantined
status_quarantined b s h = ground arith

status_failed : (b : Bool) (s : JobStatus) → (b && is_failed s) ≡ true → s ≡ failed
status_failed b s h = ground arith

-- In a table with unique ids and hashes every method but `save` moves the status of every stored
-- job along an edge of the diagram, or leaves it alone.
pub apply-Transition :
    (c : Call) (id : String) (t : JobTable)
    → is_save c ≡ false
    → IsWellFormed t
    → Transition (status_of id t) (status_of id (apply c t))
unfolding apply claim_delivery claim_next renew_lease retry_failed delete_stalled
apply-Transition (call_save now job) id t e wf = cc
apply-Transition (call_create job) id t e wf = create-Transition job id t
apply-Transition (call_claim_delivery now j) id t e wf =
    update-Transition _ _ id t (λ r. refl)
      (λ r found b. rw (status_quarantined _ r.status b) releases)
apply-Transition (call_claim_next now locked w lease) id t e wf =
    claim_row-Transition now locked w lease id t (next_due now locked t) wf refl
apply-Transition (call_renew_lease now j w lease) id t e wf =
    update-Transition _ _ id t (λ r. refl) (λ r found b. stays)
apply-Transition (call_retry_failed now j) id t e wf =
    update-Transition _ _ id t (λ r. refl) (λ r found b. rw (status_failed _ r.status b) retries)
apply-Transition (call_delete j) id t e wf = delete_found j id t (lookup row_id j t) refl
