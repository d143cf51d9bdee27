-- ===== src/Store/Jobs/Integrity.antt =====
-- The primary key and the unique hash index of `document_jobs` under every method.
use document_feeder.Prelude.{
  ℕ, String, ◌≡◌, refl, Bool, false, ◌||◌, List, [], ◌∷◌, arith, ◌==◌, eq_iff, Bool-cases, inl, inr,
  Option, some, none, Outcome, ok, raise, update_rows,
}
use document_feeder.Models.Job.{DocumentJob}
use document_feeder.Table.{has, modify, IsUnique, lookup}
use document_feeder.Table.Reads.{modify_absent}
use document_feeder.Table.Unique.{update_rows-IsUnique, select-IsUnique, add-IsUnique}
use document_feeder.Store.Jobs.{
  JobRow, JobTable, row_id, row_hash, StoreError, next_due, claim_row, claimed, is_deletable,
  delete_row, hash_taken, write_row, values, save, create_if_absent, claim_delivery, claim_next,
  renew_lease, retry_failed, delete_stalled,
}

pub record IsWellFormed (t : JobTable) : Type 0 where
  pub ids : IsUnique row_id t
  pub hashes : IsUnique row_hash t

-- A call of one of the methods that change the table, at a time of the clock.
pub data Call : Type 0 where
  call_save : ℕ → DocumentJob → Call
  call_create : DocumentJob → Call
  call_claim_delivery : ℕ → String → Call
  call_claim_next : ℕ → (String → Bool) → String → ℕ → Call
  call_renew_lease : ℕ → String → String → ℕ → Call
  call_retry_failed : ℕ → String → Call
  call_delete : String → Call

-- a save that raises is rolled back
abbrev committed : Outcome StoreError JobTable → JobTable → JobTable
committed (ok t') t = t'
committed (raise e) t = t

abbrev pub after_save : ℕ → DocumentJob → JobTable → JobTable
after_save now job t = committed (save now job t).0 t

-- The table after a call.
unfoldable pub apply : Call → JobTable → JobTable
apply (call_save now job) t = after_save now job t
apply (call_create job) t = (create_if_absent job t).1
apply (call_claim_delivery now id) t = (claim_delivery now id t).1
apply (call_claim_next now locked w lease) t = (claim_next now locked w lease t).1
apply (call_renew_lease now id w lease) t = (renew_lease now id w lease t).1
apply (call_retry_failed now id) t = (retry_failed now id t).1
apply (call_delete id) t = (delete_stalled id t).1

unfoldable pub apply_all : List Call → JobTable → JobTable
apply_all [] t = t
apply_all (c ∷ cs) t = apply_all cs (apply c t)

-- The replaced row keeps its place, and no other row has its hash.
module _ (row : JobRow) where
  has-modify_other :
      (h : String) (t : JobTable)
      → (row.sha256 == h) ≡ false
      → has row_hash h t ≡ false
      → has row_hash h (modify row_id row.id (λ _. row) t) ≡ false
  has-modify_other h [] e a = refl
  has-modify_other h (x ∷ t) e a = ground (arith, has-modify_other h t)

  absent_hash :
      (t : JobTable)
      → has row_id row.id t ≡ false
      → hash_taken row t ≡ false
      → has row_hash row.sha256 t ≡ false
  unfolding hash_taken
  absent_hash [] a n = refl
  absent_hash (x ∷ t) a n = ground (arith, absent_hash t)

  has-modify_id :
      (k : String) (t : JobTable)
      → has row_id k (modify row_id row.id (λ _. row) t) ≡ has row_id k t
  has-modify_id k [] = refl
  has-modify_id k (x ∷ t) = ground (arith, eq_iff x.id row.id, has-modify_id k t)

  ids-modify :
      (t : JobTable) → IsUnique row_id t → IsUnique row_id (modify row_id row.id (λ _. row) t)
  ids-modify [] u = tt
  ids-modify (x ∷ t) u =
      (ground (arith, eq_iff x.id row.id, has-modify_id x.id t), ids-modify t u.1)

  hashes-modify :
      (t : JobTable)
      → IsUnique row_id t
      → IsUnique row_hash t
      → hash_taken row t ≡ false
      → IsUnique row_hash (modify row_id row.id (λ _. row) t)
  unfolding hash_taken
  hashes-modify [] i u n = tt
  hashes-modify (x ∷ t) i u n = elim (Bool-cases (x.id == row.id)) [
    | inl e ↦
        let absent : has row_id row.id t ≡ false = ground (arith, eq_iff x.id row.id) in
        rw (e, modify_absent row_id row.id (λ _. row) t absent)
          (absent_hash t absent (ground arith), u.1)
    | inr e ↦ rw e (
      has-modify_other x.sha256 t
          (ground (arith, eq_iff x.sha256 row.sha256, eq_iff row.sha256 x.sha256)) u.0,
      hashes-modify t i.1 u.1 (ground arith),
    )
  ]

  modify-IsWellFormed :
      (t : JobTable)
      → IsWellFormed t
      → hash_taken row t ≡ false
      → IsWellFormed (modify row_id row.id (λ _. row) t)
  modify-IsWellFormed t w n = record {
    ids = ids-modify t w.ids;
    hashes = hashes-modify t w.ids w.hashes n;
  }

-- a write to some rows that leaves both columns alone
update-IsWellFormed :
    (p : JobRow → Bool) (f : JobRow → JobRow) (t : JobTable)
    → ((r : JobRow) → (f r).id ≡ r.id)
    → ((r : JobRow) → (f r).sha256 ≡ r.sha256)
    → IsWellFormed t
    → IsWellFormed (update_rows p f t)
update-IsWellFormed p f t same_id same_hash w = record {
  ids = update_rows-IsUnique row_id p f t same_id w.ids;
  hashes = update_rows-IsUnique row_hash p f t same_hash w.hashes;
}

write_row-IsWellFormed :
    (row : JobRow) (t : JobTable) → IsWellFormed t → IsWellFormed (committed (write_row row t) t)
unfolding write_row
write_row-IsWellFormed row t w = elim (Bool-cases (has row_id row.id t)) [
  | inl e ↦ elim (Bool-cases (hash_taken row t)) [
    | inl n ↦ rw (e, n) w
    | inr n ↦ rw (e, n) (modify-IsWellFormed row t w n)
  ]
  | inr e ↦ rw e (rw (modify_absent row_id row.id (λ _. row) t e) w)
]

create-IsWellFormed :
    (job : DocumentJob) (t : JobTable) → IsWellFormed t → IsWellFormed (create_if_absent job t).1
unfolding create_if_absent values
create-IsWellFormed job t w = elim (Bool-cases (has row_id job.id t || has row_hash job.sha256 t)) [
  | inl e ↦ rw e w
  | inr e ↦ rw e (record {
    ids = add-IsUnique row_id (values job) t (ground arith) w.ids;
    hashes = add-IsUnique row_hash (values job) t (ground arith) w.hashes;
  })
]

claim_row-IsWellFormed :
    (now : ℕ) (w : String) (lease : ℕ) (found : Option JobRow) (t : JobTable)
    → IsWellFormed t
    → IsWellFormed (claim_row now w lease found t).1
unfolding claim_row claimed
claim_row-IsWellFormed now w lease none t h = h
claim_row-IsWellFormed now w lease (some row) t h =
    update-IsWellFormed (λ r. r.id == row.id) (claimed now w lease) t (λ r. refl) (λ r. refl) h

delete_row-IsWellFormed :
    (id : String) (found : Option JobRow) (t : JobTable)
    → IsWellFormed t
    → IsWellFormed (delete_row id found t).1
unfolding delete_row
delete_row-IsWellFormed id none t w = w
delete_row-IsWellFormed id (some row) t w = elim (Bool-cases (is_deletable row.status)) [
  | inl d ↦ rw d (record {
    ids = select-IsUnique row_id _ t w.ids;
    hashes = select-IsUnique row_hash _ t w.hashes;
  })
  | inr d ↦ rw d w
]

-- No call of a method, whatever its arguments, its outcome and the clock, makes two rows share an
-- id or a hash.
pub apply-IsWellFormed : (c : Call) (t : JobTable) → IsWellFormed t → IsWellFormed (apply c t)
unfolding apply save claim_delivery claim_next renew_lease retry_failed delete_stalled
apply-IsWellFormed (call_save now job) t w =
    write_row-IsWellFormed (values (record job { updated_at = now })) t w
apply-IsWellFormed (call_create job) t w = create-IsWellFormed job t w
apply-IsWellFormed (call_claim_delivery now id) t w =
    update-IsWellFormed _ _ t (λ r. refl) (λ r. refl) w
apply-IsWellFormed (call_claim_next now locked wk lease) t w =
    claim_row-IsWellFormed now wk lease (next_due now locked t) t w
apply-IsWellFormed (call_renew_lease now id wk lease) t w =
    update-IsWellFormed _ _ t (λ r. refl) (λ r. refl) w
apply-IsWellFormed (call_retry_failed now id) t w =
    update-IsWellFormed _ _ t (λ r. refl) (λ r. refl) w
apply-IsWellFormed (call_delete id) t w = delete_row-IsWellFormed id (lookup row_id id t) t w

apply_all_keeps : (cs : List Call) (t : JobTable) → IsWellFormed t → IsWellFormed (apply_all cs t)
unfolding apply_all
apply_all_keeps [] t w = w
apply_all_keeps (c ∷ cs) t w = apply_all_keeps cs (apply c t) (apply-IsWellFormed c t w)

-- After any sequence of method calls on an empty table, ids and hashes are still unique.
pub apply_all-IsWellFormed : (cs : List Call) → IsWellFormed (apply_all cs [])
apply_all-IsWellFormed cs = apply_all_keeps cs [] (record { ids = tt; hashes = tt })
