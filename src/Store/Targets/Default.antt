-- ===== src/Store/Targets/Default.antt =====
-- The default target: at most one, and it is not deleted.
use document_feeder.Prelude.{
  ℕ, ◌+◌, ◌≤◌, String, ◌≡◌, refl, Bool, false, not, ◌&&◌, [], ◌∷◌, ◌++◌, subst, max, arith, ◌==◌,
  eq_iff, count_rows, update_rows, if◌then◌else◌, Bool-cases, inl, inr, ok,
}
use document_feeder.Models.Target.{TargetSystem}
use document_feeder.Table.{has, modify, IsUnique}
use document_feeder.Table.Reads.{modify_absent}
use document_feeder.Table.Unique.{update_rows-IsUnique}
use document_feeder.Store.Targets.{TargetTable, target_id, store_target, clear_defaults, put_row}

-- how many rows are the default
abbrev pub defaults : TargetTable → ℕ
defaults = count_rows (λ r. r.is_default)

defaults-append :
    (t : TargetTable) (r : TargetSystem)
    → defaults (t ++ r ∷ []) ≤ defaults t + (if r.is_default then 1 else 0)
defaults-append [] r = ground arith
defaults-append (x ∷ t) r = ground (arith, defaults-append t r)

-- the rows but one
abbrev others : String → TargetTable → ℕ
others id = count_rows (λ r. r.is_default && not (r.id == id))

abbrev one_if : Bool → ℕ
one_if b = if b then 1 else 0

others-update :
    (now : ℕ) (id : String) (t : TargetTable)
    → others id (
        update_rows
          (λ r. not (r.id == id))
          (λ r. record r { is_default = false; updated_at = now })
          t)
      ≡ 0
others-update now id [] = refl
others-update now id (x ∷ t) = ground (arith, others-update now id t)

others-le : (id : String) (t : TargetTable) → others id t ≤ defaults t
others-le id [] = omega arith
others-le id (x ∷ t) = ground (arith, others-le id t)

defaults-absent :
    (id : String) (t : TargetTable) → has target_id id t ≡ false → defaults t ≡ others id t
defaults-absent id [] h = refl
defaults-absent id (x ∷ t) h = ground (arith, defaults-absent id t)

defaults-modify :
    (row : TargetSystem) (t : TargetTable)
    → IsUnique target_id t
    → defaults (modify target_id row.id (λ _. row) t) ≤ others row.id t + one_if row.is_default
defaults-modify row [] u = ground arith
defaults-modify row (x ∷ t) u = elim (Bool-cases (x.id == row.id)) [
  | inl e ↦
      let absent = subst (λ k. has target_id k t ≡ false) ((eq_iff x.id row.id).0 e) u.0 in
      rw (e, modify_absent target_id row.id (λ _. row) t absent)
        (ground (arith, defaults-absent row.id t absent))
  | inr e ↦ rw e (ground (arith, defaults-modify row t u.1))
]

defaults-put_row :
    (row : TargetSystem) (t : TargetTable)
    → IsUnique target_id t
    → defaults (put_row row t) ≤ others row.id t + one_if row.is_default
unfolding put_row
defaults-put_row row t u = elim (Bool-cases (has target_id row.id t)) [
  | inl e ↦ rw e (defaults-modify row t u)
  | inr e ↦ rw e (omega (arith, defaults-append t row, defaults-absent row.id t e))
]

clear_defaults-IsUnique :
    (now : ℕ) (row : TargetSystem) (t : TargetTable)
    → IsUnique target_id t
    → IsUnique target_id (clear_defaults now row t)
unfolding clear_defaults
clear_defaults-IsUnique now row t u = elim (Bool-cases row.is_default) [
  | inl e ↦ rw e (update_rows-IsUnique target_id _ _ t (λ r. refl) u)
  | inr e ↦ rw e u
]

others-clear_defaults :
    (now : ℕ) (row : TargetSystem) (t : TargetTable)
    → others row.id (clear_defaults now row t) + one_if row.is_default ≤ max 1 (defaults t)
unfolding clear_defaults
others-clear_defaults now row t = elim (Bool-cases row.is_default) [
  | inl e ↦ rw e (omega (arith, others-update now row.id t))
  | inr e ↦ rw e (omega (arith, others-le row.id t))
]

-- A table with at most one default has at most one after a target was saved, as a new row or over
-- an old one, as a default or not.
pub store_target-defaults :
    (now : ℕ) (row : TargetSystem) (t t' : TargetTable)
    → IsUnique target_id t
    → defaults t ≤ 1
    → store_target now row t ≡ ok t'
    → defaults t' ≤ 1
unfolding store_target
store_target-defaults now row t t' u d e =
    let cleared = clear_defaults now row t in
    let same : t' ≡ put_row row cleared = ground arith in
    rw same (
      omega (
        arith,
        defaults-put_row row cleared (clear_defaults-IsUnique now row t u),
        others-clear_defaults now row t,
      ))
