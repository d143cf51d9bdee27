-- ===== src/Store/Audit/Retention/Recent.antt =====
-- The deletion of old events deletes no recent one.
use document_feeder.Prelude.{
  ℕ, suc, zero, ◌-◌, ◌≡◌, refl, ap, sym, ◌∙◌, ◌⊎◌, Bool, true, false, not, Option, none, some, List,
  [], ◌∷◌, arith, All, All-map, All-select, select, leb, eqb, Bool-cases, inl, inr,
}
use document_feeder.Prelude.Sorting.{sort_by-least, nil_of_head?, sort_by-nil}
use document_feeder.Store.Audit.{AuditRow, AuditLog, by_index, index_before, number_up_to}
use document_feeder.Store.Audit.Retention.{
  boundary, index_before_first, cut_at, delete_up_to, delete_at, first_retained,
  delete_audit_events_before,
}
use document_feeder.Store.Audit.Retention.Chain.{above, by_index_total, by_index_trans}

select_keep :
    {A : Type 0} (p : A → Bool) (x : A) (xs : List A)
    → p x ≡ true
    → select p (x ∷ xs) ≡ x ∷ select p xs
select_keep p x xs e = rw e refl

select_skip :
    {A : Type 0} (p : A → Bool) (x : A) (xs : List A)
    → p x ≡ false
    → select p (x ∷ xs) ≡ select p xs
select_skip p x xs e = rw e refl

select-select :
    {A : Type 0} (p q : A → Bool) (xs : List A) → select p (select q xs) ≡ select q (select p xs)
select-select p q [] = refl
select-select p q (x ∷ xs) = elim (Bool-cases (p x)) [
  | inl e ↦ elim (Bool-cases (q x)) [
    | inl f ↦
        ap (select p) (select_keep q x xs f)
        ∙ select_keep p x _ e
        ∙ ap (λ r. x ∷ r) (select-select p q xs)
        ∙ sym (select_keep q x _ f)
        ∙ ap (select q) (sym (select_keep p x xs e))
    | inr f ↦
        ap (select p) (select_skip q x xs f)
        ∙ select-select p q xs
        ∙ sym (select_skip q x _ f)
        ∙ ap (select q) (sym (select_keep p x xs e))
  ]
  | inr e ↦ elim (Bool-cases (q x)) [
    | inl f ↦
        ap (select p) (select_keep q x xs f)
        ∙ select_skip p x _ e
        ∙ select-select p q xs
        ∙ ap (select q) (sym (select_skip p x xs e))
    | inr f ↦
        ap (select p) (select_skip q x xs f)
        ∙ select-select p q xs
        ∙ ap (select q) (sym (select_skip p x xs e))
  ]
]

abbrev pub recent : ℕ → AuditRow → Bool
recent cutoff r = leb cutoff r.created_at

module _ (now cutoff : ℕ) (log : AuditLog) where
  abbrev IsAbove : ℕ → Type 0
  IsAbove n = All (λ r. above n r ≡ true) (select (recent cutoff) log.rows)

  cut_at-recent :
      (n : ℕ) (found : Option AuditRow)
      → IsAbove n
      → select (recent cutoff) (cut_at now n found log).1.rows ≡ select (recent cutoff) log.rows
  unfolding cut_at
  cut_at-recent n none a = refl
  cut_at-recent n (some r) a =
      select-select (recent cutoff) (above n) log.rows ∙ All-select (above n) _ a

  delete_up_to-recent :
      (n : ℕ)
      → ((n ≡ 0) ⊎ IsAbove n)
      → select (recent cutoff) (delete_up_to now n log).1.rows ≡ select (recent cutoff) log.rows
  unfolding delete_up_to
  delete_up_to-recent n (inl z) = rw z refl
  delete_up_to-recent n (inr a) = elim (Bool-cases (eqb n 0)) [
    | inl e ↦ rw e refl
    | inr e ↦ rw e (cut_at-recent n _ a)
  ]

  above_first :
      (f : ℕ) (r : AuditRow) → index_before (some (suc f)) r.chain_index ≡ true → above f r ≡ true
  above_first f r = go r.chain_index
    where
      go : (i : Option ℕ) → index_before (some (suc f)) i ≡ true → not (number_up_to i f) ≡ true
      go none h = refl
      go (some i) h = ground arith

  delete_before-recent :
      (first : AuditRow) (i : Option ℕ)
      → first.chain_index ≡ i
      → All (λ r. by_index first r ≡ true) (select (recent cutoff) log.rows)
      → select (recent cutoff) (delete_at (index_before_first i) now log).1.rows
        ≡ select (recent cutoff) log.rows
  unfolding delete_at
  delete_before-recent first none e least = refl
  delete_before-recent first (some zero) e least = delete_up_to-recent 0 (inl refl)
  delete_before-recent first (some (suc f)) e least =
      let one_less : f ≡ suc f - 1 = omega arith in
      rw (← one_less)
        (delete_up_to-recent f (inr (All-map _ (λ r k. above_first f r (rw e at k)) least)))

  -- what the deletion does from the first recent row
  delete_at-recent :
      (first : Option AuditRow)
      → first_retained cutoff log.rows ≡ first
      → select (recent cutoff) (delete_at (boundary first log.rows) now log).1.rows
        ≡ select (recent cutoff) log.rows
  unfolding boundary delete_at first_retained
  delete_at-recent none e =
      let nil : select (recent cutoff) log.rows ≡ [] = sort_by-nil by_index _ (nil_of_head? _ e) in
      delete_up_to-recent _ (inr (rw nil tt))
  delete_at-recent (some first) e =
      let least =
        sort_by-least by_index by_index_total by_index_trans (select (recent cutoff) log.rows) e in
      delete_before-recent first first.chain_index refl least.1

-- The deletion leaves all events from the cutoff on, in their order.
pub delete_audit_events_before-recent :
    (now cutoff : ℕ) (log : AuditLog)
    → select (recent cutoff) (delete_audit_events_before now cutoff log).1.rows
      ≡ select (recent cutoff) log.rows
unfolding delete_audit_events_before
delete_audit_events_before-recent now cutoff log =
    delete_at-recent now cutoff log (first_retained cutoff log.rows) refl
