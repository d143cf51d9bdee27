-- ===== src/Table/Unique.antt =====
-- Writes keep a column free of duplicates.
use document_feeder.Prelude.{
  String, ◌≡◌, refl, Bool, true, false, ◌&&◌, Option, none, some, eqb, count_rows, ap, subst, List,
  [], ◌∷◌, arith, ◌==◌, eq_iff, select, update_rows, Bool-cases, inl, inr, exists-append,
}
use mathlib.Core.List.{Memᴰ}
use document_feeder.Table.{lookup, has, IsUnique, add}

module _ {ℓ} {A : Type ℓ} (key : A → String) where
  has-update_rows :
      (k : String) (p : A → Bool) (f : A → A) (t : List A)
      → ((r : A) → key (f r) ≡ key r)
      → has key k (update_rows p f t) ≡ has key k t
  has-update_rows k p f [] keeps = refl
  has-update_rows k p f (x ∷ t) keeps = ground (arith, keeps x, has-update_rows k p f t keeps)

  pub update_rows-IsUnique :
      (p : A → Bool) (f : A → A) (t : List A)
      → ((r : A) → key (f r) ≡ key r)
      → IsUnique key t
      → IsUnique key (update_rows p f t)
  update_rows-IsUnique p f [] keeps u = u
  update_rows-IsUnique p f (x ∷ t) keeps u = (
    ground (arith, keeps x, has-update_rows (key x) p f t keeps),
    update_rows-IsUnique p f t keeps u.1,
  )

  has_of_mem : (t : List A) {r : A} → Memᴰ r t → has key (key r) t ≡ true
  has_of_mem [] m = elim m [ ]
  has_of_mem (x ∷ t) {r} (Memᴰ.head e) = ground (arith, eq_iff (key x) (key r), ap key e)
  has_of_mem (x ∷ t) (Memᴰ.tail m) = ground (arith, has_of_mem t m)

  -- In a table with unique keys a row is the one that is found at its key.
  pub lookup_of_mem :
      (t : List A) {r : A} → IsUnique key t → Memᴰ r t → lookup key (key r) t ≡ some r
  lookup_of_mem [] u m = elim m [ ]
  lookup_of_mem (x ∷ t) {r} u (Memᴰ.head e) = ground (arith, eq_iff (key x) (key r), ap key e)
  lookup_of_mem (x ∷ t) {r} u (Memᴰ.tail m) =
      ground (arith, eq_iff (key x) (key r), has_of_mem t m, lookup_of_mem t u.1 m)

  count_rows_absent :
      (k : String) (q : A → Bool) (t : List A)
      → has key k t ≡ false
      → count_rows (λ r. key r == k && q r) t ≡ 0
  count_rows_absent k q [] h = refl
  count_rows_absent k q (x ∷ t) h = ground (arith, count_rows_absent k q t)

  -- the test of a condition on the row at a key, if there is one
  abbrev pub holds_at : (A → Bool) → Option A → Bool
  holds_at q none = false
  holds_at q (some r) = q r

  -- `rowcount == 1` after an `UPDATE … WHERE key = k AND q` says that the row at `k` has `q`.
  pub rowcount-holds_at :
      (k : String) (q : A → Bool) (t : List A)
      → IsUnique key t
      → eqb (count_rows (λ r. key r == k && q r) t) 1 ≡ holds_at q (lookup key k t)
  rowcount-holds_at k q [] u = refl
  rowcount-holds_at k q (x ∷ t) u = elim (Bool-cases (key x == k)) [
    | inl e ↦
        let absent = subst (λ j. has key j t ≡ false) ((eq_iff (key x) k).0 e) u.0 in
        rw e (ground (arith, count_rows_absent k q t absent))
    | inr e ↦ rw e (rowcount-holds_at k q t u.1)
  ]

  has-select :
      (k : String) (p : A → Bool) (t : List A)
      → has key k t ≡ false
      → has key k (select p t) ≡ false
  has-select k p [] h = refl
  has-select k p (x ∷ t) h = ground (arith, has-select k p t)

  pub select-IsUnique : (p : A → Bool) (t : List A) → IsUnique key t → IsUnique key (select p t)
  select-IsUnique p [] u = u
  select-IsUnique p (x ∷ t) u = elim (Bool-cases (p x)) [
    | inl e ↦ rw e (has-select (key x) p t u.0, select-IsUnique p t u.1)
    | inr e ↦ rw e (select-IsUnique p t u.1)
  ]

  pub add-IsUnique :
      (r : A) (t : List A) → has key (key r) t ≡ false → IsUnique key t → IsUnique key (add key r t)
  add-IsUnique r [] h u = (refl, tt)
  add-IsUnique r (x ∷ t) h u = (
    ground (
      arith,
      exists-append (λ s. key s == key x) t (r ∷ []),
      eq_iff (key x) (key r),
      eq_iff (key r) (key x),
    ),
    add-IsUnique r t (ground arith) u.1,
  )
