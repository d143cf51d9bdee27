-- ===== src/Table/Reads.antt =====
-- What a read finds after a write.
use document_feeder.Prelude.{
  String, ◌≡◌, refl, Bool, true, false, none, some, List, [], ◌∷◌, ◌++◌, arith, ◌==◌, eq_iff, All,
  find_first, exists, update_rows, select, is_some, if◌then◌else◌, Bool-cases, inl, inr,
}
use mathlib.Core.Option
use mathlib.Core.List.{Memᴰ}
use document_feeder.Table.{lookup, has, modify, remove}

module _ {ℓ} {A : Type ℓ} where
  pub find_first_holds : (p : A → Bool) (t : List A) {r : A} → find_first p t ≡ some r → p r ≡ true
  find_first_holds p [] h = cc
  find_first_holds p (x ∷ t) {r} h = ground (arith, find_first_holds p t {r = r})

  pub find_first_mem : (p : A → Bool) (t : List A) {r : A} → find_first p t ≡ some r → Memᴰ r t
  find_first_mem p [] h = cc
  find_first_mem p (x ∷ t) {r} h = elim (Bool-cases (p x)) [
    | inl e ↦ Memᴰ.head (ground arith)
    | inr e ↦ Memᴰ.tail (find_first_mem p t (ground arith))
  ]

  pub find_first-none : (p : A → Bool) (t : List A) → exists p t ≡ false → find_first p t ≡ none
  find_first-none p [] h = refl
  find_first-none p (x ∷ t) h = ground (arith, find_first-none p t)

  pub exists-find_first : (p : A → Bool) (t : List A) → exists p t ≡ is_some (find_first p t)
  exists-find_first p [] = refl
  exists-find_first p (x ∷ t) = ground (arith, exists-find_first p t)

  pub find_first-append :
      (p : A → Bool) (t : List A) (r : A)
      → find_first p (t ++ r ∷ [])
        ≡ (if exists p t then find_first p t else if p r then some r else none)
  find_first-append p [] r = refl
  find_first-append p (x ∷ t) r = ground (arith, find_first-append p t r)

module _ {ℓ} {A : Type ℓ} (p : A → Bool) where
  mem-select_head :
      (x : A) (t : List A) {r : A}
      → p x ≡ true
      → (Memᴰ r (select p t) → Memᴰ r t × (p r ≡ true))
      → Memᴰ r (x ∷ select p t)
      → Memᴰ r (x ∷ t) × (p r ≡ true)
  mem-select_head x t e ih (Memᴰ.head same) = (Memᴰ.head same, rw same e)
  mem-select_head x t e ih (Memᴰ.tail m) = (Memᴰ.tail (ih m).0, (ih m).1)

  -- A selected row is a row of the table that has the property.
  pub mem-select : (t : List A) {r : A} → Memᴰ r (select p t) → Memᴰ r t × (p r ≡ true)
  mem-select [] m = elim m [ ]
  mem-select (x ∷ t) m = elim (Bool-cases (p x)) [
    | inl e ↦ mem-select_head x t e (mem-select t) (rw e at m)
    | inr e ↦ let found = mem-select t (rw e at m) in (Memᴰ.tail found.0, found.1)
  ]

module _ {ℓ κ} {A : Type ℓ} (P : A → Type κ) where
  pub All_at : (t : List A) {r : A} → All P t → Memᴰ r t → P r
  All_at [] h m = elim m [ ]
  All_at (x ∷ t) h (Memᴰ.head e) = rw e h.0
  All_at (x ∷ t) h (Memᴰ.tail m) = All_at t h.1 m

module _ {ℓ} {A : Type ℓ} (key : A → String) where
  -- A write that keeps the key is read back at its key, and nowhere else.
  pub lookup-modify :
      (k j : String) (f : A → A) (t : List A)
      → ((r : A) → key (f r) ≡ key r)
      → lookup key j (modify key k f t)
        ≡ (if k == j then Option.map f (lookup key j t) else lookup key j t)
  lookup-modify k j f [] keeps = ground arith
  lookup-modify k j f (x ∷ t) keeps =
      ground (
        arith,
        keeps x,
        eq_iff k j,
        eq_iff (key x) k,
        eq_iff (key x) j,
        lookup-modify k j f t keeps,
      )

  -- A write to some rows that keeps their keys: the row at a key is written if it is one of them.
  pub lookup-update_rows :
      (j : String) (p : A → Bool) (f : A → A) (t : List A)
      → ((r : A) → key (f r) ≡ key r)
      → lookup key j (update_rows p f t) ≡ Option.map (λ r. if p r then f r else r) (lookup key j t)
  lookup-update_rows j p f [] keeps = refl
  lookup-update_rows j p f (x ∷ t) keeps = ground (arith, keeps x, lookup-update_rows j p f t keeps)

  pub modify_absent :
      (k : String) (f : A → A) (t : List A) → has key k t ≡ false → modify key k f t ≡ t
  modify_absent k f [] h = refl
  modify_absent k f (x ∷ t) h = ground (arith, modify_absent k f t)

  pub lookup-remove :
      (k j : String) (t : List A)
      → lookup key j (remove key k t) ≡ (if k == j then none else lookup key j t)
  lookup-remove k j [] = ground arith
  lookup-remove k j (x ∷ t) =
      ground (arith, eq_iff k j, eq_iff (key x) k, eq_iff (key x) j, lookup-remove k j t)
