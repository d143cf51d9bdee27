-- ===== src/Prelude/Sorting.antt =====
-- `ORDER BY`: a stable insertion sort by a Boolean order, with what the clients need of it.
pub mod Order
pub mod Count
use mathlib.Core.Path.{◌≡◌, refl, sym, subst}
use mathlib.Core.Bool.{Bool, true, false}
use mathlib.Core.Logic.{◌≢◌, inl, inr}
use mathlib.Core.List.{List, [], ◌∷◌, ◌++◌, Memᴰ}
use mathlib.Core.Option.{Option, none, some}
use native.Mathlib.Omega.{arith}
use document_feeder.Prelude.Tests.{if◌then◌else◌, Bool-cases}
use document_feeder.Prelude.Lists.{All}

module _ {ℓ} {A : Type ℓ} where
  abbrev pub head? : List A → Option A
  head? [] = none
  head? (x ∷ xs) = some x

  abbrev pub last? : List A → Option A
  last? [] = none
  last? (x ∷ []) = some x
  last? (x ∷ y ∷ xs) = last? (y ∷ xs)

  pub nil_of_head? : (xs : List A) → head? xs ≡ none → xs ≡ []
  nil_of_head? [] h = refl
  nil_of_head? (x ∷ xs) h = cc

  pub last?-append : (xs : List A) (r : A) → last? (xs ++ r ∷ []) ≡ some r
  last?-append [] r = refl
  last?-append (x ∷ []) r = refl
  last?-append (x ∷ y ∷ xs) r = last?-append (y ∷ xs) r

module _ {ℓ} {A : Type ℓ} (le : A → A → Bool) where
  -- `le x y` says that `x` may stand before `y`
  unfoldable pub insert_by : A → List A → List A
  insert_by x [] = x ∷ []
  insert_by x (y ∷ ys) = if le x y then x ∷ y ∷ ys else y ∷ insert_by x ys

  unfoldable pub sort_by : List A → List A
  unfolding insert_by
  sort_by [] = []
  sort_by (x ∷ xs) = insert_by x (sort_by xs)

  insert_by-append :
      (x r : A) (ys : List A)
      → le x r ≡ true
      → insert_by x (ys ++ r ∷ []) ≡ insert_by x ys ++ r ∷ []
  unfolding insert_by
  insert_by-append x r [] h = ground arith
  insert_by-append x r (y ∷ ys) h = ground (arith, insert_by-append x r ys)

  -- A last row that all others may stand before is sorted last.
  pub sort_by-append :
      (xs : List A) (r : A)
      → All (λ x. le x r ≡ true) xs
      → sort_by (xs ++ r ∷ []) ≡ sort_by xs ++ r ∷ []
  unfolding sort_by
  sort_by-append [] r h = refl
  sort_by-append (x ∷ xs) r h = rw (sort_by-append xs r h.1) (insert_by-append x r (sort_by xs) h.0)

  module _ {κ} (P : A → Type κ) where
    All-insert_by : (x : A) (ys : List A) → P x → All P ys → All P (insert_by x ys)
    unfolding insert_by
    All-insert_by x [] p h = (p, tt)
    All-insert_by x (y ∷ ys) p h = elim (Bool-cases (le x y)) [
      | inl e ↦ rw e (p, h)
      | inr e ↦ rw e (h.0, All-insert_by x ys p h.1)
    ]

    pub All-sort_by : (xs : List A) → All P xs → All P (sort_by xs)
    unfolding sort_by
    All-sort_by [] h = h
    All-sort_by (x ∷ xs) h = All-insert_by x (sort_by xs) h.0 (All-sort_by xs h.1)

  module _ {κ} (P : A → Type κ) where
    All-of_insert_by : (x : A) (ys : List A) → All P (insert_by x ys) → P x × All P ys
    unfolding insert_by
    All-of_insert_by x [] h = h
    All-of_insert_by x (y ∷ ys) h = elim (Bool-cases (le x y)) [
      | inl e ↦ rw e at h
      | inr e ↦
          let later = rw e at h in
          let rest = All-of_insert_by x ys later.1 in (rest.0, (later.0, rest.1))
    ]

    pub All-of_sort_by : (xs : List A) → All P (sort_by xs) → All P xs
    unfolding sort_by
    All-of_sort_by [] h = h
    All-of_sort_by (x ∷ xs) h =
        let first = All-of_insert_by x (sort_by xs) h in (first.0, All-of_sort_by xs first.1)

  insert_by-ne_nil : (x : A) (ys : List A) → insert_by x ys ≢ []
  unfolding insert_by
  insert_by-ne_nil x [] h = cc
  insert_by-ne_nil x (y ∷ ys) h = ground arith

  pub sort_by-nil : (xs : List A) → sort_by xs ≡ [] → xs ≡ []
  unfolding sort_by
  sort_by-nil [] h = refl
  sort_by-nil (x ∷ xs) h = absurd (insert_by-ne_nil x (sort_by xs) h)

  -- with an order that is total and transitive
  module _ (total : (x y : A) → le x y ≡ false → le y x ≡ true)
      (trans : (x y z : A) → le x y ≡ true → le y z ≡ true → le x z ≡ true) where
    -- `y` is not above its own first
    All-above :
        (x y : A) (xs : List A)
        → le x y ≡ true
        → All (λ z. le y z ≡ true) xs
        → All (λ z. le x z ≡ true) xs
    All-above x y [] h a = tt
    All-above x y (z ∷ xs) h a = (trans x y z h a.0, All-above x y xs h a.1)

    abbrev Least : A → List A → Type ℓ
    Least m xs = Memᴰ m xs × All (λ y. le m y ≡ true) xs

    le_refl : (x : A) → le x x ≡ true
    le_refl x = elim (Bool-cases (le x x)) [ inl e ↦ e | inr e ↦ total x x e ]

    Least-step :
        (x : A) (xs ys : List A) {m : A}
        → sort_by xs ≡ ys
        → ((y : A) → head? ys ≡ some y → Least y xs)
        → head? (insert_by x ys) ≡ some m
        → Least m (x ∷ xs)
    unfolding insert_by
    Least-step x xs [] {m} e ih h =
        let nil : xs ≡ [] = sort_by-nil xs e in
        let same : m ≡ x = cc in rw (same, nil) (Memᴰ.head refl, (le_refl x, tt))
    Least-step x xs (y ∷ ys) {m} e ih h = elim (Bool-cases (le x y)) [
      | inl b ↦
          let same : m ≡ x = ground arith in
          subst (λ w. Least w (x ∷ xs)) (sym same)
            (Memᴰ.head refl, (le_refl x, All-above x y xs b (ih y refl).1))
      | inr b ↦
          let same : m ≡ y = ground arith in
          subst (λ w. Least w (x ∷ xs)) (sym same)
            (Memᴰ.tail (ih y refl).0, (total x y b, (ih y refl).1))
    ]

    -- The first row of the sorted table is one of its rows, and stands before all of them.
    pub sort_by-least :
        (xs : List A) {m : A}
        → head? (sort_by xs) ≡ some m
        → Memᴰ m xs × All (λ y. le m y ≡ true) xs
    unfolding sort_by
    sort_by-least [] h = cc
    sort_by-least (x ∷ xs) h = Least-step x xs (sort_by xs) refl (λ y e. sort_by-least xs e) h
