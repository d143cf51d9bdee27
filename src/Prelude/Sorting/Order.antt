-- ===== src/Prelude/Sorting/Order.antt =====
-- A sorted list: sorting leaves it alone, and keeps the rows that are selected in their order.
use mathlib.Core.Path.{◌≡◌, refl}
use mathlib.Core.Bool.{Bool, true, false}
use mathlib.Core.Logic.{inl, inr}
use mathlib.Core.List.{List, [], ◌∷◌, Memᴰ}
use native.Mathlib.Omega.{arith}
use document_feeder.Prelude.Tests.{if◌then◌else◌, Bool-cases}
use document_feeder.Prelude.Lists.{All, All-map, select}
use document_feeder.Prelude.Sorting.{insert_by, sort_by, All-insert_by}

pub All-select_of {ℓ κ} :
    {A : Type ℓ} (P : A → Type κ) (p : A → Bool) (xs : List A) → All P xs → All P (select p xs)
All-select_of P p [] h = tt
All-select_of P p (x ∷ xs) h = elim (Bool-cases (p x)) [
  | inl e ↦ rw e (h.0, All-select_of P p xs h.1)
  | inr e ↦ rw e (All-select_of P p xs h.1)
]

module _ {ℓ} {A : Type ℓ} (le : A → A → Bool) where
  -- every row may stand before all that follow it
  abbrev pub IsSorted : List A → Type ℓ
  IsSorted [] = Unit
  IsSorted (x ∷ xs) = All (λ y. le x y ≡ true) xs × IsSorted xs

  insert_by-first : (x : A) (ys : List A) → All (λ y. le x y ≡ true) ys → insert_by le x ys ≡ x ∷ ys
  unfolding insert_by
  insert_by-first x [] h = refl
  insert_by-first x (y ∷ ys) h = rw (h.0) refl

  pub sort_by-IsSorted_id : (xs : List A) → IsSorted xs → sort_by le xs ≡ xs
  unfolding sort_by
  sort_by-IsSorted_id [] h = refl
  sort_by-IsSorted_id (x ∷ xs) h = rw (sort_by-IsSorted_id xs h.1) (insert_by-first x xs h.0)

  module _ (total : (x y : A) → le x y ≡ false → le y x ≡ true)
      (trans : (x y z : A) → le x y ≡ true → le y z ≡ true → le x z ≡ true) where
    insert_by-IsSorted : (x : A) (ys : List A) → IsSorted ys → IsSorted (insert_by le x ys)
    unfolding insert_by
    insert_by-IsSorted x [] h = (tt, tt)
    insert_by-IsSorted x (y ∷ ys) h = elim (Bool-cases (le x y)) [
      | inl e ↦ rw e ((e, All-map ys (λ z k. trans x y z e k) h.0), h)
      | inr e ↦ rw e (
        All-insert_by le (λ z. le y z ≡ true) x ys (total x y e) h.0,
        insert_by-IsSorted x ys h.1,
      )
    ]

    pub sort_by-IsSorted : (xs : List A) → IsSorted (sort_by le xs)
    unfolding sort_by
    sort_by-IsSorted [] = tt
    sort_by-IsSorted (x ∷ xs) = insert_by-IsSorted x (sort_by le xs) (sort_by-IsSorted xs)

    module _ (p : A → Bool) where
      select-insert_by :
          (x : A) (ys : List A)
          → IsSorted ys
          → select p (insert_by le x ys)
            ≡ (if p x then insert_by le x (select p ys) else select p ys)
      unfolding insert_by
      select-insert_by x [] h = ground arith
      select-insert_by x (y ∷ ys) h = elim (Bool-cases (le x y)) [
        | inl e ↦
            let above =
              All-select_of (λ z. le x z ≡ true) p (y ∷ ys)
                (e, All-map ys (λ z k. trans x y z e k) h.0) in
            rw (e, insert_by-first x (select p (y ∷ ys)) above) refl
        | inr e ↦ elim (Bool-cases (p y)) [
          | inl q ↦ rw (e, q, select-insert_by x ys h.1) (ground arith)
          | inr q ↦ rw (e, q) (select-insert_by x ys h.1)
        ]
      ]

      -- Selecting rows and sorting may be exchanged.
      pub sort_by-select : (xs : List A) → sort_by le (select p xs) ≡ select p (sort_by le xs)
      unfolding sort_by
      sort_by-select [] = refl
      sort_by-select (x ∷ xs) =
          rw (select-insert_by x (sort_by le xs) (sort_by-IsSorted xs), ← sort_by-select xs)
            (elim (Bool-cases (p x)) [ inl e ↦ rw e refl | inr e ↦ rw e refl ])

module _ {ℓ} {A : Type ℓ} (le : A → A → Bool) where
  mem-insert_by_self : (x : A) (ys : List A) → Memᴰ x (insert_by le x ys)
  unfolding insert_by
  mem-insert_by_self x [] = Memᴰ.head refl
  mem-insert_by_self x (y ∷ ys) = elim (Bool-cases (le x y)) [
    | inl e ↦ rw e (Memᴰ.head refl)
    | inr e ↦ rw e (Memᴰ.tail (mem-insert_by_self x ys))
  ]

  mem-insert_by : (x : A) (ys : List A) {z : A} → Memᴰ z ys → Memᴰ z (insert_by le x ys)
  unfolding insert_by
  mem-insert_by x [] m = elim m [ ]
  mem-insert_by x (y ∷ ys) (Memᴰ.head q) = elim (Bool-cases (le x y)) [
    | inl e ↦ rw e (Memᴰ.tail (Memᴰ.head q))
    | inr e ↦ rw e (Memᴰ.head q)
  ]
  mem-insert_by x (y ∷ ys) (Memᴰ.tail m) = elim (Bool-cases (le x y)) [
    | inl e ↦ rw e (Memᴰ.tail (Memᴰ.tail m))
    | inr e ↦ rw e (Memᴰ.tail (mem-insert_by x ys m))
  ]

  pub mem-sort_by : (xs : List A) {z : A} → Memᴰ z xs → Memᴰ z (sort_by le xs)
  unfolding sort_by
  mem-sort_by [] m = elim m [ ]
  mem-sort_by (x ∷ xs) (Memᴰ.head q) = rw q (mem-insert_by_self x (sort_by le xs))
  mem-sort_by (x ∷ xs) (Memᴰ.tail m) = mem-insert_by x (sort_by le xs) (mem-sort_by xs m)
