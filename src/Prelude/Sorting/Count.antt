-- ===== src/Prelude/Sorting/Count.antt =====
-- Sorting changes neither which rows there are nor how many.
use mathlib.Core.Path.{◌≡◌, refl, ◌∙◌}
use mathlib.Core.Bool.{Bool}
use mathlib.Core.List.{List, [], ◌∷◌}
use native.Mathlib.Omega.{arith}
use document_feeder.Prelude.Lists.{count_rows, exists, length, select}
use document_feeder.Prelude.Sorting.{insert_by, sort_by}

module _ {ℓ} {A : Type ℓ} (le : A → A → Bool) (p : A → Bool) where
  count_rows-insert_by :
      (x : A) (ys : List A) → count_rows p (insert_by le x ys) ≡ count_rows p (x ∷ ys)
  unfolding insert_by
  count_rows-insert_by x [] = refl
  count_rows-insert_by x (y ∷ ys) = ground (arith, count_rows-insert_by x ys)

  pub count_rows-sort_by : (xs : List A) → count_rows p (sort_by le xs) ≡ count_rows p xs
  unfolding sort_by
  count_rows-sort_by [] = refl
  count_rows-sort_by (x ∷ xs) =
      count_rows-insert_by x (sort_by le xs) ∙ ground (arith, count_rows-sort_by xs)

  exists-insert_by : (x : A) (ys : List A) → exists p (insert_by le x ys) ≡ exists p (x ∷ ys)
  unfolding insert_by
  exists-insert_by x [] = refl
  exists-insert_by x (y ∷ ys) = ground (arith, exists-insert_by x ys)

  pub exists-sort_by : (xs : List A) → exists p (sort_by le xs) ≡ exists p xs
  unfolding sort_by
  exists-sort_by [] = refl
  exists-sort_by (x ∷ xs) = exists-insert_by x (sort_by le xs) ∙ ground (arith, exists-sort_by xs)

module _ {ℓ} {A : Type ℓ} (le : A → A → Bool) where
  length-insert_by : (x : A) (ys : List A) → length (insert_by le x ys) ≡ length (x ∷ ys)
  unfolding insert_by
  length-insert_by x [] = refl
  length-insert_by x (y ∷ ys) = ground (arith, length-insert_by x ys)

  pub length-sort_by : (xs : List A) → length (sort_by le xs) ≡ length xs
  unfolding sort_by
  length-sort_by [] = refl
  length-sort_by (x ∷ xs) = length-insert_by x (sort_by le xs) ∙ ground (arith, length-sort_by xs)

pub length-select {ℓ} :
    {A : Type ℓ} (p : A → Bool) (xs : List A) → length (select p xs) ≡ count_rows p xs
length-select p [] = refl
length-select p (x ∷ xs) = ground (arith, length-select p xs)
