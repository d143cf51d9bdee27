-- ===== src/Prelude/Pages.antt =====
-- Python's slices of a list, and the pages that a client reads one after the other.
use Prim.Native.Nat.{ℕ, zero, suc, ◌+◌, ◌*◌, ◌≤◌}
use mathlib.Core.Path.{◌≡◌, refl, ap, ◌∙◌, sym}
use mathlib.Core.List.{List, [], ◌∷◌, ◌++◌, map, map-append}
use native.Mathlib.Omega.{arith}
use document_feeder.Prelude.Lists.{length}

module _ {ℓ} {A : Type ℓ} where
  abbrev pub take : ℕ → List A → List A
  take zero xs = []
  take (suc n) [] = []
  take (suc n) (x ∷ xs) = x ∷ take n xs

  abbrev pub drop : ℕ → List A → List A
  drop zero xs = xs
  drop (suc n) [] = []
  drop (suc n) (x ∷ xs) = drop n xs

  -- `xs[offset : offset + limit]`
  abbrev pub page : ℕ → ℕ → List A → List A
  page offset limit xs = take limit (drop offset xs)

  pub length-take : (n : ℕ) (xs : List A) → length (take n xs) ≤ n
  length-take zero xs = omega arith
  length-take (suc n) [] = omega arith
  length-take (suc n) (x ∷ xs) = omega (arith, length-take n xs)

  take-drop : (n : ℕ) (xs : List A) → take n xs ++ drop n xs ≡ xs
  take-drop zero xs = refl
  take-drop (suc n) [] = refl
  take-drop (suc n) (x ∷ xs) = ap (λ r. x ∷ r) (take-drop n xs)

  drop_nil : (n : ℕ) → drop n [] ≡ []
  drop_nil zero = refl
  drop_nil (suc n) = refl

  drop-drop : (m n : ℕ) (xs : List A) → drop n (drop m xs) ≡ drop (m + n) xs
  drop-drop zero n xs = ap (λ k. drop k xs) (omega arith)
  drop-drop (suc m) n [] = drop_nil n ∙ sym (drop_nil (suc m + n))
  drop-drop (suc m) n (x ∷ xs) =
      let next : suc (m + n) ≡ suc m + n = omega arith in
      drop-drop m n xs ∙ ap (λ k. drop k (x ∷ xs)) next

  drop_all : (n : ℕ) (xs : List A) → length xs ≤ n → drop n xs ≡ []
  drop_all zero [] h = refl
  drop_all zero (x ∷ xs) h = absurd (omega arith)
  drop_all (suc n) [] h = refl
  drop_all (suc n) (x ∷ xs) h = drop_all n xs (omega arith)

  -- the first `n` of the pages from an offset on
  abbrev pub pages : (ℕ → List A) → ℕ → ℕ → ℕ → List A
  pages get zero limit offset = []
  pages get (suc n) limit offset = get offset ++ pages get n limit (offset + limit)

  pub pages_all :
      (n limit offset : ℕ) (xs : List A)
      → length xs ≤ offset + n * limit
      → pages (λ o. page o limit xs) n limit offset ≡ drop offset xs
  pages_all zero limit offset xs h = sym (drop_all offset xs (omega arith))
  pages_all (suc n) limit offset xs h =
      ap (λ r. page offset limit xs ++ r)
        (pages_all n limit (offset + limit) xs (omega arith) ∙ sym (drop-drop offset limit xs))
      ∙ take-drop limit (drop offset xs)

pub length-map {ℓ κ} :
    {A : Type ℓ} {B : Type κ} (f : A → B) (xs : List A) → length (map f xs) ≡ length xs
length-map f [] = refl
length-map f (x ∷ xs) = omega (arith, length-map f xs)

-- Changing each row of the pages changes each row of what they make up.
pub pages-map {ℓ κ} :
    {A : Type ℓ} {B : Type κ} (f : A → B) (n limit offset : ℕ) (xs : List A)
    → pages (λ o. map f (page o limit xs)) n limit offset
      ≡ map f (pages (λ o. page o limit xs) n limit offset)
pages-map f zero limit offset xs = refl
pages-map f (suc n) limit offset xs =
    ap (λ r. map f (page offset limit xs) ++ r) (pages-map f n limit (offset + limit) xs)
    ∙ sym (
        map-append f (page offset limit xs) (pages (λ o. page o limit xs) n limit (offset + limit)))
