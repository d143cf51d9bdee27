-- ===== src/Intake/Chunks.antt =====
-- Reading a file in chunks: `while chunk := source.read(size)` (src/document_core/malware.py and
-- src/document_core/pipeline.py).
use document_feeder.Prelude.{
  ℕ, zero, suc, ◌≤◌, ◌≡◌, refl, ap, ◌∙◌, List, [], ◌∷◌, ◌++◌, arith, length, All,
}
use document_feeder.Prelude.Pages.{take, drop, length-take}
use document_feeder.Auth.{Bytes}

-- the chunks that the loop reads; a read of nothing ends it. It reads a byte at least in every
-- round, so as many rounds as there are bytes are enough.
unfoldable pub chunks_in : ℕ → ℕ → Bytes → List Bytes
chunks_in zero size bytes = []
chunks_in (suc rounds) size [] = []
chunks_in (suc rounds) size (b ∷ bytes) =
    take size (b ∷ bytes) ∷ chunks_in rounds size (drop size (b ∷ bytes))

unfoldable pub chunks : ℕ → Bytes → List Bytes
unfolding chunks_in
chunks size bytes = chunks_in (length bytes) size bytes

abbrev pub concat : List Bytes → Bytes
concat [] = []
concat (c ∷ cs) = c ++ concat cs

-- A chunk is not empty and no longer than the size.
abbrev pub IsChunk : ℕ → Bytes → Type 0
IsChunk size c = (1 ≤ length c) × (length c ≤ size)

take-drop : (n : ℕ) (xs : Bytes) → take n xs ++ drop n xs ≡ xs
take-drop zero xs = refl
take-drop (suc n) [] = refl
take-drop (suc n) (x ∷ xs) = ap (λ r. x ∷ r) (take-drop n xs)

length-drop : (n : ℕ) (xs : Bytes) → length (drop n xs) ≤ length xs
length-drop zero xs = omega arith
length-drop (suc n) [] = omega arith
length-drop (suc n) (x ∷ xs) = omega (arith, length-drop n xs)

chunks_in-concat :
    (rounds size : ℕ) (bytes : Bytes)
    → 1 ≤ size
    → length bytes ≤ rounds
    → concat (chunks_in rounds size bytes) ≡ bytes
unfolding chunks_in
chunks_in-concat zero size [] h k = refl
chunks_in-concat zero size (b ∷ bytes) h k = absurd (omega arith)
chunks_in-concat (suc rounds) size [] h k = refl
chunks_in-concat (suc rounds) zero (b ∷ bytes) h k = absurd (omega arith)
chunks_in-concat (suc rounds) (suc n) (b ∷ bytes) h k =
    ap (λ r. take (suc n) (b ∷ bytes) ++ r)
      (chunks_in-concat rounds (suc n) (drop n bytes) h (omega (arith, length-drop n bytes)))
    ∙ take-drop (suc n) (b ∷ bytes)

chunks_in-All :
    (rounds size : ℕ) (bytes : Bytes) → 1 ≤ size → All (IsChunk size) (chunks_in rounds size bytes)
unfolding chunks_in
chunks_in-All zero size bytes h = tt
chunks_in-All (suc rounds) size [] h = tt
chunks_in-All (suc rounds) zero (b ∷ bytes) h = absurd (omega arith)
chunks_in-All (suc rounds) (suc n) (b ∷ bytes) h =
    ((omega arith, length-take (suc n) (b ∷ bytes)), chunks_in-All rounds (suc n) (drop n bytes) h)

-- The loop comes to an end with the whole file read: its chunks, none of them empty or longer than
-- the size, are together the file.
pub chunks-concat :
    (size : ℕ) (bytes : Bytes)
    → 1 ≤ size
    → (concat (chunks size bytes) ≡ bytes) × All (IsChunk size) (chunks size bytes)
unfolding chunks
chunks-concat size bytes h = (
  chunks_in-concat (length bytes) size bytes h (omega arith),
  chunks_in-All (length bytes) size bytes h,
)
