-- ===== src/Chunks.antt =====
-- `slice::chunks` of Rust's standard library for a size that is not zero (a call with zero
-- panics, which is written out where the program makes one), and what it guarantees.
use socket_flow.Prelude.{
  ℕ, zero, suc, ◌≤◌, ◌<◌, ◌≡◌, refl, ap, ◌∙◌, List, [], ◌∷◌, ◌++◌, length, take, drop,
  take-append-drop, length-take, length-drop, All, arith,
}

split_chunks : ℕ → ℕ → List ℕ → List (List ℕ)
split_chunks zero size xs = []
split_chunks (suc fuel) size [] = []
split_chunks (suc fuel) size (x ∷ xs) =
    take size (x ∷ xs) ∷ split_chunks fuel size (drop size (x ∷ xs))

-- Each chunk but the last takes at least one byte, so the length is fuel enough.
unfoldable pub chunks : ℕ → List ℕ → List (List ℕ)
unfolding split_chunks
chunks size xs = split_chunks (length xs) size xs

abbrev pub concat : List (List ℕ) → List ℕ
concat [] = []
concat (c ∷ cs) = c ++ concat cs

concat-split_chunks :
    (fuel size : ℕ) (xs : List ℕ)
    → length xs ≤ fuel
    → 0 < size
    → concat (split_chunks fuel size xs) ≡ xs
unfolding split_chunks
concat-split_chunks zero size [] h p = refl
concat-split_chunks zero size (x ∷ xs) h p = absurd (omega arith)
concat-split_chunks (suc fuel) size [] h p = refl
concat-split_chunks (suc fuel) size (x ∷ xs) h p =
    ap (λ r. take size (x ∷ xs) ++ r)
      (concat-split_chunks fuel size (drop size (x ∷ xs))
        (omega (arith, length-drop {0} size (x ∷ xs))) p)
    ∙ take-append-drop size (x ∷ xs)

-- The chunks in a row are the slice.
pub concat-chunks : (size : ℕ) (xs : List ℕ) → 0 < size → concat (chunks size xs) ≡ xs
unfolding chunks
concat-chunks size xs p = concat-split_chunks (length xs) size xs (omega arith) p

-- A chunk has at least one byte, and at most the size.
abbrev pub IsChunk : ℕ → List ℕ → Type 0
IsChunk size c = (0 < length c) × (length c ≤ size)

split_chunks-IsChunk :
    (fuel size : ℕ) (xs : List ℕ) → 0 < size → All (IsChunk size) (split_chunks fuel size xs)
unfolding split_chunks
split_chunks-IsChunk zero size xs p = tt
split_chunks-IsChunk (suc fuel) size [] p = tt
split_chunks-IsChunk (suc fuel) size (x ∷ xs) p = (
  (omega (arith, length-take {0} size (x ∷ xs)), omega (arith, length-take {0} size (x ∷ xs))),
  split_chunks-IsChunk fuel size (drop size (x ∷ xs)) p,
)

pub chunks-IsChunk : (size : ℕ) (xs : List ℕ) → 0 < size → All (IsChunk size) (chunks size xs)
unfolding chunks
chunks-IsChunk size xs p = split_chunks-IsChunk (length xs) size xs p
