-- ===== src/Source/Laws.antt =====
-- Reads of bytes that are there, and how much a read takes.
use socket_flow.Prelude.{
  ℕ, zero, suc, ◌+◌, ◌≤◌, ◌<◌, ◌≡◌, refl, ap, List, [], ◌∷◌, ◌++◌, length, arith,
}
use socket_flow.Source.{
  Arrival, byte, tick, bytes, Reading, full, closed, elapsed, push, read_exact, read_exact_within,
}

module _ (rest : List Arrival) where
  pub read_exact-bytes :
      (n : ℕ) (bs : List ℕ) → n ≡ length bs → read_exact n (bytes bs ++ rest) ≡ full bs rest
  unfolding read_exact
  read_exact-bytes zero [] e = refl
  read_exact-bytes zero (b ∷ bs) e = absurd (omega arith)
  read_exact-bytes (suc n) [] e = absurd (omega arith)
  read_exact-bytes (suc n) (b ∷ bs) e = ap (push b) (read_exact-bytes n bs (omega arith))

  pub read_exact_within-bytes :
      (spare n : ℕ) (bs : List ℕ)
      → n ≡ length bs
      → read_exact_within spare n (bytes bs ++ rest) ≡ full bs rest
  unfolding read_exact_within
  read_exact_within-bytes spare zero [] e = refl
  read_exact_within-bytes spare zero (b ∷ bs) e = absurd (omega arith)
  read_exact_within-bytes spare (suc n) [] e = absurd (omega arith)
  read_exact_within-bytes spare (suc n) (b ∷ bs) e =
      ap (push b) (read_exact_within-bytes spare n bs (omega arith))

-- What a read that ended left to read.
abbrev pub AtMost : ℕ → List Arrival → Reading → Type 0
AtMost n src (full bs rest) = (length bs ≡ n) × (length rest + n ≤ length src)
AtMost n src closed = Unit
AtMost n src (elapsed rest) = length rest < length src

push-AtMost :
    (b n : ℕ) (src : List Arrival) (r : Reading)
    → AtMost n src r
    → AtMost (suc n) (byte b ∷ src) (push b r)
push-AtMost b n src (full bs rest) h = omega arith
push-AtMost b n src closed h = tt
push-AtMost b n src (elapsed rest) h = omega arith

later-AtMost : (n : ℕ) (src : List Arrival) (r : Reading) → AtMost n src r → AtMost n (tick ∷ src) r
later-AtMost n src (full bs rest) h = omega arith
later-AtMost n src closed h = tt
later-AtMost n src (elapsed rest) h = omega arith

pub read_exact-AtMost : (n : ℕ) (src : List Arrival) → AtMost n src (read_exact n src)
unfolding read_exact
read_exact-AtMost zero src = omega arith
read_exact-AtMost (suc n) [] = tt
read_exact-AtMost (suc n) (byte b ∷ src) = push-AtMost b n src _ (read_exact-AtMost n src)
read_exact-AtMost (suc n) (tick ∷ src) = later-AtMost (suc n) src _ (read_exact-AtMost (suc n) src)

pub read_exact_within-AtMost :
    (spare n : ℕ) (src : List Arrival) → AtMost n src (read_exact_within spare n src)
unfolding read_exact_within
read_exact_within-AtMost spare zero src = omega arith
read_exact_within-AtMost spare (suc n) [] = tt
read_exact_within-AtMost spare (suc n) (byte b ∷ src) =
    push-AtMost b n src _ (read_exact_within-AtMost spare n src)
read_exact_within-AtMost zero (suc n) (tick ∷ src) = omega arith
read_exact_within-AtMost (suc spare) (suc n) (tick ∷ src) =
    later-AtMost (suc n) src _ (read_exact_within-AtMost spare (suc n) src)
