-- ===== src/Request/Waiting.antt =====
-- How long the loop of src/request.rs that reads a head waits for it.
use socket_flow.Prelude.{
  ℕ, zero, suc, ◌+◌, ◌≤◌, ◌≡◌, refl, inl, inr, List, [], ◌∷◌, ◌++◌, ◌==◌, Bool-cases, Option-cases,
  arith,
}
use socket_flow.Error.{Outcome, ok, err, panic, hang, waits, timeout}
use socket_flow.Source.{Arrival, byte, tick}
use socket_flow.Text.{Text, codes}
use socket_flow.Text.Pieces.{ends_with}
use socket_flow.Request.{read_head, add_line}

-- The seconds that pass while something arrives.
abbrev pub ticks : List Arrival → ℕ
ticks [] = 0
ticks (byte b ∷ src) = ticks src
ticks (tick ∷ src) = suc (ticks src)

-- A head was got within `spare` seconds, or it was given up when one more was over.
abbrev pub Waited : ℕ → List Arrival → Outcome Text × List Arrival → Type 0
Waited spare src (ok head, rest) = ticks src ≤ spare + ticks rest
Waited spare src (err e, rest) = (e ≡ timeout) × (ticks src ≡ suc spare + ticks rest)
Waited spare src (panic, rest) = ⊥
Waited spare src (hang, rest) = ⊥
Waited spare src (waits, rest) = ⊥

Waited-suc :
    (spare : ℕ) (src : List Arrival) (result : Outcome Text × List Arrival)
    → Waited spare src result
    → Waited (suc spare) (tick ∷ src) result
Waited-suc spare src (ok head, rest) h = omega arith
Waited-suc spare src (err e, rest) h = (h.0, omega arith)
Waited-suc spare src (panic, rest) h = h
Waited-suc spare src (hang, rest) h = h
Waited-suc spare src (waits, rest) h = h

module _ (spare b : ℕ) (src : List Arrival)
    (go_on : (line : List ℕ) (buffer : Text)
      → Waited spare src (read_head spare line buffer src)) where
  Waited-byte :
      (line : List ℕ) (buffer : Text)
      → Waited spare src (read_head spare line buffer (byte b ∷ src))
  unfolding read_head
  Waited-byte line buffer = elim (Bool-cases (b == 10)) [
    | inl feed ↦ elim (Option-cases (add_line buffer (line ++ (b ∷ [])))) [
      | inl broken ↦ rw (read_head, feed, broken) (omega arith)
      | inr (longer, added) ↦ elim (Bool-cases (ends_with longer (codes "\r\n\r\n"))) [
        | inl ends ↦ rw (read_head, feed, added, ends) (omega arith)
        | inr more ↦ rw (read_head, feed, added, more) (go_on [] longer)
      ]
    ]
    | inr other ↦ rw (read_head, other) (go_on (line ++ (b ∷ [])) buffer)
  ]

-- The loop comes back, whatever arrives: with a head, or a part of one, if no more than the spare
-- seconds passed before its end, and with the timeout exactly when one more had passed.
pub read_head-Waited :
    (spare : ℕ) (line : List ℕ) (buffer : Text) (src : List Arrival)
    → Waited spare src (read_head spare line buffer src)
unfolding read_head
read_head-Waited spare line buffer [] = omega arith
read_head-Waited spare line buffer (byte b ∷ src) =
    Waited-byte spare b src (λ l t. read_head-Waited spare l t src) line buffer
read_head-Waited zero line buffer (tick ∷ src) = (refl, omega arith)
read_head-Waited (suc spare) line buffer (tick ∷ src) =
    Waited-suc spare src _ (read_head-Waited spare line buffer src)
