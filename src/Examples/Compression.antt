-- ===== src/Examples/Compression.antt =====
-- The properties of compression at concrete inputs.
use socket_flow.Prelude.{
  take, leb, take_all, Bool-cases, ℕ, zero, suc, ◌-◌, ◌≤◌, ◌<◌, ◌≡◌, ◌≢◌, refl, sym, ap, ◌∙◌, Bool,
  true, false, List, [], ◌∷◌, ◌++◌, append_assoc, ◌⊎◌, inl, inr, length, drop, length-take,
  length-drop, take-append-drop, drop_all, arith,
}
use socket_flow.Error.{ok}
use socket_flow.Flate.{Status, Step, done, corrupt}
use socket_flow.Flate.Copying.{copying, copy_out}
use socket_flow.Encoder.{Encoder, ends_with_trailer}
use socket_flow.Encoder.Flushing.{ends_with_trailer-append}
use socket_flow.Encoder.Calls.{Calls, no_more, call, trailer}
use socket_flow.Encoder.Ending.{DeflateProgress}

abbrev State : Type 0
State = ℕ × List ℕ

abbrev state_of : Step State → State
state_of (done t out status) = t
state_of (corrupt t) = t

abbrev output_of : Step State → List ℕ
output_of (done t out status) = out
output_of (corrupt t) = []

abbrev status_of : Step State → Status
status_of (done t out status) = status
status_of (corrupt t) = Status.ok

abbrev is_corrupt : Step State → Bool
is_corrupt (done t out status) = false
is_corrupt (corrupt t) = true

copying_sound : (s t : State) (input : List ℕ) (space : ℕ) → copy_out s input space ≢ corrupt t
copying_sound s t [] space e = let e' = ap is_corrupt e in absurd (cc)
copying_sound s t (b ∷ bs) zero e = let e' = ap is_corrupt e in absurd (cc)
copying_sound s t (b ∷ bs) (suc space) e = let e' = ap is_corrupt e in absurd (cc)

copying_fits :
    (s t : State) (input out : List ℕ) (space : ℕ) (status : Status)
    → copy_out s input space ≡ done t out status
    → length out ≤ space
copying_fits s t [] out space status e =
    let e' = ap (λ x. length (output_of x)) e in omega (arith, e', length-take {0} space s.1)
copying_fits s t (b ∷ bs) out zero status e =
    let e' = ap (λ x. length (output_of x)) e in omega arith
copying_fits s t (b ∷ bs) out (suc space) status e =
    let e' = ap (λ x. length (output_of x)) e in
    omega (arith, e', length-take {0} (suc space) (b ∷ bs))

copying_falls :
    (s t : State) (input out : List ℕ) (space : ℕ) (status : Status)
    → copy_out s input space ≡ done t out status
    → 0 < space
    → 0 < length input
    → length (drop (t.0 - s.0) input) < length input
copying_falls s t [] out space status e room some_input = absurd (omega arith)
copying_falls s t (b ∷ bs) out zero status e room some_input = absurd (omega arith)
copying_falls s t (b ∷ bs) out (suc space) status e room some_input =
    let e' = ap (λ x. (state_of x).0) e in
    omega (arith, e', length-take {0} (suc space) (b ∷ bs), length-drop {0} (t.0 - s.0) (b ∷ bs))

copying_no_room :
    (s t : State) (input out : List ℕ) (status : Status)
    → copy_out s input 0 ≡ done t out status
    → 0 < length input
    → (status ≡ Status.buf_error) × (t ≡ s)
copying_no_room s t [] out status e some_input = absurd (omega arith)
copying_no_room s t (b ∷ bs) out status e some_input = (sym (ap status_of e), sym (ap state_of e))

drop_nothing : (n : ℕ) (xs : List ℕ) → xs ≡ [] → drop n xs ≡ []
drop_nothing n xs h = rw h (drop_all {0} n [] (omega arith))

-- What is put out without input is what was pending.
flushed :
    (s stop : State) (input out : List ℕ)
    → input ≡ []
    → Calls copying s input out stop
    → out ++ stop.1 ≡ s.1
flushed s stop input out none_left (no_more s') = refl
flushed s stop input out none_left (call s' t u input' chunk out' space status e rest) =
    let e' : copy_out s [] space ≡ done t chunk status =
      ap (λ i. copy_out s i space) (sym none_left) ∙ e in
    append_assoc chunk out' stop.1
    ∙ ap (λ r. chunk ++ r) (flushed t stop _ out' (drop_nothing (t.0 - s.0) input' none_left) rest)
    ∙ sym (ap (λ x. output_of x ++ (state_of x).1) e')
    ∙ take-append-drop space s.1

empty_or_not : (xs : List ℕ) → (xs ≡ []) ⊎ (0 < length xs)
empty_or_not [] = inl refl
empty_or_not (x ∷ xs) = inr (omega arith)

not_taken :
    (s t : State) (b : ℕ) (bs chunk : List ℕ) (status : Status)
    → copy_out s (b ∷ bs) zero ≡ done t chunk status
    → drop (t.0 - s.0) (b ∷ bs) ≢ []
not_taken s t b bs chunk status e none_left =
    let e' = ap (λ x. (state_of x).0) e in
    let l = ap (λ r. length r) none_left in
    absurd (omega (arith, e', l, length-drop {0} (t.0 - s.0) (b ∷ bs)))

copying_marker :
    (s stop : State) (input out : List ℕ)
    → 0 < length input
    → Calls copying s input out stop
    → (front : List ℕ) × (out ++ stop.1 ≡ front ++ trailer)
unfolding trailer
copying_marker s stop input out some_input (no_more s') = absurd (omega arith)
copying_marker s stop input out some_input (call s' t u [] chunk out' space status e rest) =
    absurd (omega arith)
copying_marker s stop input out some_input (call s' t u (b ∷ bs) chunk out' space status e rest) =
    elim (empty_or_not (drop (t.0 - s.0) (b ∷ bs))) [
      | inl over ↦ (
        chunk,
        append_assoc chunk out' stop.1
            ∙ ap (λ r. chunk ++ r) (flushed t stop _ out' over rest ∙ marked space e over),
      )
      | inr more ↦
          let (front, ends) = copying_marker t stop _ out' more rest in
          (
            chunk ++ front,
            append_assoc chunk out' stop.1
                ∙ ap (λ r. chunk ++ r) ends
                ∙ sym (append_assoc chunk front trailer),
          )
    ]
  where
    marked :
        (space : ℕ)
        → copy_out s (b ∷ bs) space ≡ done t chunk status
        → drop (t.0 - s.0) (b ∷ bs) ≡ []
        → t.1 ≡ trailer
    marked zero e over = absurd (not_taken s t b bs chunk status e over)
    marked (suc n) e over = sym (ap (λ x. (state_of x).1) e)

copying_settles :
    (s mid t : State) (input out chunk : List ℕ) (space : ℕ) (status : Status)
    → 0 < length input
    → Calls copying s input out mid
    → copy_out mid [] space ≡ done t chunk status
    → 5 ≤ space
    → (ends_with_trailer (out ++ chunk) ≡ true) ⊎ (length t.1 < length mid.1)
copying_settles s mid t input out chunk space status some_input ran e room =
    let gone : take space mid.1 ≡ chunk = ap output_of e in
    let left : drop space mid.1 ≡ t.1 = ap (λ x. (state_of x).1) e in
    elim (Bool-cases (leb (length mid.1) space)) [
      | inl fits ↦
          let whole = take_all space mid.1 (ground (arith, fits)) in
          let (front, marked) = copying_marker s mid input out some_input ran in
          inl (
            ap (λ r. ends_with_trailer (out ++ r)) (sym gone ∙ whole)
            ∙ ap ends_with_trailer marked
            ∙ ends_with_trailer-append front)
      | inr more ↦ inr (
          let shorter = ap (λ r. length r) left in
          ground (arith, more, shorter, length-drop {0} space mid.1))
    ]

copying_progress : DeflateProgress copying
copying_progress = record {
  work = λ s input. length input;
  flushes = λ s. length s.1;
  sound = copying_sound;
  fits = copying_fits;
  falls = copying_falls;
  no_room = copying_no_room;
  settles = copying_settles;
}

abbrev resetting : Encoder State
resetting = record { compressor = (4, []); reset_context = true }
