-- ===== src/Flate/Stored.antt =====
-- A library that meets the interface and its laws: it copies, as much as the room takes.
use socket_flow.Prelude.{
  ℕ, zero, suc, ◌+◌, ◌≡◌, refl, sym, ap, List, [], ◌∷◌, length, take, drop, length-take,
  length-drop, take-append-drop, arith,
}
use socket_flow.Flate.{Status, Step, done, corrupt, Inflate, InflateLaws}

abbrev copy : ℕ → List ℕ → ℕ → Step ℕ
copy s input space = done (s + length (take space input)) (take space input) Status.ok

abbrev pub stored : Inflate
stored = record {
  State = ℕ;
  new = λ bits. 0;
  reset = λ s. 0;
  total_in = λ s. s;
  decompress_vec = copy;
}

abbrev state_of : Step ℕ → ℕ
state_of (done t out status) = t
state_of (corrupt t) = t

abbrev output_of : Step ℕ → List ℕ
output_of (done t out status) = out
output_of (corrupt t) = []

pub take-length : (n : ℕ) (xs : List ℕ) → drop (length (take n xs)) xs ≡ drop n xs
take-length zero xs = refl
take-length (suc n) [] = refl
take-length (suc n) (x ∷ xs) = take-length n xs

abbrev pub stored_laws : InflateLaws stored
stored_laws = record {
  expand = λ s input. input;
  work = λ s input. length input;
  taken = λ s t input out space e.
      let moved = ap state_of e in omega (arith, length-take {0} space input);
  falls = λ s t input out space k e h room some.
      let moved = ap state_of e in
      omega (arith, length-take {0} space input, length-drop {0} k input);
  yields = λ s t input out space k e h.
      let moved : k ≡ length (take space input) = omega (arith, ap state_of e) in
      rw (moved, take-length space input, ← (ap output_of e)) (sym (take-append-drop space input));
  gets_on = λ s t input out space room some e. cc;
}
