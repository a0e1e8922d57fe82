-- ===== src/Decoder/Loop.antt =====
-- The end of the decompression loop of src/decoder.rs, and what it has put out by then.
use socket_flow.Prelude.{
  subst, sym, ℕ, zero, suc, ◌+◌, ◌-◌, ◌≤◌, ◌<◌, ◌≡◌, ◌≢◌, refl, ap, ◌∙◌, true, false, List, [],
  ◌++◌, append_assoc, inl, inr, Bool-cases, ltb, ltb→lt, length, drop, drop-drop, drop_all,
  length-drop, arith,
}
use native.Mathlib.Nat.{sub-zero}
use socket_flow.Error.{Outcome, ok, hang}
use socket_flow.Flate.{Status, Step, done, corrupt, Inflate, InflateLaws}
use socket_flow.Decoder.{
  Decoder, inflate_loop, decompress, loop_start, deflate_trailer, after_call, calculate_buffer_size,
}

module _ (fl : Inflate) (laws : InflateLaws fl) (capacity before : ℕ) (payload : List ℕ) where
  abbrev left : fl.State → List ℕ
  left s = drop (fl.total_in s - before) payload

  abbrev InRange : fl.State → Type 0
  InRange s = (before ≤ fl.total_in s) × (fl.total_in s ≤ before + length payload)

  -- One call of the library, made where some of the payload is left.
  call_InRange :
      (s t : fl.State) (chunk : List ℕ)
      → InRange s
      → fl.decompress_vec s (left s) capacity ≡ done t chunk Status.ok
      → InRange t
  call_InRange s t chunk h e = omega (
    arith,
    laws.taken s t (left s) chunk capacity e,
    length-drop {0} (fl.total_in s - before) payload,
  )

  left-call :
      (s t : fl.State) (chunk : List ℕ)
      → InRange s
      → fl.decompress_vec s (left s) capacity ≡ done t chunk Status.ok
      → drop (fl.total_in t - fl.total_in s) (left s) ≡ left t
  left-call s t chunk h e =
      let range = laws.taken s t (left s) chunk capacity e in
      drop-drop (fl.total_in t - fl.total_in s) (fl.total_in s - before) payload
      ∙ ap (λ k. drop k payload) (omega arith)

  call_falls :
      (s t : fl.State) (chunk : List ℕ)
      → 0 < capacity
      → InRange s
      → 0 < length (left s)
      → fl.decompress_vec s (left s) capacity ≡ done t chunk Status.ok
      → laws.work t (left t) < laws.work s (left s)
  call_falls s t chunk room h some_left e =
      let range = laws.taken s t (left s) chunk capacity e in
      rw (left-call s t chunk h e) at (
        laws.falls s t (left s) chunk capacity (fl.total_in t - fl.total_in s) e (omega arith) room
          some_left)

  module _ (fuel : ℕ) (room : 0 < capacity) where
    abbrev Ends : List ℕ → fl.State → Type 0
    Ends out s = (inflate_loop fl fuel capacity before payload [] out s).0 ≢ hang

    after_call-Ends :
        (out : List ℕ) (s : fl.State) (step : Step fl.State)
        → InRange s
        → laws.work s (left s) < suc fuel
        → 0 < length (left s)
        → fl.decompress_vec s (left s) capacity ≡ step
        → ((out' : List ℕ) (t : fl.State) → InRange t → laws.work t (left t) < fuel → Ends out' t)
        → (after_call (inflate_loop fl fuel capacity before payload) [] out step).0 ≢ hang
    unfolding after_call
    after_call-Ends out s (corrupt t) h w l e ih = λ p. cc
    after_call-Ends out s (done t chunk Status.ok) h w l e ih =
        ih (out ++ chunk) t (call_InRange s t chunk h e)
          (omega (arith, call_falls s t chunk room h l e))
    after_call-Ends out s (done t chunk Status.stream_end) h w l e ih = λ p. cc
    after_call-Ends out s (done t chunk Status.buf_error) h w l e ih =
        absurd (laws.gets_on s t (left s) chunk capacity room l e)

  some_left :
      (s : fl.State) → ltb (fl.total_in s - before) (length payload) ≡ true → 0 < length (left s)
  some_left s more = omega (
    arith,
    ltb→lt (fl.total_in s - before) (length payload) more,
    length-drop {0} (fl.total_in s - before) payload,
  )

  inflate_loop_ends :
      (fuel : ℕ) (out : List ℕ) (s : fl.State)
      → 0 < capacity
      → InRange s
      → laws.work s (left s) < fuel
      → (inflate_loop fl fuel capacity before payload [] out s).0 ≢ hang
  unfolding inflate_loop
  inflate_loop_ends zero out s room h w = absurd (omega arith)
  inflate_loop_ends (suc fuel) out s room h w =
      elim (Bool-cases (ltb (fl.total_in s - before) (length payload))) [
        | inl more ↦
            rw (more, sub-zero capacity)
              (after_call-Ends fuel room out s (fl.decompress_vec s (left s) capacity) h w
                (some_left s more) refl (λ out' t h' w'. inflate_loop_ends fuel out' t room h' w'))
        | inr over ↦ rw over (λ p. cc)
      ]

  -- Where a run of the loop ended: all of the payload was taken, and what has been put out, with
  -- what the library has not put out yet, is all that is due; or a call ended the stream, and what
  -- that call put out itself is lost.
  pub data Kept (due : List ℕ) : List ℕ → fl.State → Type 0 where
    all_taken : (r : List ℕ) (t : fl.State) → r ++ laws.expand t [] ≡ due → Kept due r t
    stream_ended :
        (r chunk : List ℕ) (s t : fl.State)
        → r ++ laws.expand s (left s) ≡ due
        → fl.decompress_vec s (left s) capacity ≡ done t chunk Status.stream_end
        → Kept due r t

  abbrev Keeps : List ℕ → fl.State → Outcome (List ℕ) × fl.State → Type 0
  Keeps out s end = (r : List ℕ) → end.0 ≡ ok r → Kept (out ++ laws.expand s (left s)) r end.1

  call_yields :
      (out : List ℕ) (s t : fl.State) (chunk : List ℕ)
      → InRange s
      → fl.decompress_vec s (left s) capacity ≡ done t chunk Status.ok
      → (out ++ chunk) ++ laws.expand t (left t) ≡ out ++ laws.expand s (left s)
  call_yields out s t chunk h e =
      let range = laws.taken s t (left s) chunk capacity e in
      let due =
        laws.yields s t (left s) chunk capacity (fl.total_in t - fl.total_in s) e (omega arith) in
      rw (append_assoc, due, left-call s t chunk h e)

  returned : {out r : List ℕ} → ok out ≡ ok r → out ≡ r
  returned e = cc

  after_call-Keeps :
      (fuel : ℕ) (out : List ℕ) (s : fl.State) (step : Step fl.State)
      → 0 < capacity
      → InRange s
      → 0 < length (left s)
      → fl.decompress_vec s (left s) capacity ≡ step
      → ((out' : List ℕ) (t : fl.State)
          → InRange t
          → Keeps out' t (inflate_loop fl fuel capacity before payload [] out' t))
      → Keeps out s (after_call (inflate_loop fl fuel capacity before payload) [] out step)
  unfolding after_call
  after_call-Keeps fuel out s (corrupt t) room h l e ih = λ r p. absurd (cc)
  after_call-Keeps fuel out s (done t chunk Status.ok) room h l e ih = λ r p.
      subst (λ due. Kept due r (inflate_loop fl fuel capacity before payload [] (out ++ chunk) t).1)
        (call_yields out s t chunk h e) (ih (out ++ chunk) t (call_InRange s t chunk h e) r p)
  after_call-Keeps fuel out s (done t chunk Status.stream_end) room h l e ih =
      λ r p. stream_ended r chunk s t (ap (λ o. o ++ laws.expand s (left s)) (sym (returned p))) e
  after_call-Keeps fuel out s (done t chunk Status.buf_error) room h l e ih =
      absurd (laws.gets_on s t (left s) chunk capacity room l e)

  taken_all :
      (out : List ℕ) (s : fl.State) (r : List ℕ)
      → ltb (fl.total_in s - before) (length payload) ≡ false
      → ok out ≡ ok r
      → r ++ laws.expand s [] ≡ out ++ laws.expand s (left s)
  taken_all out s r over p = rw (drop_all (fl.total_in s - before) payload (ground arith)) (cc)

  inflate_loop-Keeps :
      (fuel : ℕ) (out : List ℕ) (s : fl.State)
      → 0 < capacity
      → InRange s
      → Keeps out s (inflate_loop fl fuel capacity before payload [] out s)
  unfolding inflate_loop
  inflate_loop-Keeps zero out s room h = λ r p. absurd (cc)
  inflate_loop-Keeps (suc fuel) out s room h =
      elim (Bool-cases (ltb (fl.total_in s - before) (length payload))) [
        | inl more ↦
            rw (more, sub-zero capacity)
              (after_call-Keeps fuel out s (fl.decompress_vec s (left s) capacity) room h
                (some_left s more) refl (λ out' t h'. inflate_loop-Keeps fuel out' t room h'))
        | inr over ↦ rw over (λ r p. all_taken r s (taken_all out s r over p))
      ]

calculate_buffer_size-pos : (n : ℕ) → 0 < calculate_buffer_size n
unfolding calculate_buffer_size
calculate_buffer_size-pos n = ground arith

module _ (fl : Inflate) (laws : InflateLaws fl) (fuel : ℕ) (payload : List ℕ)
    (d : Decoder fl.State) where
  abbrev start_state : fl.State
  start_state = loop_start fl d

  abbrev full : List ℕ
  full = payload ++ deflate_trailer

  start_left : drop (fl.total_in start_state - fl.total_in start_state) full ≡ full
  start_left = let e : fl.total_in start_state - fl.total_in start_state ≡ 0 = omega arith in rw e

  -- With more rounds than the library, which behaves as documented, has work to do on the payload
  -- and its trailer, `decompress` comes back: its loop does not run on.
  pub decompress_ends : laws.work start_state full < fuel → (decompress fl fuel payload d).0 ≢ hang
  unfolding decompress
  decompress_ends enough =
      inflate_loop_ends fl laws (calculate_buffer_size (length full)) (fl.total_in start_state) full
        fuel [] start_state (calculate_buffer_size-pos _) (omega arith) (rw start_left enough)

  -- Where the library behaves as documented: if `decompress` returns, then either it has taken all
  -- of the payload and its trailer, and what it returns and what the library still holds make up
  -- all that these expand to, in the context that the decoder starts from; or a call has ended the
  -- deflate stream, and what it returns is what was put out before that call, without the output of
  -- the call itself.
  pub decompress_keeps :
      (r : List ℕ)
      → (decompress fl fuel payload d).0 ≡ ok r
      → Kept fl laws
          (calculate_buffer_size (length full))
          (fl.total_in start_state)
          full
          (laws.expand start_state full)
          r
          (decompress fl fuel payload d).1.decompressor
  unfolding decompress
  decompress_keeps r h =
      subst
        (λ input.
          Kept fl laws (calculate_buffer_size (length full)) (fl.total_in start_state) full
            (laws.expand start_state input) r (decompress fl fuel payload d).1.decompressor)
        start_left
        (inflate_loop-Keeps fl laws (calculate_buffer_size (length full)) (fl.total_in start_state)
          full fuel [] start_state (calculate_buffer_size-pos _) (omega arith) r h)
