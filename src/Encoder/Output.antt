-- ===== src/Encoder/Output.antt =====
-- What `compress` in src/encoder.rs returns, as calls of the library.
use socket_flow.Prelude.{
  ℕ, ◌-◌, ◌*◌, ◌≡◌, refl, sym, ap, ◌∙◌, List, [], ◌∷◌, ◌++◌, if◌then◌else◌, length, drop, arith,
}
use socket_flow.Error.{Outcome, ok, err, panic, hang, waits}
use socket_flow.Run.{proceed}
use socket_flow.Flate.{Deflate}
use socket_flow.Encoder.{Encoder, Buffer, input_loop, flush_loop, cut, settle, finish, compress}
use socket_flow.Encoder.Calls.{
  Calls, DeflateLaws, trailer, cut_lem, bytes_inj, Added, Flushed, input_loop-Added,
  flush_loop-Flushed,
}
use socket_flow.Encoder.Flushing.{Calls-append}

module _ (fl : Deflate) (laws : DeflateLaws fl) (fuel : ℕ) (x : ℕ) (xs : List ℕ)
    (e : Encoder fl.State) where
  abbrev buffer : Buffer
  buffer = record { held = []; capacity = length (x ∷ xs) * 2 }

  abbrev first : Outcome Buffer × fl.State
  first = input_loop fl fuel (fl.total_in e.compressor) (x ∷ xs) buffer e.compressor

  -- What `compress` returned for a message, as calls of the library.
  pub record Squeezed (r : List ℕ) (end : Encoder fl.State) : Type 0 where
    pub out : List ℕ
    pub stop : fl.State
    pub calls : Calls fl e.compressor (x ∷ xs) out stop
    pub cut_off : r ++ trailer ≡ out
    pub context : end.compressor ≡ (if e.reset_context then fl.reset stop else stop)

  settle_ok :
      (o : Outcome (List ℕ)) (t : fl.State) (r : List ℕ)
      → (settle fl e o t).0 ≡ ok r
      → (o ≡ ok r) × ((settle fl e o t).1.compressor ≡ (if e.reset_context then fl.reset t else t))
  unfolding settle
  settle_ok (ok out) t r h = (h, refl)
  settle_ok (err z) t r h = absurd (cc)
  settle_ok panic t r h = absurd (cc)
  settle_ok hang t r h = absurd (cc)
  settle_ok waits t r h = absurd (cc)

  finish_ok :
      (o : Outcome Buffer) (t : fl.State) (r : List ℕ)
      → (finish fl e (o, t)).0 ≡ ok r
      → (b : Buffer) × (o ≡ ok b)
        × (cut fl b ≡ ok r)
        × ((finish fl e (o, t)).1.compressor ≡ (if e.reset_context then fl.reset t else t))
  unfolding finish settle
  finish_ok (ok b) t r h = let kept = settle_ok (cut fl b) t r h in (b, refl, kept.0, kept.1)
  finish_ok (err z) t r h = absurd (cc)
  finish_ok panic t r h = absurd (cc)
  finish_ok hang t r h = absurd (cc)
  finish_ok waits t r h = absurd (cc)

  proceed_ok :
      (o : Outcome Buffer) (s : fl.State) (b : Buffer)
      → (proceed o (flush_loop fl fuel) s).0 ≡ ok b
      → (a : Buffer) × (o ≡ ok a) × (proceed o (flush_loop fl fuel) s ≡ flush_loop fl fuel a s)
  proceed_ok (ok a) s b h = (a, refl, refl)
  proceed_ok (err z) s b h = absurd (cc)
  proceed_ok panic s b h = absurd (cc)
  proceed_ok hang s b h = absurd (cc)
  proceed_ok waits s b h = absurd (cc)

  pub returned-Squeezed :
      (r : List ℕ)
      → (compress fl fuel (x ∷ xs) e).0 ≡ ok r
      → Squeezed r (compress fl fuel (x ∷ xs) e).1
  unfolding compress Added Flushed
  returned-Squeezed r h =
      let ran = proceed first.0 (flush_loop fl fuel) first.1 in
      let (b, flushed, short, context) = finish_ok ran.0 ran.1 r h in
      let (a, taken, same) = proceed_ok first.0 first.1 b flushed in
      let (out1, held1, calls1) =
        input_loop-Added fl laws (fl.total_in e.compressor) (x ∷ xs) fuel buffer e.compressor
          (omega arith) a taken in
      let (added, marked) = flush_loop-Flushed fl laws fuel a first.1 in
      let marked_ok = ap (λ z. z.0) (sym same) ∙ flushed in
      let (out2, held2, calls2) = added b marked_ok in
      let (r', cut', whole) = cut_lem fl b (marked b marked_ok) in
      let whole_input : drop (fl.total_in e.compressor - fl.total_in e.compressor) (x ∷ xs)
          ≡ x ∷ xs =
        let zero_taken : fl.total_in e.compressor - fl.total_in e.compressor ≡ 0 = omega arith in
        rw zero_taken refl in
      record {
        out = out1 ++ out2;
        stop = (flush_loop fl fuel a first.1).1;
        calls =
            Calls-append fl e.compressor first.1 _ (x ∷ xs) out1 out2 (rw whole_input at calls1)
              calls2;
        cut_off =
            ap (λ q. q ++ trailer) (bytes_inj (sym short ∙ cut'))
            ∙ whole
            ∙ held2
            ∙ ap (λ q. q ++ out2) held1;
        context = context ∙ ap (λ z. if e.reset_context then fl.reset z.1 else z.1) same;
      }
