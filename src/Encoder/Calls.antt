-- ===== src/Encoder/Calls.antt =====
-- The loops of src/encoder.rs as calls of the compression library.
use socket_flow.Prelude.{
  ℕ, zero, suc, ◌+◌, ◌-◌, ◌*◌, ◌/◌, ◌≤◌, ◌≡◌, ◌≢◌, refl, sym, ap, ap₂, subst, ◌∙◌, true, false,
  List, [], ◌∷◌, ◌++◌, append-nil, append_assoc, inl, inr, Bool-cases, ltb, ==_iff, length, take,
  drop, take-append-drop, drop-drop, drop_all, arith,
}
use socket_flow.Error.{Outcome, ok}
use socket_flow.Flate.{Status, Step, done, corrupt, Deflate}
use socket_flow.Encoder.{
  Buffer, reserve, same_bytes, ends_with_trailer, after_input, after_flush, input_loop, flush_loop,
  cut,
}

-- Calls of the library that take all of an input between them, each with what it left of it, and
-- put out some bytes between them.
pub data Calls (fl : Deflate) : fl.State → List ℕ → List ℕ → fl.State → Type 0 where
  no_more : (s : fl.State) → Calls fl s [] [] s
  call :
      (s t u : fl.State) (input chunk out : List ℕ) (space : ℕ) (status : Status)
      → fl.compress_vec s input space ≡ done t chunk status
      → Calls fl t (drop (fl.total_in t - fl.total_in s) input) out u
      → Calls fl s input (chunk ++ out) u

-- What is relied on of the library: its count of bytes goes up by what it takes of the input, and
-- it ends no stream when it is only asked to flush.
pub record DeflateLaws (fl : Deflate) : Type 0 where
  pub taken :
      (s t : fl.State) (input out : List ℕ) (space : ℕ) (status : Status)
      → fl.compress_vec s input space ≡ done t out status
      → fl.total_in s ≤ fl.total_in t × (fl.total_in t ≤ fl.total_in s + length input)
  pub endless :
      (s t : fl.State) (input out : List ℕ) (space : ℕ)
      → fl.compress_vec s input space ≢ done t out Status.stream_end

unfoldable pub trailer : List ℕ
trailer = 0 ∷ 0 ∷ 0xFF ∷ 0xFF ∷ []

same_bytes_sound : (xs ys : List ℕ) → same_bytes xs ys ≡ true → xs ≡ ys
unfolding same_bytes
same_bytes_sound [] [] h = refl
same_bytes_sound [] (y ∷ ys) h = absurd (cc)
same_bytes_sound (x ∷ xs) [] h = absurd (cc)
same_bytes_sound (x ∷ xs) (y ∷ ys) h =
    ap₂ ◌∷◌ ((==_iff x y).0 (ground (arith, h))) (same_bytes_sound xs ys (ground (arith, h)))

pub cut_lem :
    (fl : Deflate) (b : Buffer)
    → ends_with_trailer b.held ≡ true
    → (r : List ℕ) × (cut fl b ≡ ok r) × (r ++ trailer ≡ b.held)
unfolding cut ends_with_trailer trailer
cut_lem fl b h = elim (Bool-cases (ltb (length b.held) 4)) [
  | inl short ↦ absurd (let h' : false ≡ true = rw short at h in cc)
  | inr long ↦ (
    take (length b.held - 4) b.held,
    rw long refl,
    ap (λ r. take (length b.held - 4) b.held ++ r)
          (sym (
            same_bytes_sound (drop (length b.held - 4) b.held) (0 ∷ 0 ∷ 0xFF ∷ 0xFF ∷ [])
              (rw long at h)))
        ∙ take-append-drop (length b.held - 4) b.held,
  )
]

pub reserve_held : (n : ℕ) (b : Buffer) → (reserve n b).held ≡ b.held
unfolding reserve
reserve_held n b = ground arith

drop_nothing : (n : ℕ) → drop {A = ℕ} n [] ≡ []
drop_nothing zero = refl
drop_nothing (suc n) = refl

ok_inj : {x y : Buffer} → ok x ≡ ok y → x ≡ y
ok_inj e = cc

pub bytes_inj : {xs ys : List ℕ} → ok xs ≡ ok ys → xs ≡ ys
bytes_inj e = cc

module _ (fl : Deflate) (laws : DeflateLaws fl) where
  -- What a loop has added to its buffer, where it came to its end.
  unfoldable pub Added : List ℕ → List ℕ → fl.State → Outcome Buffer × fl.State → Type 0
  Added input held s end =
      (b : Buffer)
      → end.0 ≡ ok b
      → (out : List ℕ) × (b.held ≡ held ++ out) × Calls fl s input out end.1

  module _ (before : ℕ) (payload : List ℕ) where
    abbrev pub left : fl.State → List ℕ
    left s = drop (fl.total_in s - before) payload

    pub left-call :
        (s t : fl.State) (chunk : List ℕ) (space : ℕ) (status : Status)
        → before ≤ fl.total_in s
        → fl.compress_vec s (left s) space ≡ done t chunk status
        → (drop (fl.total_in t - fl.total_in s) (left s) ≡ left t) × (before ≤ fl.total_in t)
    left-call s t chunk space status h e =
        let range = laws.taken s t (left s) chunk space status e in
        (
          drop-drop (fl.total_in t - fl.total_in s) (fl.total_in s - before) payload
              ∙ ap (λ k. drop k payload) (omega (arith, range)),
          omega (arith, range),
        )

    one_call :
        (s t : fl.State) (held chunk : List ℕ) (space : ℕ) (status : Status)
        (end : Outcome Buffer × fl.State)
        → before ≤ fl.total_in s
        → fl.compress_vec s (left s) space ≡ done t chunk status
        → Added (left t) (held ++ chunk) t end
        → Added (left s) held s end
    unfolding Added
    one_call s t held chunk space status end h e a = λ b p.
        let (out, grown, calls) = a b p in
        (
          chunk ++ out,
          grown ∙ append_assoc held chunk out,
          call s t end.1 (left s) chunk out space status e
              (rw (left-call s t chunk space status h e).0 calls),
        )

    after_input-Added :
        (fuel : ℕ) (b : Buffer) (s : fl.State) (space : ℕ) (step : Step fl.State)
        → before ≤ fl.total_in s
        → fl.compress_vec s (left s) space ≡ step
        → ((b' : Buffer) (t : fl.State)
            → before ≤ fl.total_in t
            → Added (left t) b'.held t (input_loop fl fuel before payload b' t))
        → Added (left s) b.held s (after_input (input_loop fl fuel before payload) b step)
    unfolding after_input reserve
    after_input-Added fuel b s space (corrupt t) h e ih = unfold Added in λ b' p. absurd (cc)
    after_input-Added fuel b s space (done t chunk Status.ok) h e ih =
        one_call s t b.held chunk space Status.ok _ h e
          (ih (record b { held = b.held ++ chunk }) t (left-call s t chunk space Status.ok h e).1)
    after_input-Added fuel b s space (done t chunk Status.stream_end) h e ih =
        absurd (laws.endless s t (left s) chunk space e)
    after_input-Added fuel b s space (done t chunk Status.buf_error) h e ih =
        let b' = record b { held = b.held ++ chunk } in
        one_call s t b.held chunk space Status.buf_error _ h e (
          rw (reserve_held (length b'.held * 3 / 2) b') at (
            ih (reserve (length b'.held * 3 / 2) b') t
              (left-call s t chunk space Status.buf_error h e).1))

    all_taken :
        (b : Buffer) (s : fl.State)
        → ltb (fl.total_in s - before) (length payload) ≡ false
        → Added (left s) b.held s (ok b, s)
    unfolding Added
    all_taken b s over = λ b' p. (
      [],
      ap (λ x. x.held) (sym (ok_inj p)) ∙ sym (append-nil b.held),
      rw (drop_all (fl.total_in s - before) payload (ground arith)) (no_more s),
    )

    pub input_loop-Added :
        (fuel : ℕ) (b : Buffer) (s : fl.State)
        → before ≤ fl.total_in s
        → Added (left s) b.held s (input_loop fl fuel before payload b s)
    unfolding input_loop
    input_loop-Added zero b s h = unfold Added in λ b' p. absurd (cc)
    input_loop-Added (suc fuel) b s h =
        elim (Bool-cases (ltb (fl.total_in s - before) (length payload))) [
          | inl more ↦ rw more (
              after_input-Added fuel b s (b.capacity - length b.held) _ h refl
                (λ b' t h'. input_loop-Added fuel b' t h'))
          | inr over ↦ rw over (all_taken b s over)
        ]

  -- The second loop hands the library no input.
  flush_call :
      (s t : fl.State) (held chunk : List ℕ) (space : ℕ) (status : Status)
      (end : Outcome Buffer × fl.State)
      → fl.compress_vec s [] space ≡ done t chunk status
      → Added [] (held ++ chunk) t end
      → Added [] held s end
  unfolding Added
  flush_call s t held chunk space status end e a = λ b p.
      let (out, grown, calls) = a b p in
      (
        chunk ++ out,
        grown ∙ append_assoc held chunk out,
        call s t end.1 [] chunk out space status e
            (rw (drop_nothing (fl.total_in t - fl.total_in s)) calls),
      )

  -- The marker is there when the loop has ended.
  unfoldable pub Flushed : List ℕ → fl.State → Outcome Buffer × fl.State → Type 0
  Flushed held s end =
      Added [] held s end × ((b : Buffer) → end.0 ≡ ok b → ends_with_trailer b.held ≡ true)

  after_flush-Flushed :
      (fuel : ℕ) (b : Buffer) (s : fl.State) (space : ℕ) (step : Step fl.State)
      → fl.compress_vec s [] space ≡ step
      → ((b' : Buffer) (t : fl.State) → Flushed b'.held t (flush_loop fl fuel b' t))
      → Flushed b.held s (after_flush (flush_loop fl fuel) b step)
  unfolding after_flush Flushed
  after_flush-Flushed fuel b s space (corrupt t) e ih =
      (unfold Added in λ b' p. absurd (cc), λ b' p. absurd (cc))
  after_flush-Flushed fuel b s space (done t chunk Status.ok) e ih =
      let next = ih (record b { held = b.held ++ chunk }) t in
      (flush_call s t b.held chunk space Status.ok _ e next.0, next.1)
  after_flush-Flushed fuel b s space (done t chunk Status.stream_end) e ih =
      absurd (laws.endless s t [] chunk space e)
  after_flush-Flushed fuel b s space (done t chunk Status.buf_error) e ih =
      let next = ih (record b { held = b.held ++ chunk }) t in
      (flush_call s t b.held chunk space Status.buf_error _ e next.0, next.1)

  pub flush_loop-Flushed :
      (fuel : ℕ) (b : Buffer) (s : fl.State) → Flushed b.held s (flush_loop fl fuel b s)
  unfolding flush_loop Flushed
  flush_loop-Flushed zero b s = (unfold Added in λ b' p. absurd (cc), λ b' p. absurd (cc))
  flush_loop-Flushed (suc fuel) b s = elim (Bool-cases (ends_with_trailer b.held)) [
    | inl over ↦ rw over (
      unfold Added in
          λ b' p. ([], ap (λ x. x.held) (sym (ok_inj p)) ∙ sym (append-nil b.held), no_more s),
      λ b' p. rw (← (ok_inj p)) over,
    )
    | inr more ↦ rw more (
        subst
          (λ held. Flushed held s (
            after_flush (flush_loop fl fuel) (reserve 5 b)
              (fl.compress_vec s [] ((reserve 5 b).capacity - length (reserve 5 b).held))))
          (reserve_held 5 b)
          (after_flush-Flushed fuel (reserve 5 b) s
            ((reserve 5 b).capacity - length (reserve 5 b).held) _ refl
            (λ b' t. flush_loop-Flushed fuel b' t)))
  ]
