-- ===== src/Encoder/Flushing.antt =====
-- The end of the loop of `compress` in src/encoder.rs that waits for the marker.
use socket_flow.Prelude.{
  ◌≤◌, subst, drop_all, ℕ, zero, suc, ◌-◌, ◌<◌, ◌≡◌, refl, true, false, List, [], ◌∷◌, ◌++◌,
  append-nil, append_assoc, inl, inr, Bool-cases, ltb, length, drop, length-append, arith,
}
use socket_flow.Error.{ok}
use socket_flow.Flate.{Status, Step, done, corrupt, Deflate}
use socket_flow.Encoder.{Buffer, reserve, same_bytes, ends_with_trailer, after_flush, flush_loop}
use socket_flow.Encoder.Calls.{Calls, no_more, call, DeflateLaws, trailer, reserve_held}
use socket_flow.Encoder.Ending.{DeflateProgress, IsBuffer, reserve-IsBuffer, grown-IsBuffer}

drop_exactly : (xs ys : List ℕ) → drop (length xs) (xs ++ ys) ≡ ys
drop_exactly [] ys = refl
drop_exactly (x ∷ xs) ys = drop_exactly xs ys

-- Bytes with the marker behind them end in it.
pub ends_with_trailer-append : (xs : List ℕ) → ends_with_trailer (xs ++ trailer) ≡ true
unfolding ends_with_trailer same_bytes trailer
ends_with_trailer-append xs =
    let four = length-append {0} xs (0 ∷ 0 ∷ 0xFF ∷ 0xFF ∷ []) in
    let long : ltb (length (xs ++ trailer)) 4 ≡ false = ground (arith, four) in
    let last_four : length (xs ++ trailer) - 4 ≡ length xs = omega (arith, four) in
    rw (long, last_four, drop_exactly xs trailer) refl

-- The buffer has room for a flush.
reserve_room : (b : Buffer) → IsBuffer b → 5 ≤ (reserve 5 b).capacity - length (reserve 5 b).held
unfolding reserve
reserve_room b h = ground arith

pub Calls-append :
    (fl : Deflate) (s mid t : fl.State) (input out more : List ℕ)
    → Calls fl s input out mid
    → Calls fl mid [] more t
    → Calls fl s input (out ++ more) t
Calls-append fl s mid t input out more (no_more s') after = after
Calls-append fl s mid t input out more (call s' u v input' chunk out' space status e rest) after =
    rw (append_assoc chunk out' more) (
      call s' u t input' chunk (out' ++ more) space status e
        (Calls-append fl u mid t _ out' more rest after))

one_call :
    (fl : Deflate) (s t : fl.State) (chunk : List ℕ) (space : ℕ) (status : Status)
    → fl.compress_vec s [] space ≡ done t chunk status
    → Calls fl s [] chunk t
one_call fl s t chunk space status e =
    let none_left : drop {A = ℕ} (fl.total_in t - fl.total_in s) [] ≡ [] =
      drop_all {0} (fl.total_in t - fl.total_in s) [] (omega arith) in
    subst (λ out. Calls fl s [] out t) (append-nil chunk)
      (call s t t [] chunk [] space status e (rw none_left (no_more t)))

module _ (fl : Deflate) (laws : DeflateLaws fl) (progress : DeflateProgress fl) (s0 : fl.State)
    (input : List ℕ) (some_input : 0 < length input) where
  -- How the loop ends from a buffer and a state.
  abbrev FlushEnds : ℕ → Buffer → fl.State → Type 0
  FlushEnds fuel b s = (b' : Buffer) × ((flush_loop fl fuel b s).0 ≡ ok b')

  -- The marker is there: the loop ends in its next round.
  over_now :
      (fuel : ℕ) (b : Buffer) (s : fl.State)
      → 0 < fuel
      → ends_with_trailer b.held ≡ true
      → FlushEnds fuel b s
  unfolding flush_loop
  over_now zero b s h over = absurd (omega arith)
  over_now (suc fuel) b s h over = rw over (b, refl)

  -- What the loop does after a call that went well or had nothing to do.
  go_on :
      (fuel : ℕ) (b : Buffer) (s t : fl.State) (chunk : List ℕ) (status : Status)
      → 0 < fuel
      → IsBuffer b
      → 5 ≤ b.capacity - length b.held
      → Calls fl s0 input b.held s
      → fl.compress_vec s [] (b.capacity - length b.held) ≡ done t chunk status
      → ((b' : Buffer) (t : fl.State)
          → IsBuffer b'
          → Calls fl s0 input b'.held t
          → progress.flushes t < progress.flushes s
          → FlushEnds fuel b' t)
      → FlushEnds fuel (record b { held = b.held ++ chunk }) t
  go_on fuel b s t chunk status some ib room ran e ih =
      elim (progress.settles s0 s t input b.held chunk _ status some_input ran e room) [
        | inl over ↦ over_now fuel (record b { held = b.held ++ chunk }) t some over
        | inr fewer ↦
            ih (record b { held = b.held ++ chunk }) t
              (grown-IsBuffer fl laws progress 0 [] b chunk ib
                (progress.fits s t _ chunk _ status e))
              (Calls-append fl s0 s t input b.held chunk ran (one_call fl s t chunk _ status e))
              fewer
      ]

  after_flush_ends :
      (fuel : ℕ) (b : Buffer) (s : fl.State) (step : Step fl.State)
      → 0 < fuel
      → IsBuffer b
      → 5 ≤ b.capacity - length b.held
      → Calls fl s0 input b.held s
      → fl.compress_vec s [] (b.capacity - length b.held) ≡ step
      → ((b' : Buffer) (t : fl.State)
          → IsBuffer b'
          → Calls fl s0 input b'.held t
          → progress.flushes t < progress.flushes s
          → FlushEnds fuel b' t)
      → (b' : Buffer) × ((after_flush (flush_loop fl fuel) b step).0 ≡ ok b')
  unfolding after_flush
  after_flush_ends fuel b s (corrupt t) some ib room ran e ih = absurd (progress.sound s t _ _ e)
  after_flush_ends fuel b s (done t chunk Status.stream_end) some ib room ran e ih =
      absurd (laws.endless s t _ chunk _ e)
  after_flush_ends fuel b s (done t chunk Status.ok) some ib room ran e ih =
      go_on fuel b s t chunk Status.ok some ib room ran e ih
  after_flush_ends fuel b s (done t chunk Status.buf_error) some ib room ran e ih =
      go_on fuel b s t chunk Status.buf_error some ib room ran e ih

  -- The second loop has a round for each call that a flush may take, and two more.
  pub flush_loop_ends :
      (fuel : ℕ) (b : Buffer) (s : fl.State)
      → IsBuffer b
      → Calls fl s0 input b.held s
      → suc (progress.flushes s) < fuel
      → FlushEnds fuel b s
  unfolding flush_loop
  flush_loop_ends zero b s ib ran en = absurd (omega arith)
  flush_loop_ends (suc fuel) b s ib ran en = elim (Bool-cases (ends_with_trailer b.held)) [
    | inl over ↦ rw over (b, refl)
    | inr more ↦ rw more (
        after_flush_ends fuel (reserve 5 b) s _ (omega arith) (reserve-IsBuffer 5 b ib)
          (reserve_room b ib) (rw (reserve_held 5 b) ran) refl
          (λ b' t ib' ran' fewer. flush_loop_ends fuel b' t ib' ran' (omega (arith, fewer))))
  ]
