-- ===== src/Encoder/Ending.antt =====
-- The ends of the loops of `compress` in src/encoder.rs.
use socket_flow.Prelude.{
  true, ◌⊎◌, ℕ, zero, suc, ◌+◌, ◌-◌, ◌*◌, ◌/◌, ◌≤◌, ◌<◌, ◌≡◌, ◌≢◌, refl, List, [], ◌++◌, inl, inr,
  Bool-cases, ltb, ltb→lt, lt→ltb, if◌then◌else◌, length, drop, length-append, length-drop, arith,
}
use socket_flow.Error.{ok}
use socket_flow.Flate.{Status, Step, done, corrupt, Deflate}
use socket_flow.Encoder.{ends_with_trailer, Buffer, reserve, after_input, input_loop}
use socket_flow.Encoder.Calls.{Calls, DeflateLaws, left, left-call}

-- What is documented of the library's progress. It does not fail, and puts out at most the room.
-- With input and room it gets on, so that `work`, an upper bound on such calls, falls; without room
-- it says so and does nothing. When it has taken all of an input, a flush with some room either is
-- over, and then the output ends in the marker, or is to be continued, and then `flushes`, an upper
-- bound on the calls that this takes, falls. How often the marker is put out is left open.
pub record DeflateProgress (fl : Deflate) : Type 0 where
  pub work : fl.State → List ℕ → ℕ
  pub flushes : fl.State → ℕ
  pub sound :
      (s t : fl.State) (input : List ℕ) (space : ℕ) → fl.compress_vec s input space ≢ corrupt t
  pub fits :
      (s t : fl.State) (input out : List ℕ) (space : ℕ) (status : Status)
      → fl.compress_vec s input space ≡ done t out status
      → length out ≤ space
  pub falls :
      (s t : fl.State) (input out : List ℕ) (space : ℕ) (status : Status)
      → fl.compress_vec s input space ≡ done t out status
      → 0 < space
      → 0 < length input
      → work t (drop (fl.total_in t - fl.total_in s) input) < work s input
  pub no_room :
      (s t : fl.State) (input out : List ℕ) (status : Status)
      → fl.compress_vec s input 0 ≡ done t out status
      → 0 < length input
      → (status ≡ Status.buf_error) × (t ≡ s)
  pub settles :
      (s mid t : fl.State) (input out chunk : List ℕ) (space : ℕ) (status : Status)
      → 0 < length input
      → Calls fl s input out mid
      → fl.compress_vec mid [] space ≡ done t chunk status
      → 5 ≤ space
      → (ends_with_trailer (out ++ chunk) ≡ true) ⊎ (flushes t < flushes mid)

-- One, where the buffer has no room left, else zero.
abbrev pub full : Buffer → ℕ
full b = if ltb (length b.held) b.capacity then 0 else 1

abbrev pub IsBuffer : Buffer → Type 0
IsBuffer b = (length b.held ≤ b.capacity) × (0 < b.capacity)

pub reserve-IsBuffer : (n : ℕ) (b : Buffer) → IsBuffer b → IsBuffer (reserve n b)
unfolding reserve
reserve-IsBuffer n b h = ground arith

-- Room is made where there was none.
pub reserve_makes_room :
    (n : ℕ) (b : Buffer) → 0 < n → IsBuffer b → length (reserve n b).held < (reserve n b).capacity
unfolding reserve
reserve_makes_room n b p h = ground arith

pub ok_not_buf_error : Status.ok ≡ Status.buf_error → ⊥
ok_not_buf_error e = cc

module _ (fl : Deflate) (laws : DeflateLaws fl) (progress : DeflateProgress fl) (before : ℕ)
    (payload : List ℕ) where
  abbrev pub lefts : fl.State → List ℕ
  lefts s = left fl laws before payload s

  abbrev pub Ends : Buffer → fl.State → ℕ → Type 0
  Ends b s fuel = (b' : Buffer) × ((input_loop fl fuel before payload b s).0 ≡ ok b') × IsBuffer b'

  abbrev pub Enough : Buffer → fl.State → ℕ → Type 0
  Enough b s fuel = 2 * progress.work s (lefts s) + full b < fuel

  pub grown-IsBuffer :
      (b : Buffer) (chunk : List ℕ)
      → IsBuffer b
      → length chunk ≤ b.capacity - length b.held
      → IsBuffer (record b { held = b.held ++ chunk })
  grown-IsBuffer b chunk h fits = omega (arith, length-append {0} b.held chunk)

  pub full-le : (b : Buffer) → full b ≤ 1
  full-le b = ground arith

  -- A call with room brings the end nearer, whatever becomes of the buffer.
  room_falls :
      (fuel : ℕ) (b b' : Buffer) (s t : fl.State) (chunk : List ℕ) (status : Status)
      → before ≤ fl.total_in s
      → Enough b s (suc fuel)
      → 0 < length (lefts s)
      → 0 < b.capacity - length b.held
      → fl.compress_vec s (lefts s) (b.capacity - length b.held) ≡ done t chunk status
      → Enough b' t fuel
  room_falls fuel b b' s t chunk status h en l room e =
      let fewer = progress.falls s t (lefts s) chunk (b.capacity - length b.held) status e room l in
      let same = (left-call fl laws before payload s t chunk _ status h e).0 in
      let fewer' : progress.work t (lefts t) < progress.work s (lefts s) = rw same at fewer in
      omega (arith, full-le b', fewer')

  -- A call without room changes nothing, and the buffer is made larger.
  no_room_falls :
      (fuel : ℕ) (b : Buffer) (s t : fl.State) (chunk : List ℕ)
      → IsBuffer b
      → Enough b s (suc fuel)
      → b.capacity - length b.held ≡ 0
      → length chunk ≤ b.capacity - length b.held
      → t ≡ s
      → Enough
          (reserve (length (b.held ++ chunk) * 3 / 2) (record b { held = b.held ++ chunk }))
          t
          fuel
  no_room_falls fuel b s t chunk ib en room fits same =
      let b' = record b { held = b.held ++ chunk } in
      let n = length b'.held * 3 / 2 in
      let larger =
        reserve_makes_room n b' (omega (arith, length-append {0} b.held chunk))
          (grown-IsBuffer b chunk ib fits) in
      let is_open : full (reserve n b') ≡ 0 = rw (lt→ltb _ _ larger) refl in
      let was_full : full b ≡ 1 = ground (arith, room) in
      let spare : 2 * progress.work s (lefts s) < fuel = omega (arith, was_full) in
      rw same (omega (arith, is_open))

  after_input-Ends :
      (fuel : ℕ) (b : Buffer) (s : fl.State) (step : Step fl.State)
      → before ≤ fl.total_in s
      → IsBuffer b
      → Enough b s (suc fuel)
      → 0 < length (lefts s)
      → fl.compress_vec s (lefts s) (b.capacity - length b.held) ≡ step
      → ((b' : Buffer) (t : fl.State)
          → before ≤ fl.total_in t
          → IsBuffer b'
          → Enough b' t fuel
          → Ends b' t fuel)
      → (b' : Buffer) × ((after_input (input_loop fl fuel before payload) b step).0 ≡ ok b')
        × IsBuffer b'
  unfolding after_input
  after_input-Ends fuel b s (corrupt t) h ib en l e ih = absurd (progress.sound s t _ _ e)
  after_input-Ends fuel b s (done t chunk Status.stream_end) h ib en l e ih =
      absurd (laws.endless s t _ chunk _ e)
  after_input-Ends fuel b s (done t chunk Status.ok) h ib en l e ih =
      elim (Bool-cases (ltb (length b.held) b.capacity)) [
        | inl room ↦
            let b' = record b { held = b.held ++ chunk } in
            let some_room : 0 < b.capacity - length b.held = ground (arith, room) in
            ih b' t (left-call fl laws before payload s t chunk _ Status.ok h e).1
              (grown-IsBuffer b chunk ib (progress.fits s t _ chunk _ Status.ok e))
              (room_falls fuel b b' s t chunk Status.ok h en l some_room e)
        | inr shut ↦
            let none_left : b.capacity - length b.held ≡ 0 = ground (arith, shut) in
            absurd (
              ok_not_buf_error
                (progress.no_room s t (lefts s) chunk Status.ok (rw none_left at e) l).0)
      ]
  after_input-Ends fuel b s (done t chunk Status.buf_error) h ib en l e ih =
      let b' = record b { held = b.held ++ chunk } in
      let b'' = reserve (length b'.held * 3 / 2) b' in
      let ib'' =
        reserve-IsBuffer (length b'.held * 3 / 2) b'
          (grown-IsBuffer b chunk ib (progress.fits s t _ chunk _ Status.buf_error e)) in
      let h' = (left-call fl laws before payload s t chunk _ Status.buf_error h e).1 in
      elim (Bool-cases (ltb (length b.held) b.capacity)) [
        | inl room ↦
            ih b'' t h' ib''
              (room_falls fuel b b'' s t chunk Status.buf_error h en l (ground (arith, room)) e)
        | inr shut ↦
            let none_left : b.capacity - length b.held ≡ 0 = ground (arith, shut) in
            ih b'' t h' ib'' (
              no_room_falls fuel b s t chunk ib en none_left
                (progress.fits s t _ chunk _ Status.buf_error e)
                (progress.no_room s t (lefts s) chunk Status.buf_error (rw none_left at e) l).1)
      ]

  pub input_loop-Ends :
      (fuel : ℕ) (b : Buffer) (s : fl.State)
      → before ≤ fl.total_in s
      → IsBuffer b
      → Enough b s fuel
      → Ends b s fuel
  unfolding input_loop
  input_loop-Ends zero b s h ib en = absurd (omega arith)
  input_loop-Ends (suc fuel) b s h ib en =
      elim (Bool-cases (ltb (fl.total_in s - before) (length payload))) [
        | inl more ↦ rw more (
            after_input-Ends fuel b s _ h ib en
              (omega (arith, ltb→lt _ _ more, length-drop {0} (fl.total_in s - before) payload))
              refl (λ b' t h' ib' en'. input_loop-Ends fuel b' t h' ib' en'))
        | inr over ↦ rw over (b, refl, ib)
      ]
