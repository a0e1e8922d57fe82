-- ===== src/Encoder.antt =====
-- src/encoder.rs: a message is compressed in a loop over a growing buffer, and the marker of the
-- last flush is taken off.
pub mod Calls
pub mod Ending
pub mod Flushing
pub mod Output
use socket_flow.Prelude.{
  ℕ, zero, suc, ◌+◌, ◌-◌, ◌*◌, ◌/◌, Bool, true, false, List, [], ◌∷◌, ◌++◌, Option, ltb, ◌==◌, max,
  if◌then◌else◌, length, take, drop,
}
use socket_flow.Error.{Outcome, ok, err, panic, hang, waits, io_error, invalid_deflate}
use socket_flow.Run.{Run, proceed}
use socket_flow.Flate.{Status, Step, done, corrupt, Deflate, accepts_window}

pub record Encoder (S : Type 0) : Type 0 where
  pub compressor : S
  pub reset_context : Bool

-- A `Vec<u8>` with its capacity, which the library fills and does not grow.
pub record Buffer : Type 0 where
  pub held : List ℕ
  pub capacity : ℕ

-- `Vec::reserve`: nothing where the room is there, else at least twice the capacity.
unfoldable pub reserve : ℕ → Buffer → Buffer
reserve n b =
    if ltb (b.capacity - length b.held) n
    then record b { capacity = max (b.capacity * 2) (length b.held + n) }
    else b

unfoldable pub same_bytes : List ℕ → List ℕ → Bool
same_bytes [] [] = true
same_bytes [] (y ∷ ys) = false
same_bytes (x ∷ xs) [] = false
same_bytes (x ∷ xs) (y ∷ ys) = let rest = same_bytes xs ys in if x == y then rest else false

-- `ends_with(&[0, 0, 0xFF, 0xFF])`.
unfoldable pub ends_with_trailer : List ℕ → Bool
unfolding same_bytes
ends_with_trailer bs =
    if ltb (length bs) 4
    then false
    else same_bytes (drop (length bs - 4) bs) (0 ∷ 0 ∷ 0xFF ∷ 0xFF ∷ [])

-- What follows a call of the library in the first loop and in the second: a buffer error makes
-- room in the first, and both go on after it.
unfoldable pub after_input :
    {S : Type 0} → (Buffer → S → Outcome Buffer × S) → Buffer → Step S → Outcome Buffer × S
after_input again b (corrupt t) = (err (io_error invalid_deflate), t)
after_input again b (done t chunk Status.ok) = again (record b { held = b.held ++ chunk }) t
after_input again b (done t chunk Status.stream_end) = (ok (record b { held = b.held ++ chunk }), t)
after_input again b (done t chunk Status.buf_error) =
    let b' = record b { held = b.held ++ chunk } in again (reserve (length b'.held * 3 / 2) b') t

unfoldable pub after_flush :
    {S : Type 0} → (Buffer → S → Outcome Buffer × S) → Buffer → Step S → Outcome Buffer × S
after_flush again b (corrupt t) = (err (io_error invalid_deflate), t)
after_flush again b (done t chunk Status.ok) = again (record b { held = b.held ++ chunk }) t
after_flush again b (done t chunk Status.stream_end) = (ok (record b { held = b.held ++ chunk }), t)
after_flush again b (done t chunk Status.buf_error) = again (record b { held = b.held ++ chunk }) t

module _ (fl : Deflate) where
  abbrev pub new_encoder : Bool → Option ℕ → Outcome (Encoder fl.State)
  new_encoder reset_context window_bits =
      if accepts_window window_bits
      then ok (record { compressor = fl.new window_bits; reset_context = reset_context })
      else panic

  -- The loop over the payload, on fuel.
  unfoldable pub input_loop : ℕ → ℕ → List ℕ → Buffer → fl.State → Outcome Buffer × fl.State
  input_loop zero before payload b s = (hang, s)
  input_loop (suc fuel) before payload b s =
      let i = fl.total_in s - before in
      if ltb i (length payload)
      then after_input (input_loop fuel before payload) b
          (fl.compress_vec s (drop i payload) (b.capacity - length b.held))
      else (ok b, s)

  -- The loop that waits for the marker, on fuel.
  unfoldable pub flush_loop : ℕ → Buffer → fl.State → Outcome Buffer × fl.State
  flush_loop zero b s = (hang, s)
  flush_loop (suc fuel) b s =
      if ends_with_trailer b.held
      then (ok b, s)
      else (let b' = reserve 5 b in
          after_flush (flush_loop fuel) b' (fl.compress_vec s [] (b'.capacity - length b'.held)))

  -- `truncate(len - 4)`: the subtraction of a shorter buffer overflows, which panics.
  unfoldable pub cut : Buffer → Outcome (List ℕ)
  cut b = if ltb (length b.held) 4 then panic else ok (take (length b.held - 4) b.held)

  -- The end of `compress`: the context is dropped where the encoder is set to.
  unfoldable pub settle :
      Encoder fl.State → Outcome (List ℕ) → fl.State → Outcome (List ℕ) × Encoder fl.State
  settle e (ok out) t =
      (ok out, record e { compressor = if e.reset_context then fl.reset t else t })
  settle e (err x) t = (err x, record e { compressor = t })
  settle e panic t = (panic, record e { compressor = t })
  settle e hang t = (hang, record e { compressor = t })
  settle e waits t = (waits, record e { compressor = t })

  unfoldable pub finish :
      Encoder fl.State → Outcome Buffer × fl.State → Outcome (List ℕ) × Encoder fl.State
  unfolding settle cut
  finish e (ok b, t) = settle e (cut b) t
  finish e (err x, t) = settle e (err x) t
  finish e (panic, t) = settle e panic t
  finish e (hang, t) = settle e hang t
  finish e (waits, t) = settle e waits t

  unfoldable pub compress : ℕ → List ℕ → Run (Encoder fl.State) (List ℕ)
  compress fuel [] e = (ok [], e)
  compress fuel (x ∷ xs) e =
      let payload = x ∷ xs in
      finish e (
        proceed
          (input_loop fuel (fl.total_in e.compressor) payload
            (record { held = []; capacity = length payload * 2 }) e.compressor).0
          (flush_loop fuel)
          (input_loop fuel (fl.total_in e.compressor) payload
            (record { held = []; capacity = length payload * 2 }) e.compressor).1)
