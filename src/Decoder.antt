-- ===== src/Decoder.antt =====
-- src/decoder.rs: a message is decompressed in a loop over a buffer of fixed size.
pub mod Loop
use socket_flow.Prelude.{
  ℕ, zero, suc, ◌+◌, ◌-◌, Bool, true, false, List, [], ◌∷◌, ◌++◌, Option, ltb, leb, if◌then◌else◌,
  length, drop,
}
use socket_flow.Error.{Outcome, ok, err, panic, hang, io_error, invalid_deflate}
use socket_flow.Run.{Run}
use socket_flow.Flate.{Status, Step, done, corrupt, Inflate, accepts_window}

unfoldable pub calculate_buffer_size : ℕ → ℕ
calculate_buffer_size payload_size =
    if leb payload_size 4096 then 4096 else if leb payload_size 65536 then 16384 else 65536

pub record Decoder (S : Type 0) : Type 0 where
  pub decompressor : S
  pub reset_context : Bool

abbrev pub deflate_trailer : List ℕ
deflate_trailer = 0 ∷ 0 ∷ 255 ∷ 255 ∷ []

-- What follows a call of the library: an `Ok` empties the buffer into the output, the end of the
-- stream leaves the loop, and a buffer error tries again.
unfoldable pub after_call :
    {S : Type 0}
    → (List ℕ → List ℕ → S → Outcome (List ℕ) × S)
    → List ℕ
    → List ℕ
    → Step S
    → Outcome (List ℕ) × S
after_call again buffer out (corrupt t) = (err (io_error invalid_deflate), t)
after_call again buffer out (done t chunk Status.ok) = again [] (out ++ (buffer ++ chunk)) t
after_call again buffer out (done t chunk Status.stream_end) = (ok out, t)
after_call again buffer out (done t chunk Status.buf_error) = again (buffer ++ chunk) out t

module _ (fl : Inflate) where
  abbrev pub new_decoder : Bool → Option ℕ → Outcome (Decoder fl.State)
  new_decoder reset_context window_bits =
      if accepts_window window_bits
      then ok (record { decompressor = fl.new window_bits; reset_context = reset_context })
      else panic

  -- The `while` loop, on fuel: `before` is `before_in`, `buffer` what the chunk buffer holds and
  -- `out` what has been put out.
  unfoldable pub inflate_loop :
      ℕ → ℕ → ℕ → List ℕ → List ℕ → List ℕ → fl.State → Outcome (List ℕ) × fl.State
  inflate_loop zero capacity before payload buffer out s = (hang, s)
  inflate_loop (suc fuel) capacity before payload buffer out s =
      let i = fl.total_in s - before in
      if ltb i (length payload)
      then after_call (inflate_loop fuel capacity before payload) buffer out
          (fl.decompress_vec s (drop i payload) (capacity - length buffer))
      else (ok out, s)

  -- The state that the loop starts from.
  abbrev pub loop_start : Decoder fl.State → fl.State
  loop_start d = if d.reset_context then fl.reset d.decompressor else d.decompressor

  unfoldable pub decompress : ℕ → List ℕ → Run (Decoder fl.State) (List ℕ)
  decompress fuel payload d =
      let full = payload ++ deflate_trailer in
      let s = loop_start d in
      let (r, t) =
        inflate_loop fuel (calculate_buffer_size (length full)) (fl.total_in s) full [] [] s in
      (r, record d { decompressor = t })
