-- ===== src/Writer.antt =====
-- src/write.rs: frames are written to the socket. The write half is the bytes that have gone out
-- and the room that is left before the connection breaks; the generator of random bytes is the
-- sequence that it yields and the count already drawn.
pub mod Encoding
pub mod Atomic
pub mod Masking
pub mod Lengths
pub mod Fits
use socket_flow.Prelude.{
  ℕ, zero, suc, ◌+◌, ◌-◌, ◌*◌, ◌/◌, ◌%◌, ◌^◌, bit_or, bit_xor, Bool, true, false, List, [], ◌∷◌,
  ◌++◌, leb, if◌then◌else◌, length, take,
}
use socket_flow.Prelude.Bits.{u8}
use socket_flow.Error.{ok, err, io_error, broken_pipe}
use socket_flow.Run.{Run, ◌>>=◌, ◌>>◌}
use socket_flow.Frame.{Frame, as_u8}

pub data WriterKind : Type 0 where
  client server : WriterKind

pub record Writer : Type 0 where
  pub kind : WriterKind
  pub written : List ℕ
  pub room : ℕ
  pub rng : ℕ → ℕ
  pub drawn : ℕ

-- A write past the room puts out what still fits, and fails.
pub write_all : List ℕ → Run Writer Unit
write_all bytes w =
    if leb (length bytes) w.room
    then (ok tt, record w { written = w.written ++ bytes; room = w.room - length bytes })
    else (
      err (io_error broken_pipe),
      record w { written = w.written ++ take w.room bytes; room = 0 },
    )

-- The four bytes of a masking key.
pub record Mask : Type 0 where
  pub m0 : ℕ
  pub m1 : ℕ
  pub m2 : ℕ
  pub m3 : ℕ

abbrev pub mask_bytes : Mask → List ℕ
mask_bytes m = m.m0 ∷ m.m1 ∷ m.m2 ∷ m.m3 ∷ []

key_at : ℕ → Mask → ℕ
key_at zero m = m.m0
key_at (suc zero) m = m.m1
key_at (suc (suc zero)) m = m.m2
key_at _ m = m.m3

-- `mask[i % 4]`.
unfoldable pub mask_index : Mask → ℕ → ℕ
unfolding key_at
mask_index m i = key_at (i % 4) m

-- The loop over the payload, at index `i`.
unfoldable pub apply_mask : Mask → ℕ → List ℕ → List ℕ
apply_mask m i [] = []
apply_mask m i (byte ∷ rest) = bit_xor byte (mask_index m i) ∷ apply_mask m (suc i) rest

-- Four bytes drawn from the generator.
unfoldable pub next_mask : Writer → Mask
next_mask w = record {
  m0 = u8 (w.rng w.drawn);
  m1 = u8 (w.rng (w.drawn + 1));
  m2 = u8 (w.rng (w.drawn + 2));
  m3 = u8 (w.rng (w.drawn + 3));
}

abbrev pub after_draw : Writer → Writer
after_draw w = record w { drawn = w.drawn + 4 }

pub draw_mask : Run Writer Mask
draw_mask w = (ok (next_mask w), after_draw w)

flag_byte : Bool → ℕ
flag_byte true = 1
flag_byte false = 0

-- `(frame.final_fragment as u8) << 7 | frame.opcode.as_u8()`, with RSV1 if it is asked for.
unfoldable pub first_byte : Frame → Bool → ℕ
unfolding flag_byte
first_byte frame set_rsv1 =
    let b = bit_or (flag_byte frame.final_fragment * 2 ^ 7) (as_u8 frame.opcode) in
    if set_rsv1 then bit_or b 0x40 else b

-- `usize::to_be_bytes`, of 64 bits.
unfoldable pub to_be_bytes : ℕ → List ℕ
to_be_bytes n =
    u8 (n / 2 ^ 56)
    ∷ u8 (n / 2 ^ 48)
    ∷ u8 (n / 2 ^ 40)
    ∷ u8 (n / 2 ^ 32)
    ∷ u8 (n / 2 ^ 24)
    ∷ u8 (n / 2 ^ 16)
    ∷ u8 (n / 2 ^ 8)
    ∷ u8 n
    ∷ []

-- The length, by the branch that its size takes: as a byte, or as 16 or 64 bits behind 126 or 127.
pub write_length_server : ℕ → Run Writer Unit
write_length_server payload_len =
    if leb payload_len 125
    then write_all (u8 payload_len ∷ [])
    else if leb payload_len 65535
    then write_all (126 ∷ u8 (payload_len / 2 ^ 8) ∷ u8 payload_len ∷ [])
    else write_all (127 ∷ to_be_bytes payload_len)

-- The same with the mask bit set, and the key behind it.
pub write_length_client : ℕ → Mask → Run Writer Unit
write_length_client payload_len mask =
    if leb payload_len 125
    then (do write_all (bit_or 0x80 (u8 payload_len) ∷ []); write_all (mask_bytes mask))
    else if leb payload_len 65535
    then (do
      write_all (bit_or 126 0x80 ∷ u8 (payload_len / 2 ^ 8) ∷ u8 payload_len ∷ [])
      write_all (mask_bytes mask))
    else (do write_all (bit_or 127 0x80 ∷ to_be_bytes payload_len); write_all (mask_bytes mask))

unfoldable pub write_frame_server : Frame → Bool → Run Writer Unit
write_frame_server frame set_rsv1 = do
  write_all (first_byte frame set_rsv1 ∷ [])
  write_length_server (length frame.payload)
  write_all frame.payload

unfoldable pub write_frame_client : Frame → Bool → Run Writer Unit
write_frame_client frame set_rsv1 = do
  mask ← draw_mask
  write_all (first_byte frame set_rsv1 ∷ [])
  write_length_client (length frame.payload) mask
  write_all (apply_mask mask 0 frame.payload)

write_by : WriterKind → Frame → Bool → Run Writer Unit
write_by client = write_frame_client
write_by server = write_frame_server

unfoldable pub write_frame : Frame → Bool → Run Writer Unit
unfolding write_by
write_frame frame set_rsv1 w = write_by w.kind frame set_rsv1 w
