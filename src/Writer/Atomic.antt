-- ===== src/Writer/Atomic.antt =====
-- The several writes of a frame in src/write.rs against its encoding.
use socket_flow.Prelude.{
  ℕ, zero, suc, ◌+◌, ◌-◌, bit_or, ◌^◌, ◌*◌, ◌/◌, ◌≤◌, ◌≡◌, refl, ap, ◌∙◌, Bool, true, false, List,
  [], ◌∷◌, ◌++◌, append_assoc, leb, if◌then◌else◌, length, take, take_all, length-append, arith,
}
use mathlib.Core.Path.{fun_ext}
use socket_flow.Prelude.Bits.{bit, u8, bit_or_top}
use socket_flow.Error.{Outcome, ok, err, io_error, broken_pipe}
use socket_flow.Run.{◌>>◌}
use socket_flow.Frame.{Frame, OpCode, as_u8, continue, text, binary, close, ping, pong}
use socket_flow.Writer.{
  Writer, WriterKind, client, server, Mask, mask_bytes, apply_mask, first_byte, flag_byte,
  to_be_bytes, next_mask, draw_mask, write_all, write_length_server, write_length_client,
  after_draw, write_frame_server, write_frame_client, write_by, write_frame,
}
use socket_flow.Writer.Encoding.{
  head_byte, length_bytes, encode_plain, encode_by, encode_masked, encode,
}

take-append_short : (n : ℕ) (xs ys : List ℕ) → n ≤ length xs → take n (xs ++ ys) ≡ take n xs
take-append_short zero xs ys h = refl
take-append_short (suc n) [] ys h = absurd (omega arith)
take-append_short (suc n) (x ∷ xs) ys h = ap (λ r. x ∷ r) (take-append_short n xs ys (omega arith))

take-append_long :
    (n : ℕ) (xs ys : List ℕ) → length xs ≤ n → take n (xs ++ ys) ≡ xs ++ take (n - length xs) ys
take-append_long n [] ys h = ap (λ k. take k ys) (omega arith)
take-append_long zero (x ∷ xs) ys h = absurd (omega arith)
take-append_long (suc n) (x ∷ xs) ys h =
    ap (λ r. x ∷ r)
      (take-append_long n xs ys (omega arith) ∙ ap (λ k. xs ++ take k ys) (omega arith))

-- Two writes in a row are one write of both.
pub write_all-append : (xs ys : List ℕ) → (write_all xs >> write_all ys) ≡ write_all (xs ++ ys)
unfolding write_all
write_all-append xs ys = fun_ext λ w. ground (
  arith,
  length-append {0} xs ys,
  take-append_short w.room xs ys,
  take-append_long w.room xs ys,
  append_assoc w.written xs ys,
  append_assoc w.written xs (take (w.room - length xs) ys),
)

head_bits :
    (fin : Bool) (op : OpCode) (rsv1 : Bool)
    → (let b = bit_or (flag_byte fin * 2 ^ 7) (as_u8 op) in if rsv1 then bit_or b 0x40 else b)
      ≡ bit fin * 128 + bit rsv1 * 64 + as_u8 op
unfolding flag_byte as_u8
head_bits true continue true = refl
head_bits true continue false = refl
head_bits true text true = refl
head_bits true text false = refl
head_bits true binary true = refl
head_bits true binary false = refl
head_bits true close true = refl
head_bits true close false = refl
head_bits true ping true = refl
head_bits true ping false = refl
head_bits true pong true = refl
head_bits true pong false = refl
head_bits false continue true = refl
head_bits false continue false = refl
head_bits false text true = refl
head_bits false text false = refl
head_bits false binary true = refl
head_bits false binary false = refl
head_bits false close true = refl
head_bits false close false = refl
head_bits false ping true = refl
head_bits false ping false = refl
head_bits false pong true = refl
head_bits false pong false = refl

pub first_byte-eq-head_byte :
    (frame : Frame) (rsv1 : Bool) → first_byte frame rsv1 ≡ head_byte frame rsv1
unfolding first_byte head_byte
first_byte-eq-head_byte frame rsv1 = head_bits frame.final_fragment frame.opcode rsv1

write_length_server_lem : (n : ℕ) → write_length_server n ≡ write_all (length_bytes 0 n)
unfolding write_length_server length_bytes
write_length_server_lem n = ground arith

write_length_client_lem :
    (n : ℕ) (mask : Mask)
    → write_length_client n mask ≡ write_all (length_bytes 128 n ++ mask_bytes mask)
unfolding write_length_client length_bytes
write_length_client_lem n mask = ground (
  arith,
  bit_or_top n,
  write_all-append (bit_or 0x80 (u8 n) ∷ []) (mask_bytes mask),
  write_all-append (254 ∷ u8 (n / 256) ∷ u8 n ∷ []) (mask_bytes mask),
  write_all-append (255 ∷ to_be_bytes n) (mask_bytes mask),
)

three_writes :
    (xs ys zs : List ℕ)
    → (write_all xs >> (write_all ys >> write_all zs)) ≡ write_all (xs ++ (ys ++ zs))
three_writes xs ys zs =
    ap (λ k. write_all xs >> k) (write_all-append ys zs) ∙ write_all-append xs (ys ++ zs)

-- A server's frame goes out as if by one write of its encoding.
pub write_frame_server_lem :
    (frame : Frame) (rsv1 : Bool)
    → write_frame_server frame rsv1 ≡ write_all (encode_plain frame rsv1)
unfolding write_frame_server encode_plain
write_frame_server_lem frame rsv1 =
    rw (first_byte-eq-head_byte, write_length_server_lem)
      (three_writes (head_byte frame rsv1 ∷ []) (length_bytes 0 (length frame.payload))
        frame.payload)

-- A client's frame goes out as if by one write of its encoding, under the mask drawn for it.
pub write_frame_client_lem :
    (frame : Frame) (rsv1 : Bool) (w : Writer)
    → write_frame_client frame rsv1 w
      ≡ write_all (encode_masked (next_mask w) frame rsv1) (after_draw w)
unfolding write_frame_client encode_masked draw_mask
write_frame_client_lem frame rsv1 w =
    let n = length frame.payload in
    let mask = next_mask w in
    let body = apply_mask mask 0 frame.payload in
    rw (first_byte-eq-head_byte, write_length_client_lem)
      (ap (λ k. k (after_draw w))
        (three_writes (head_byte frame rsv1 ∷ []) (length_bytes 128 n ++ mask_bytes mask) body
          ∙ ap write_all (
              ap (λ r. head_byte frame rsv1 ∷ r)
                (append_assoc (length_bytes 128 n) (mask_bytes mask) body))))

-- All of `bytes` went out and the call returned, or what still fitted went out and it failed.
pub record Wrote (bytes : List ℕ) (w : Writer) (end : Outcome (Unit {0}) × Writer) : Type 0 where
  pub written : end.1.written ≡ w.written ++ take w.room bytes
  pub room : end.1.room ≡ w.room - length bytes
  pub kind : end.1.kind ≡ w.kind
  pub result : end.0 ≡ (if leb (length bytes) w.room then ok tt else err (io_error broken_pipe))

write_all-Wrote : (bytes : List ℕ) (w : Writer) → Wrote bytes w (write_all bytes w)
unfolding write_all
write_all-Wrote bytes w = ground (arith, take_all w.room bytes)

write_by-Wrote :
    (kind : WriterKind) (frame : Frame) (rsv1 : Bool) (w : Writer)
    → Wrote (encode_by kind (next_mask w) frame rsv1) w (write_by kind frame rsv1 w)
unfolding write_by
write_by-Wrote client frame rsv1 w = rw write_frame_client_lem (
    let sent = write_all-Wrote (encode_masked (next_mask w) frame rsv1) (after_draw w) in
    record { written = sent.written; room = sent.room; kind = sent.kind; result = sent.result })
write_by-Wrote server frame rsv1 w =
    rw write_frame_server_lem (write_all-Wrote (encode_plain frame rsv1) w)

-- For a writer of either kind: where the encoding of the frame fits the room, all of it is added
-- to what has gone out and the call returns; else the part that fits is added and the call fails
-- with an I/O error.
pub write_frame-Wrote :
    (frame : Frame) (rsv1 : Bool) (w : Writer)
    → Wrote (encode w frame rsv1) w (write_frame frame rsv1 w)
unfolding write_frame encode
write_frame-Wrote frame rsv1 w = write_by-Wrote w.kind frame rsv1 w
