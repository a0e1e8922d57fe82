-- ===== src/Reader/Limits.antt =====
-- Where src/read.rs applies the limits for a frame and for a message.
use socket_flow.Prelude.{
  ℕ, ◌+◌, ◌*◌, ◌^◌, ◌≤◌, ◌<◌, ◌≡◌, refl, ap, ◌⊎◌, true, false, List, [], ◌∷◌, ◌++◌, length, lt→ltb,
  IsBytes, arith,
}
use socket_flow.Error.{ok, err, max_frame_size}
use socket_flow.Config.{size_or_default, deflate_enabled}
use socket_flow.Frame.{OpCode, new_frame}
use socket_flow.Message.{Message, from_frame}
use socket_flow.Flate.{Inflate}
use socket_flow.Header.{Header, parse_header, from_be_bytes}
use socket_flow.Source.{Arrival, byte, bytes}
use socket_flow.Writer.{WriterKind, Mask}
use socket_flow.Writer.Masking.{IsMask}
use socket_flow.Writer.Encoding.{encode_by}
use socket_flow.Reader.{HasRoom, ReadStream, read_length, read_frame, inflate}
use socket_flow.Reader.Reads.{at_source, read_header_lem, read_bytes_lem}
use socket_flow.Reader.RoundTrip.{read_frame-encode_by}
use socket_flow.Reader.Steps.{Steps, here, next}
use socket_flow.Reader.Parts.{idle, delivered, handle_whole, data_Acceptable, data_op}

-- The forms of a length: in seven bits, or in two or eight bytes that stand behind the header, most
-- significant first, whether or not a shorter form would do.
pub data Announced : ℕ → List ℕ → ℕ → Type 0 where
  in_header : (n : ℕ) → n < 126 → Announced n [] n
  in_two : (b0 b1 : ℕ) → Announced 126 (b0 ∷ b1 ∷ []) (b0 * 256 + b1)
  in_eight : (bs : List ℕ) → 8 ≡ length bs → Announced 127 bs (from_be_bytes bs)

module _ {S : Type 0} (s : ReadStream S) (rest : List Arrival) where
  read-Announced :
      (code n : ℕ) (extra : List ℕ)
      → Announced code extra n
      → read_length code (at_source s (bytes extra ++ rest)) ≡ (ok n, at_source s rest)
  unfolding read_length from_be_bytes
  read-Announced code n extra (in_header n' h) = ground arith
  read-Announced code n extra (in_two b0 b1) =
      let same : (0 + b0) * 256 + b1 ≡ b0 * 256 + b1 = omega arith in
      rw (read_bytes_lem s rest 2 (b0 ∷ b1 ∷ []) refl) (ap (λ k. (ok k, at_source s rest)) same)
  read-Announced code n extra (in_eight bs h) = rw (read_bytes_lem s rest 8 bs h)

module _ (fl : Inflate) (rounds : ℕ) where
  -- A frame whose header is in order and that announces more bytes than the frame limit, in
  -- whichever of the three forms, is refused as soon as its length has been read: the mask and the
  -- payload are left unread.
  pub read_frame_over_limit :
      (s : ReadStream fl.State) (b0 b1 n : ℕ) (h : Header) (extra : List ℕ) (rest : List Arrival)
      → parse_header (deflate_enabled s.config) b0 b1 ≡ ok h
      → Announced h.length extra n
      → size_or_default s.config.max_frame_size < n
      → read_frame fl rounds (at_source s (byte b0 ∷ byte b1 ∷ (bytes extra ++ rest)))
        ≡ (err max_frame_size, at_source s rest)
  unfolding read_frame
  read_frame_over_limit s b0 b1 n h extra rest parsed announced over =
      rw
        (
          read_header_lem s (bytes extra ++ rest) b0 b1,
          parsed,
          read-Announced s rest h.length n extra announced,
          lt→ltb _ _ over,
        )
        refl

  -- A data message in one frame, as a writer of either kind encodes it, is delivered whatever the
  -- limit for a message is, in one round of the loop: its bytes are within the limit for a frame
  -- and fewer than 2^64, the channel is open and has room, the bytes of a text are UTF-8, and no
  -- message is in progress.
  pub whole_frame_delivered :
      (s : ReadStream fl.State) (kind : WriterKind) (mask : Mask) (op : OpCode) (payload : List ℕ)
      (m : Message) (rest : List Arrival)
      → IsMask mask
      → IsBytes payload
      → (op ≡ OpCode.text) ⊎ (op ≡ OpCode.binary)
      → length payload ≤ size_or_default s.config.max_frame_size
      → length payload < 2 ^ 64
      → from_frame (new_frame true op payload false) ≡ ok m
      → HasRoom s.read_tx
      → Steps fl rounds 1
          (idle s (bytes (encode_by kind mask (new_frame true op payload false) false) ++ rest))
          (delivered (idle s rest) m)
  unfolding inflate
  whole_frame_delivered s kind mask op payload m rest is_mask are_bytes d fits in_64_bits e
        open_end =
      next 0 (idle s (bytes (encode_by kind mask (new_frame true op payload false) false) ++ rest))
        (idle s rest) (delivered (idle s rest) m) (delivered (idle s rest) m)
        (new_frame true op payload false)
        (read_frame-encode_by fl rounds (idle s []) rest kind mask (new_frame true op payload false)
          false is_mask
          (data_Acceptable fl rounds kind s (length payload) rest fits in_64_bits true op payload
            (data_op d) are_bytes (omega arith)))
        (handle_whole fl rounds kind s op payload m rest d e open_end) (here _)
