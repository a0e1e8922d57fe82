-- ===== src/Reader/RoundTrip.antt =====
-- The frames that src/write.rs writes against `read_frame` of src/read.rs.
use socket_flow.Prelude.{
  ℕ, ◌+◌, ◌*◌, ◌≤◌, ◌<◌, ◌^◌, ◌≡◌, refl, sym, ap, ◌∙◌, Bool, true, false, ◌&&◌, List, [], ◌∷◌, ◌++◌,
  length, le→ltb, take_all, IsBytes, arith,
}
use socket_flow.Prelude.Bits.{bit}
use socket_flow.Error.{ok}
use socket_flow.Run.{pure, ◌>>=◌}
use socket_flow.Config.{deflate_enabled, size_or_default}
use socket_flow.Frame.{Frame, new_frame, is_control}
use socket_flow.Frame.Codes.{as_u8-lt}
use socket_flow.Flate.{Inflate}
use socket_flow.Writer.{
  Writer, WriterKind, client, server, Mask, mask_bytes, apply_mask, next_mask, write_frame,
}
use socket_flow.Writer.Encoding.{head_byte, encode_plain, encode_masked, encode_by, encode}
use socket_flow.Writer.Atomic.{write_frame-Wrote}
use socket_flow.Writer.Lengths.{length_code, length_extra, length_bytes_lem, length_code-lt}
use socket_flow.Writer.Masking.{IsMask, next_mask-IsMask, length-apply_mask, apply_mask-apply_mask}
use socket_flow.Source.{Arrival, byte, bytes}
use socket_flow.Header.{Header, parse_header}
use socket_flow.Header.Checks.{parse_header-IsHeader_iff}
use socket_flow.Reader.{ReadStream, Reader, read_frame, inflate, read_mask, unmask}
use socket_flow.Reader.Reads.{
  at_source, read_header_lem, read_length_lem, read_mask_lem, read_payload_lem,
}

-- What a receiver with this setting of compression and this limit accepts of a frame.
pub record Acceptable (deflate : Bool) (limit : ℕ) (frame : Frame) (rsv1 : Bool) : Type 0 where
  pub are_bytes : IsBytes frame.payload
  pub fits : length frame.payload ≤ limit
  pub in_64_bits : length frame.payload < 2 ^ 64
  pub rsv1_allowed : rsv1 ≡ true → deflate ≡ true
  pub control_whole : is_control frame.opcode ≡ true → frame.final_fragment ≡ true
  pub control_short : is_control frame.opcode ≡ true → length frame.payload ≤ 125

-- The header that a frame is sent with.
abbrev header_of : WriterKind → Frame → Bool → Header
header_of kind frame rsv1 = record {
  final_fragment = frame.final_fragment;
  opcode = frame.opcode;
  rsv1 = rsv1;
  masked = elim kind [ client ↦ true | server ↦ false ];
  length = length_code (length frame.payload);
}

second_byte : WriterKind → ℕ → ℕ
second_byte kind n = bit (elim kind [ client ↦ true | server ↦ false ]) * 128 + length_code n

parse_header_of :
    (kind : WriterKind) {deflate : Bool} {limit : ℕ} {frame : Frame} {rsv1 : Bool}
    → Acceptable deflate limit frame rsv1
    → parse_header deflate (head_byte frame rsv1) (second_byte kind (length frame.payload))
      ≡ ok (header_of kind frame rsv1)
unfolding head_byte second_byte length_code
parse_header_of kind {deflate} {frame} {rsv1} a =
    (parse_header-IsHeader_iff deflate (head_byte frame rsv1)
        (second_byte kind (length frame.payload)) (header_of kind frame rsv1)
        (ground (arith, as_u8-lt frame.opcode))
        (ground (arith, length_code-lt (length frame.payload)))).1
      (record {
        first = refl;
        second = refl;
        short = length_code-lt (length frame.payload);
        rsv1_allowed = a.rsv1_allowed;
        control_whole = a.control_whole;
        control_short = λ c. ground (arith, a.control_short c);
      })

module _ (rest : List Arrival) where
  pub bytes-append : (xs ys : List ℕ) → bytes (xs ++ ys) ++ rest ≡ bytes xs ++ (bytes ys ++ rest)
  bytes-append [] ys = refl
  bytes-append (x ∷ xs) ys = ap (λ r. byte x ∷ r) (bytes-append xs ys)

  bytes_plain :
      (frame : Frame) (rsv1 : Bool)
      → bytes (encode_plain frame rsv1) ++ rest
        ≡ byte (head_byte frame rsv1)
          ∷ byte (second_byte server (length frame.payload))
          ∷ (bytes (length_extra (length frame.payload)) ++ (bytes frame.payload ++ rest))
  unfolding encode_plain second_byte
  bytes_plain frame rsv1 = rw (length_bytes_lem, bytes-append)

  bytes_masked :
      (mask : Mask) (frame : Frame) (rsv1 : Bool)
      → bytes (encode_masked mask frame rsv1) ++ rest
        ≡ byte (head_byte frame rsv1)
          ∷ byte (second_byte client (length frame.payload))
          ∷ (bytes (length_extra (length frame.payload))
              ++ (bytes (mask_bytes mask) ++ (bytes (apply_mask mask 0 frame.payload) ++ rest)))
  unfolding encode_masked second_byte
  bytes_masked mask frame rsv1 = rw (length_bytes_lem, bytes-append, bytes-append (mask_bytes mask))

module _ (fl : Inflate) (rounds : ℕ) (s : ReadStream fl.State) (rest : List Arrival) where
  -- What `read_frame` does behind the reads.
  abbrev delivered : Frame → Bool → Reader fl rounds Frame
  delivered frame rsv1 = do
    payload ← inflate fl rounds (rsv1 && frame.final_fragment) frame.payload
    pure (new_frame frame.final_fragment frame.opcode payload rsv1)

  abbrev Accepted : Frame → Bool → Type 0
  Accepted frame rsv1 =
      Acceptable (deflate_enabled s.config) (size_or_default s.config.max_frame_size) frame rsv1

  read_frame-encode_plain :
      (frame : Frame) (rsv1 : Bool)
      → Accepted frame rsv1
      → read_frame fl rounds (at_source s (bytes (encode_plain frame rsv1) ++ rest))
        ≡ delivered frame rsv1 (at_source s rest)
  unfolding read_frame unmask read_mask
  read_frame-encode_plain frame rsv1 a = rw (
    bytes_plain rest frame rsv1,
    read_header_lem s,
    parse_header_of server a,
    read_length_lem s _ (length frame.payload) a.in_64_bits,
    le→ltb _ _ a.fits,
    read_payload_lem s rest (length frame.payload) frame.payload refl,
  )

  read_frame-encode_masked :
      (mask : Mask) (frame : Frame) (rsv1 : Bool)
      → IsMask mask
      → Accepted frame rsv1
      → read_frame fl rounds (at_source s (bytes (encode_masked mask frame rsv1) ++ rest))
        ≡ delivered frame rsv1 (at_source s rest)
  unfolding read_frame unmask
  read_frame-encode_masked mask frame rsv1 m a = rw (
    bytes_masked rest mask frame rsv1,
    read_header_lem s,
    parse_header_of client a,
    read_length_lem s _ (length frame.payload) a.in_64_bits,
    le→ltb _ _ a.fits,
    read_mask_lem s _ mask,
    read_payload_lem s rest (length frame.payload) (apply_mask mask 0 frame.payload)
        (sym (length-apply_mask mask 0 frame.payload)),
    apply_mask-apply_mask mask 0 frame.payload m a.are_bytes,
  )

  pub read_frame-encode_by :
      (kind : WriterKind) (mask : Mask) (frame : Frame) (rsv1 : Bool)
      → IsMask mask
      → Accepted frame rsv1
      → read_frame fl rounds (at_source s (bytes (encode_by kind mask frame rsv1) ++ rest))
        ≡ delivered frame rsv1 (at_source s rest)
  read_frame-encode_by client mask frame rsv1 m a = read_frame-encode_masked mask frame rsv1 m a
  read_frame-encode_by server mask frame rsv1 m a = read_frame-encode_plain frame rsv1 a

  -- What a writer put out for a frame that it could write.
  written_frame :
      (frame : Frame) (rsv1 : Bool) (w : Writer)
      → (write_frame frame rsv1 w).0 ≡ ok tt
      → (write_frame frame rsv1 w).1.written ≡ w.written ++ encode w frame rsv1
  written_frame frame rsv1 w e =
      let sent = write_frame-Wrote frame rsv1 w in
      sent.written
      ∙ ap (λ r. w.written ++ r)
          (take_all w.room (encode w frame rsv1) (ground (arith, sent.result)))

  -- A frame that a fresh writer of either kind has put out without an error is read back as it
  -- was, with the input behind it untouched: where the receiver accepts the frame, its compression
  -- flag is sent as RSV1, and it is not a frame that `read_frame` decompresses by itself.
  pub read_frame-write_frame :
      (frame : Frame) (w : Writer)
      → w.written ≡ []
      → (write_frame frame frame.compressed w).0 ≡ ok tt
      → Accepted frame frame.compressed
      → (frame.compressed && frame.final_fragment) ≡ false
      → read_frame fl rounds
          (at_source s (bytes (write_frame frame frame.compressed w).1.written ++ rest))
        ≡ (ok frame, at_source s rest)
  unfolding encode inflate
  read_frame-write_frame frame w fresh e a plain =
      let out =
        written_frame frame frame.compressed w e
        ∙ ap (λ r. r ++ encode_by w.kind (next_mask w) frame frame.compressed) fresh in
      rw out (
        read_frame-encode_by w.kind (next_mask w) frame frame.compressed (next_mask-IsMask w) a
        ∙ rw plain)
