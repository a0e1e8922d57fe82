-- ===== src/WsWriter.antt =====
-- src/split.rs, the writing half of a connection: messages are cut into frames, compressed where
-- that was agreed, and written. `src/connection.rs` passes each of its calls on to these. The
-- sleep that ends `close_connection` changes nothing and is left out.
pub mod Frames
pub mod Wire
pub mod Sent
pub mod Large
pub mod LargeSent
use socket_flow.Prelude.{
  ℕ, zero, suc, ◌+◌, ◌-◌, Bool, true, false, ◌&&◌, List, [], ◌∷◌, ◌++◌, ltb, ◌==◌, if◌then◌else◌,
  length,
}
use socket_flow.Error.{Outcome, ok, err, panic, max_message_size, custom_fragment_size_exceeded}
use socket_flow.Run.{Run, pure, fail, lift, gets, fail_if, on_part, ◌>>=◌, ◌>>◌}
use socket_flow.Config.{WebSocketConfig, size_or_default, deflate_enabled}
use socket_flow.Frame.{OpCode, Frame, new_frame}
use socket_flow.Message.{Message, as_binary}
use socket_flow.Utf8.{from_utf8}
use socket_flow.Chunks.{chunks}
use socket_flow.Writer.{Writer, write_frame}
use socket_flow.Flate.{Deflate}
use socket_flow.Encoder.{Encoder, compress}

pub record WsWriter (S : Type 0) : Type 0 where
  pub writer : Writer
  pub web_socket_config : WebSocketConfig
  pub encoder : Encoder S

-- The threshold `PAYLOAD_SIZE_COMPRESSION_ENABLE`.
abbrev pub payload_size_compression_enable : ℕ
payload_size_compression_enable = 1

is_empty : List Frame → Bool
is_empty [] = true
is_empty (f ∷ fs) = false

-- The loop of `convert_to_frames` over the chunks.
unfoldable pub push_chunks : OpCode → Bool → List Frame → List (List ℕ) → List Frame
unfolding is_empty
push_chunks opcode compressed frames [] = frames
push_chunks opcode compressed frames (chunk ∷ rest) =
    push_chunks opcode compressed
      (frames
        ++ new_frame false (if is_empty frames then opcode else OpCode.continue) chunk compressed
          ∷ [])
      rest

-- `frames.last_mut()` is made the final one.
unfoldable pub mark_last : List Frame → List Frame
mark_last [] = []
mark_last (f ∷ []) = record f { final_fragment = true } ∷ []
mark_last (f ∷ (g ∷ fs)) = f ∷ mark_last (g ∷ fs)

unfoldable pub opcode_of : Message → OpCode
opcode_of (Message.text bytes) = OpCode.text
opcode_of (Message.binary bytes) = OpCode.binary

unfoldable pub first_compressed : List Frame → Bool
first_compressed [] = false
first_compressed (f ∷ fs) = f.compressed

-- `payload.chunks(size)`, which panics on zero.
unfoldable pub chunks_or_panic : ℕ → List ℕ → Outcome (List (List ℕ))
chunks_or_panic size payload = if size == 0 then panic else ok (chunks size payload)

-- `rounds` is the fuel of the compression loops.
module _ (fl : Deflate) (rounds : ℕ) where
  abbrev pub Sending : Type 0 → Type 0
  Sending A = Run (WsWriter fl.State) A

  -- Whether the payload was compressed, and the payload that goes on.
  unfoldable pub check_compression : List ℕ → Sending (Bool × List ℕ)
  check_compression payload w =
      if deflate_enabled w.web_socket_config && ltb payload_size_compression_enable (length payload)
      then (do
        squeezed ←
            on_part (λ w. w.encoder) (λ w e. record w { encoder = e }) (compress fl rounds payload)
        pure (true, squeezed))
          w
      else (ok (false, payload), w)

  unfoldable pub frames_of : OpCode → List ℕ → Sending (List Frame)
  frames_of opcode [] = pure (new_frame true opcode [] false ∷ [])
  frames_of opcode (b ∷ bs) = do
    limit ← gets (λ w. size_or_default w.web_socket_config.max_frame_size)
    checked ← check_compression (b ∷ bs)
    parts ← lift (chunks_or_panic limit checked.1)
    pure (mark_last (push_chunks opcode checked.0 [] parts))

  unfoldable pub convert_to_frames : Message → Sending (List Frame)
  unfolding frames_of
  convert_to_frames message = frames_of (opcode_of message) (as_binary message)

  -- The loop of `write_frames`: only the first frame may carry RSV1.
  unfoldable pub write_each : Bool → List Frame → Sending Unit
  write_each set_rsv1 [] = pure tt
  write_each set_rsv1 (frame ∷ rest) = do
    on_part (λ w. w.writer) (λ w s. record w { writer = s }) (write_frame frame set_rsv1)
    write_each false rest

  unfoldable pub write_frames : List Frame → Sending Unit
  unfolding first_compressed
  write_frames frames = write_each (first_compressed frames) frames

  unfoldable pub write_message : Message → Sending Unit
  write_message message = do
    limit ← gets (λ w. size_or_default w.web_socket_config.max_message_size)
    fail_if (ltb limit (length (as_binary message))) max_message_size
    frames ← convert_to_frames message
    write_frames frames

  unfoldable pub send_message : Message → Sending Unit
  send_message message = write_message message

  unfoldable pub send : List ℕ → Sending Unit
  send bytes = do text ← lift (from_utf8 bytes); write_message (Message.text text)

  unfoldable pub send_as_binary : List ℕ → Sending Unit
  send_as_binary bytes = write_message (Message.binary bytes)

  -- The argument is a `String`.
  unfoldable pub send_as_text : List ℕ → Sending Unit
  send_as_text text = write_message (Message.text text)

  unfoldable pub send_ping : Sending Unit
  send_ping = write_frames (new_frame true OpCode.ping [] false ∷ [])

  unfoldable pub close_connection : Sending Unit
  close_connection = write_frames (new_frame true OpCode.close [] false ∷ [])

  -- The loop over the fragments, at index `i` of `total`.
  unfoldable pub write_fragments : Bool → ℕ → ℕ → List (List ℕ) → Sending Unit
  write_fragments compressed total i [] = pure tt
  write_fragments compressed total i (chunk ∷ rest) = do
    let is_final = i == total - 1
    let opcode = if i == 0 then OpCode.text else OpCode.continue
    write_frames (new_frame is_final opcode chunk compressed ∷ [])
    write_fragments compressed total (suc i) rest

  unfoldable pub send_large_data_fragmented : List ℕ → ℕ → Sending Unit
  send_large_data_fragmented payload fragment_size = do
    max_frame ← gets (λ w. size_or_default w.web_socket_config.max_frame_size)
    fail_if (ltb max_frame fragment_size) (custom_fragment_size_exceeded fragment_size max_frame)
    max_message ← gets (λ w. size_or_default w.web_socket_config.max_message_size)
    fail_if (ltb max_message (length payload)) max_message_size
    checked ← check_compression payload
    parts ← lift (chunks_or_panic fragment_size checked.1)
    write_fragments checked.0 (length parts) 0 parts
