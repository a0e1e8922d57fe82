-- ===== src/Delivery/EndToEnd.antt =====
-- `write_message` of src/split.rs against `poll_messages` of src/read.rs.
use socket_flow.Prelude.{
  ℕ, ◌+◌, ◌*◌, ◌≤◌, ◌<◌, ◌^◌, ◌≡◌, refl, ap, ◌∙◌, true, false, List, [], ◌++◌, length, ◌⊎◌, inl,
  inr, IsBytes, arith,
}
use socket_flow.Error.{ok}
use socket_flow.Config.{size_or_default, deflate_enabled}
use socket_flow.Frame.{OpCode, new_frame}
use socket_flow.Message.{Message, as_binary, from_frame}
use socket_flow.Message.Conversion.{IsProper, opcode_for, from_frame_iff}
use socket_flow.Flate.{Deflate, Inflate}
use socket_flow.Source.{Arrival, bytes}
use socket_flow.Reader.{HasRoom, ReadStream}
use socket_flow.Reader.Poll.{poll_messages}
use socket_flow.Reader.Steps.{rounds_after, poll_messages-Steps}
use socket_flow.Reader.Parts.{idle, delivered}
use socket_flow.Reader.Assembly.{message_Steps}
use socket_flow.WsWriter.{WsWriter, opcode_of, write_message}
use socket_flow.WsWriter.Wire.{write_message-SentAs}
use socket_flow.WsWriter.Sent.{write_message_succeeds}

opcode_of_data : (m : Message) → (opcode_of m ≡ OpCode.text) ⊎ (opcode_of m ≡ OpCode.binary)
unfolding opcode_of
opcode_of_data (Message.text bs) = inl refl
opcode_of_data (Message.binary bs) = inr refl

opcode_for-opcode_of : (m : Message) → opcode_of m ≡ opcode_for m
unfolding opcode_of
opcode_for-opcode_of (Message.text bs) = refl
opcode_for-opcode_of (Message.binary bs) = refl

from_frame_whole :
    (m : Message)
    → IsProper m
    → from_frame (new_frame true (opcode_of m) (as_binary m) false) ≡ ok m
from_frame_whole m proper =
    (from_frame_iff (new_frame true (opcode_of m) (as_binary m) false) m).1
      (opcode_for-opcode_of m, refl, proper)

module _ (df : Deflate) (fl : Inflate) (rounds : ℕ) (w : WsWriter df.State)
    (s : ReadStream fl.State) (off : deflate_enabled w.web_socket_config ≡ false)
    (some_room : 0 < size_or_default w.web_socket_config.max_frame_size)
    (in_64_bits : size_or_default w.web_socket_config.max_frame_size < 2 ^ 64)
    (open_end : HasRoom s.read_tx)
    (frames_fit : size_or_default w.web_socket_config.max_frame_size
      ≤ size_or_default s.config.max_frame_size)
    (messages_fit : size_or_default w.web_socket_config.max_message_size
      ≤ size_or_default s.config.max_message_size) where
  -- The bytes that a message adds to the wire, and what a receiver makes of them.
  pub record Arrives (m : Message) (rest : List Arrival) : Type 0 where
    pub done : (write_message df rounds m w).0 ≡ ok tt
    pub out : List ℕ
    pub gone : (write_message df rounds m w).1.writer.written ≡ w.writer.written ++ out
    pub round_count : ℕ
    pub delivers :
        (fuel : ℕ)
        → poll_messages fl rounds
            (rounds_after fl rounds round_count fuel)
            (idle s (bytes out ++ rest))
          ≡ poll_messages fl rounds fuel (delivered (idle s rest) m)

  pub message_Arrives :
      (m : Message) (rest : List Arrival)
      → IsProper m
      → IsBytes (as_binary m)
      → length (as_binary m) ≤ size_or_default w.web_socket_config.max_message_size
      → 15 * length (as_binary m) + 14 ≤ w.writer.room
      → Arrives m rest
  message_Arrives m rest proper are_bytes within room =
      let done = write_message_succeeds df rounds w off some_room m within room in
      let sent = write_message-SentAs df rounds w off some_room m done in
      let (n, steps) =
        message_Steps fl rounds w.writer.kind s (size_or_default w.web_socket_config.max_frame_size)
          rest frames_fit in_64_bits (opcode_of m) m open_end (as_binary m) sent.frames sent.out
          (opcode_of_data m) sent.fragments sent.on_wire are_bytes (omega arith)
          (from_frame_whole m proper) in
      record {
        done = done;
        out = sent.out;
        gone = sent.written;
        round_count = n;
        delivers = λ fuel. poll_messages-Steps fl rounds fuel steps;
      }

  module _ (fresh : w.writer.written ≡ []) where
    -- Let the sender have written nothing yet, compression be off there and its frame limit be at
    -- least one byte and less than 2^64; let the receiver's limits be no lower than the sender's,
    -- and its channel be open and have room. A message of bytes, in UTF-8 if it is a text, that is
    -- within the sender's limit is sent without an error where the connection still takes 15 bytes
    -- for each of its bytes and 14 more; and from the bytes that it is on the wire, whatever
    -- arrives behind them, the receiver that is not in a message delivers that message and nothing
    -- else, is at the end of those bytes, and goes on from there.
    pub sent_message_arrives :
        (m : Message) (rest : List Arrival)
        → IsProper m
        → IsBytes (as_binary m)
        → length (as_binary m) ≤ size_or_default w.web_socket_config.max_message_size
        → 15 * length (as_binary m) + 14 ≤ w.writer.room
        → ((write_message df rounds m w).0 ≡ ok tt)
          × (n : ℕ) × ((fuel : ℕ)
              → poll_messages fl rounds
                  (rounds_after fl rounds n fuel)
                  (idle s (bytes (write_message df rounds m w).1.writer.written ++ rest))
                ≡ poll_messages fl rounds fuel (delivered (idle s rest) m))
    sent_message_arrives m rest proper are_bytes within room =
        let arrives = message_Arrives m rest proper are_bytes within room in
        let gone = arrives.gone ∙ ap (λ b. b ++ arrives.out) fresh in
        (arrives.done, arrives.round_count, λ fuel. rw gone (arrives.delivers fuel))
