-- ===== src/Examples/Receiving.antt =====
-- The properties of the receiving half, and of the two halves together, at concrete inputs.
use socket_flow.Prelude.{
  ℕ, ◌≡◌, ◌≢◌, refl, ◌↔◌, inl, inr, true, false, some, List, [], ◌∷◌, ◌++◌, arith,
}
use socket_flow.Error.{ok, err, hang, max_frame_size, max_message_size}
use socket_flow.Frame.{OpCode, Frame, new_frame, is_control, opcode_from}
use socket_flow.Message.{Message, from_frame, as_binary}
use socket_flow.Flate.Stored.{stored, stored_laws}
use socket_flow.Decoder.{
  decompress, inflate_loop, after_call, calculate_buffer_size, deflate_trailer,
}
use socket_flow.Decoder.Loop.{Kept, decompress_ends, decompress_keeps}
use socket_flow.Source.{Arrival, byte, tick, bytes}
use socket_flow.Header.{parse_header, from_be_bytes}
use socket_flow.Header.Checks.{IsHeader, parse_header-IsHeader_iff}
use socket_flow.Writer.{client, server, Mask, write_frame}
use socket_flow.Writer.Encoding.{encode, encode_by, encode_plain, length_bytes}
use socket_flow.Reader.{Delivery, ReadStream, FragmentedMessage, read_frame}
use socket_flow.Reader.Poll.{again, handle_frame, poll_messages}
use socket_flow.Reader.Reads.{at_source}
use socket_flow.Reader.RoundTrip.{read_frame-write_frame}
use socket_flow.Reader.Steps.{Steps, here, next, rounds_after}
use socket_flow.Reader.Parts.{idle, delivered, handle_begin}
use socket_flow.Reader.Rounds.{IsWellFormed}
use socket_flow.Run.Waits.{Ended}
use socket_flow.Reader.Waiting.{IsFull}
use socket_flow.Reader.Ending.{poll_messages_ends, Steps-IsWellFormed}
use socket_flow.Reader.Refusals.{over_limit, handle_frame_refuses}
use socket_flow.Reader.Control.{ponged, Answered, handle_frame-Answered}
use socket_flow.Reader.Limits.{in_eight, read_frame_over_limit, whole_frame_delivered}
use socket_flow.WsWriter.{write_message}
use socket_flow.WsWriter.Sent.{write_frame_ok}
use socket_flow.Delivery.EndToEnd.{sent_message_arrives}
use socket_flow.Flate.Copying.{copying}
use socket_flow.Examples.{small_limits, small_deflate, fresh_writer, ws_writer, read_stream}

abbrev five : List ℕ
five = 104 ∷ 101 ∷ 108 ∷ 108 ∷ 111 ∷ []

abbrev hello : Message
hello = Message.binary five

abbrev behind : List Arrival
behind = tick ∷ byte 137 ∷ []

abbrev here_now : ReadStream ℕ
here_now = read_stream small_limits

sent_message_arrives_example :
    ((write_message copying 0 hello (ws_writer client small_limits)).0 ≡ ok tt)
    × (n : ℕ) × ((fuel : ℕ)
        → poll_messages stored 0 (rounds_after stored 0 n fuel) (
            idle here_now (
              bytes (write_message copying 0 hello (ws_writer client small_limits)).1.writer.written
              ++ behind))
          ≡ poll_messages stored 0 fuel (delivered (idle here_now behind) hello))
unfolding as_binary
sent_message_arrives_example =
    sent_message_arrives copying stored 0 (ws_writer client small_limits) here_now refl
      (omega arith) (omega arith) (refl, omega arith) (omega arith) (omega arith) refl hello behind
      tt (omega arith) (omega arith) (omega arith)

abbrev a_part : Frame
a_part = new_frame false OpCode.text (104 ∷ 105 ∷ []) true

read_frame-write_frame_example :
    read_frame stored 0 (
      at_source
        (read_stream small_deflate)
        (bytes (write_frame a_part true (fresh_writer client)).1.written ++ behind))
    ≡ (ok a_part, at_source (read_stream small_deflate) behind)
unfolding is_control
read_frame-write_frame_example =
    read_frame-write_frame stored 0 (read_stream small_deflate) behind a_part (fresh_writer client)
      refl (write_frame_ok a_part true (fresh_writer client) (omega arith)).0
      (record {
        are_bytes = omega arith;
        fits = omega arith;
        in_64_bits = omega arith;
        rsv1_allowed = λ e. refl;
        control_whole = λ e. cc;
        control_short = λ e. omega arith;
      })
      refl

parse_header-IsHeader_iff_example :
    (parse_header false 0x89 0x82
      ≡ ok (record {
        final_fragment = true;
        opcode = OpCode.ping;
        rsv1 = false;
        masked = true;
        length = 2;
      }))
    ↔ IsHeader false 0x89 0x82 (record {
      final_fragment = true;
      opcode = OpCode.ping;
      rsv1 = false;
      masked = true;
      length = 2;
    })
parse_header-IsHeader_iff_example =
    parse_header-IsHeader_iff false 0x89 0x82
      (record {
        final_fragment = true;
        opcode = OpCode.ping;
        rsv1 = false;
        masked = true;
        length = 2;
      })
      (omega arith) (omega arith)

abbrev some_mask : Mask
some_mask = record { m0 = 1; m1 = 20; m2 = 255; m3 = 0 }

-- A reader that holds the first eight bytes of a message of at most ten.
abbrev held : FragmentedMessage
held = record { fragments = five ++ (1 ∷ 2 ∷ 3 ∷ []); op_code = OpCode.text; compressed = false }

abbrev in_message : ReadStream ℕ
in_message = record here_now { fragmented_message = some held }

poll_messages_ends_example :
    Ended (λ t. IsFull t.read_tx) (poll_messages stored 20 3 (at_source here_now behind))
poll_messages_ends_example =
    poll_messages_ends stored stored_laws 20 10 (λ s input h. omega (arith, h)) small_limits
      (omega arith) (omega arith) 3 (at_source here_now behind) refl tt (omega arith)

abbrev first_part : Frame
first_part = new_frame false OpCode.text (104 ∷ 105 ∷ []) false

-- The first frame of a message that is not over.
begun :
    Steps stored 20 1
      (at_source here_now
        (bytes (write_frame first_part false (fresh_writer client)).1.written ++ behind))
      (record here_now {
        source = behind;
        fragmented_message =
            some (record { fragments = 104 ∷ 105 ∷ []; op_code = OpCode.text; compressed = false });
      })
unfolding is_control
begun =
    next 0 _ (at_source here_now behind) _ _ first_part
      (read_frame-write_frame stored 20 here_now behind first_part (fresh_writer client) refl
        (write_frame_ok first_part false (fresh_writer client) (omega arith)).0
        (record {
          are_bytes = omega arith;
          fits = omega arith;
          in_64_bits = omega arith;
          rsv1_allowed = λ e. cc;
          control_whole = λ e. cc;
          control_short = λ e. omega arith;
        })
        refl)
      (handle_begin stored 20 client here_now OpCode.text (104 ∷ 105 ∷ []) behind (inl refl))
      (here _)

Steps-IsWellFormed_example :
    (small_limits ≡ small_limits)
    × IsWellFormed small_limits
        (some (record { fragments = 104 ∷ 105 ∷ []; op_code = OpCode.text; compressed = false }))
Steps-IsWellFormed_example =
    Steps-IsWellFormed stored stored_laws 20 10 (λ s input h. omega (arith, h)) small_limits
      (omega arith) (omega arith) begun refl tt

handle_frame_refuses_example :
    ((handle_frame stored 0 (new_frame true OpCode.continue five false) in_message).0
      ≡ err max_message_size)
    × ((handle_frame stored 0 (new_frame true OpCode.continue five false) in_message).1.source ≡ [])
    × ((handle_frame stored 0 (new_frame true OpCode.continue five false) in_message).1.read_tx
        ≡ in_message.read_tx)
    × ((handle_frame stored 0 (new_frame true OpCode.continue five false) in_message).1.writer
        ≡ in_message.writer)
    × ((handle_frame stored 0 (new_frame true OpCode.continue five false) in_message).1.decoder
        ≡ in_message.decoder)
handle_frame_refuses_example =
    handle_frame_refuses stored 0 (new_frame true OpCode.continue five false) in_message (some held)
      max_message_size refl (over_limit held refl (omega arith))

handle_frame-Answered_example :
    Answered stored 0
      (new_frame true OpCode.ping (1 ∷ 2 ∷ []) false)
      here_now
      (new_frame true OpCode.pong (1 ∷ 2 ∷ []) false ∷ [])
      again
unfolding encode encode_plain length_bytes
handle_frame-Answered_example =
    handle_frame-Answered stored 0 (new_frame true OpCode.ping (1 ∷ 2 ∷ []) false) here_now
      (new_frame true OpCode.pong (1 ∷ 2 ∷ []) false ∷ []) again ponged (omega arith)

-- Three bytes, announced in eight.
abbrev long_form : List ℕ
long_form = 0 ∷ 0 ∷ 0 ∷ 0 ∷ 0 ∷ 0 ∷ 0 ∷ 3 ∷ []

read_frame_over_limit_example :
    read_frame stored 0 (at_source here_now (byte 130 ∷ byte 127 ∷ (bytes long_form ++ behind)))
    ≡ (err max_frame_size, at_source here_now behind)
unfolding from_be_bytes is_control
read_frame_over_limit_example =
    read_frame_over_limit stored 0 here_now 130 127 3
      (record {
        final_fragment = true;
        opcode = OpCode.binary;
        rsv1 = false;
        masked = false;
        length = 127;
      })
      long_form behind (unfold parse_header opcode_from in refl) (in_eight long_form refl)
      (omega arith)

-- The limit for a message is one byte, and a message of two bytes arrives.
abbrev one_byte : ReadStream ℕ
one_byte = read_stream (record small_limits { max_message_size = some 1 })

whole_frame_delivered_example :
    Steps stored 0 1
      (idle one_byte (
        bytes (encode_by server some_mask (new_frame true OpCode.binary (7 ∷ 8 ∷ []) false) false)
        ++ behind))
      (delivered (idle one_byte behind) (Message.binary (7 ∷ 8 ∷ [])))
whole_frame_delivered_example =
    whole_frame_delivered stored 0 one_byte server some_mask OpCode.binary (7 ∷ 8 ∷ [])
      (Message.binary (7 ∷ 8 ∷ [])) behind (omega arith) (omega arith) (inr refl) (omega arith)
      (omega arith) (unfold from_frame in refl) (refl, omega arith)

decompress_ends_example :
    (decompress stored 20 five (record { decompressor = 0; reset_context = true })).0 ≢ hang
decompress_ends_example =
    decompress_ends stored stored_laws 20 five (record { decompressor = 0; reset_context = true })
      (omega arith)

decompress_keeps_example :
    Kept stored stored_laws 4096 0
      (five ++ deflate_trailer)
      (five ++ deflate_trailer)
      (five ++ deflate_trailer)
      (decompress stored 20 five (record { decompressor = 0; reset_context = true })).1.decompressor
unfolding calculate_buffer_size
decompress_keeps_example =
    decompress_keeps stored stored_laws 20 five (record { decompressor = 0; reset_context = true })
      (five ++ deflate_trailer) (unfold decompress inflate_loop after_call in refl)
