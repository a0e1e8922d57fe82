-- ===== src/Reader/Refusals.antt =====
-- The frames that `poll_messages` in src/read.rs refuses for where they stand in a message.
use socket_flow.Prelude.{
  ℕ, ◌<◌, ◌≡◌, ◌⊎◌, refl, true, false, Option, none, some, ◌++◌, lt→ltb, length, arith,
}
use socket_flow.Error.{
  Error, err, max_message_size, fragmented_in_progress, invalid_continuation_frame,
  invalid_frame_fragmentation,
}
use socket_flow.Config.{size_or_default}
use socket_flow.Frame.{OpCode, Frame}
use socket_flow.Flate.{Inflate}
use socket_flow.Reader.{ReadStream, FragmentedMessage}
use socket_flow.Reader.Poll.{handle_frame, begin_message, whole_message, continue_message}

abbrev pub IsData : OpCode → Type 0
IsData op = (op ≡ OpCode.text) ⊎ (op ≡ OpCode.binary)

-- A frame against RFC 6455's rules on fragmentation, and the limit for a message, given the message
-- in progress; with the error that names the rule.
pub data Refused (limit : ℕ) (frame : Frame) : Option FragmentedMessage → Error → Type 0 where
  begun_again :
      (m : FragmentedMessage)
      → IsData frame.opcode
      → frame.final_fragment ≡ false
      → Refused limit frame (some m) fragmented_in_progress
  whole_inside :
      (m : FragmentedMessage)
      → IsData frame.opcode
      → frame.final_fragment ≡ true
      → Refused limit frame (some m) invalid_frame_fragmentation
  nothing_begun :
      frame.opcode ≡ OpCode.continue → Refused limit frame none invalid_continuation_frame
  over_limit :
      (m : FragmentedMessage)
      → frame.opcode ≡ OpCode.continue
      → limit < length (m.fragments ++ frame.payload)
      → Refused limit frame (some m) max_message_size

module _ (fl : Inflate) (rounds : ℕ) where
  -- A frame against the rules on fragmentation, or that makes its message longer than the limit,
  -- is refused with the error for that rule; nothing of it is handed on or answered: the input,
  -- the channel, the writer and the decoder are left as they were.
  pub handle_frame_refuses :
      (frame : Frame) (s : ReadStream fl.State) (m : Option FragmentedMessage) (e : Error)
      → s.fragmented_message ≡ m
      → Refused (size_or_default s.config.max_message_size) frame m e
      → ((handle_frame fl rounds frame s).0 ≡ err e)
        × ((handle_frame fl rounds frame s).1.source ≡ s.source)
        × ((handle_frame fl rounds frame s).1.read_tx ≡ s.read_tx)
        × ((handle_frame fl rounds frame s).1.writer ≡ s.writer)
        × ((handle_frame fl rounds frame s).1.decoder ≡ s.decoder)
  unfolding handle_frame begin_message whole_message continue_message
  handle_frame_refuses frame s m e h (begun_again m' d f) = ground arith
  handle_frame_refuses frame s m e h (whole_inside m' d f) = ground arith
  handle_frame_refuses frame s m e h (nothing_begun c) = ground arith
  handle_frame_refuses frame s m e h (over_limit m' c long) =
      rw (c, h, lt→ltb _ _ long) (refl, refl, refl, refl, refl)
