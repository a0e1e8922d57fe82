-- ===== src/Reader/Poll.antt =====
-- src/read.rs, `poll_messages` and what it calls: a received frame becomes a part of a message, a
-- message in the channel, or an answer on the socket. The task around the loop is that of
-- `second_stage_handshake` in src/handshake.rs.
use socket_flow.Prelude.{
  ℕ, zero, suc, ◌+◌, Bool, true, false, Option, none, some, List, [], ◌∷◌, ◌++◌, ltb, if◌then◌else◌,
  length,
}
use socket_flow.Error.{
  Outcome, ok, err, panic, hang, waits, max_message_size, communication_error,
  fragmented_in_progress, invalid_continuation_frame, invalid_frame_fragmentation,
}
use socket_flow.Run.{Run, pure, fail, lift, gets, on_part, ◌>>=◌, ◌>>◌}
use socket_flow.Config.{size_or_default}
use socket_flow.Frame.{OpCode, Frame, new_frame}
use socket_flow.Message.{from_frame}
use socket_flow.Utf8.{from_utf8}
use socket_flow.Writer.{write_frame}
use socket_flow.Flate.{Inflate}
use socket_flow.Reader.{
  FragmentedMessage, capacity, Delivery, message, failure, Channel, ReadStream, Reader, inflate,
  read_frame,
}

-- `read_tx.send(..)`, which fails where the receiver is gone, and waits for the user to take
-- something where the channel is full.
unfoldable pub send : Delivery → Channel → Outcome (Unit {0}) × Channel
send d c =
    if c.is_closed
    then (err communication_error, c)
    else if ltb (length c.sent) (capacity + c.taken)
    then (ok tt, record c { sent = c.sent ++ d ∷ [] })
    else (waits, c)

pub check_text : OpCode → List ℕ → Outcome (Unit {0})
check_text OpCode.text payload = elim (from_utf8 payload) [
  | ok bytes ↦ ok tt
  | err e ↦ err e
  | panic ↦ panic
  | hang ↦ hang
  | waits ↦ waits
]
check_text _ payload = ok tt

module _ {S : Type 0} where
  unfoldable pub write_reply : Frame → Run (ReadStream S) Unit
  write_reply frame =
      on_part (λ s. s.writer) (λ s w. record s { writer = w }) (write_frame frame false)

  unfoldable pub send_pong_frame : List ℕ → Run (ReadStream S) Unit
  unfolding write_reply
  send_pong_frame payload = write_reply (new_frame true OpCode.pong payload false)

  unfoldable pub send_close_frame : Run (ReadStream S) Unit
  unfolding write_reply
  send_close_frame = write_reply (new_frame true OpCode.close [] false)

  unfoldable pub transmit_message : Frame → Run (ReadStream S) Unit
  unfolding check_text
  transmit_message frame = do
    lift (check_text frame.opcode frame.payload)
    received ← lift (from_frame frame)
    on_part (λ s. s.read_tx) (λ s c. record s { read_tx = c }) (send (message received))

  -- The first frame of a fragmented message.
  unfoldable pub begin_message : Frame → Option FragmentedMessage → Run (ReadStream S) Unit
  begin_message frame none s = (
    ok tt,
    record s {
      fragmented_message = some (record {
        fragments = frame.payload;
        op_code = frame.opcode;
        compressed = frame.compressed;
      });
    },
  )
  begin_message frame (some m) s = (err fragmented_in_progress, s)

  -- A message in one frame.
  unfoldable pub whole_message : Frame → Option FragmentedMessage → Run (ReadStream S) Unit
  whole_message frame none = transmit_message frame
  whole_message frame (some m) = fail invalid_frame_fragmentation

pub data Flow : Type 0 where
  again stop : Flow

module _ (fl : Inflate) (rounds : ℕ) where
  unfoldable pub finish_message : FragmentedMessage → Reader fl rounds Unit
  finish_message m = do
    fragments ← inflate fl rounds m.compressed m.fragments
    transmit_message (new_frame true m.op_code fragments false)

  -- A further frame: the payload is added before the limit is tested, and stays added.
  unfoldable pub continue_message : Frame → Option FragmentedMessage → Reader fl rounds Unit
  continue_message frame none s = (err invalid_continuation_frame, s)
  continue_message frame (some m) s =
      let m' = record m { fragments = m.fragments ++ frame.payload } in
      if ltb (size_or_default s.config.max_message_size) (length m'.fragments)
      then (err max_message_size, record s { fragmented_message = some m' })
      else if frame.final_fragment
      then finish_message m' (record s { fragmented_message = none })
      else (ok tt, record s { fragmented_message = some m' })

  unfoldable pub in_progress :
      (Option FragmentedMessage → Reader fl rounds Unit) → Reader fl rounds Flow
  in_progress handle = do m ← gets (λ s. s.fragmented_message); handle m; pure again

  unfoldable pub dispatch : OpCode → Bool → Frame → Reader fl rounds Flow
  dispatch OpCode.text false frame = in_progress (begin_message frame)
  dispatch OpCode.binary false frame = in_progress (begin_message frame)
  dispatch OpCode.continue _ frame = in_progress (continue_message frame)
  dispatch OpCode.text true frame = in_progress (whole_message frame)
  dispatch OpCode.binary true frame = in_progress (whole_message frame)
  dispatch OpCode.close _ frame = do send_close_frame; pure stop
  dispatch OpCode.ping _ frame = do send_pong_frame frame.payload; pure again
  dispatch OpCode.pong _ frame = pure again

  unfoldable pub handle_frame : Frame → Reader fl rounds Flow
  unfolding in_progress dispatch
  handle_frame frame = dispatch frame.opcode frame.final_fragment frame

  -- The loop, on fuel.
  unfoldable pub poll_messages : ℕ → Reader fl rounds Unit
  poll_messages zero = λ s. (hang, s)
  poll_messages (suc fuel) = do
    frame ← read_frame fl rounds
    flow ← handle_frame frame
    elim flow [ again ↦ poll_messages fuel | stop ↦ pure tt ]

  unfoldable pub report : Outcome (Unit {0}) → ReadStream fl.State → ReadStream fl.State
  report (err e) s = record s { read_tx = (send (failure e) s.read_tx).1 }
  report _ s = s

  -- The spawned task: an error of the loop goes into the channel.
  unfoldable pub run_reader : ℕ → ReadStream fl.State → ReadStream fl.State
  unfolding report
  run_reader fuel s = let (r, s') = poll_messages fuel s in report r s'
