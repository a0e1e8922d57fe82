-- ===== src/Reader/Waiting.antt =====
-- Where the loop of `poll_messages` in src/read.rs waits: at the channel of received messages, and
-- nowhere else for longer than the arrivals of the socket.
use socket_flow.Prelude.{
  ℕ, zero, suc, ◌+◌, ◌≤◌, ◌≡◌, ◌≢◌, Bool, true, false, Option, none, some, List, [], ◌++◌, length,
  ltb, ◌-◌, arith, Bool-cases, inl, inr,
}
use socket_flow.Error.{Error, Outcome, waits}
use socket_flow.Run.{Run, pure, fail_if, proceed}
use socket_flow.Run.Waits.{Waits, Waits-proceed, Waits-never}
use socket_flow.Frame.{OpCode, Frame, opcode_from}
use socket_flow.Message.{from_frame}
use socket_flow.Utf8.{from_utf8}
use socket_flow.Flate.{Inflate, Step, done, corrupt, Status}
use socket_flow.Decoder.{inflate_loop, after_call, decompress}
use socket_flow.Writer.{write_frame}
use socket_flow.Writer.Atomic.{write_frame-Wrote}
use socket_flow.Header.{parse_header}
use socket_flow.Reader.{
  FragmentedMessage, Channel, capacity, ReadStream, Reader, read_bytes, read_payload, read_header,
  read_length, read_mask, inflate, read_frame,
}
use socket_flow.Reader.Poll.{
  Flow, again, stop, send, write_reply, transmit_message, begin_message, whole_message,
  finish_message, continue_message, in_progress, dispatch, handle_frame, poll_messages,
  send_pong_frame, send_close_frame,
}

-- The receiver is there, and the channel holds all that it can.
abbrev pub IsFull : Channel → Type 0
IsFull c = (c.is_closed ≡ false) × (capacity + c.taken ≤ length c.sent)

parse_header_ne_waits : (deflate : Bool) (b0 b1 : ℕ) → parse_header deflate b0 b1 ≢ waits
unfolding parse_header opcode_from
parse_header_ne_waits deflate b0 b1 = ground arith

module _ {S : Type 0} where
  abbrev pub AtChannel : {A : Type 0} → Outcome A × ReadStream S → Type 0
  AtChannel = Waits (λ s. IsFull s.read_tx)

  read_bytes-AtChannel : (n : ℕ) (s : ReadStream S) → AtChannel (read_bytes n s)
  unfolding read_bytes
  read_bytes-AtChannel n s = ground arith

  read_payload-AtChannel : (n : ℕ) (s : ReadStream S) → AtChannel (read_payload n s)
  unfolding read_payload
  read_payload-AtChannel n s = ground arith

  transmit_message-AtChannel : (f : Frame) (s : ReadStream S) → AtChannel (transmit_message f s)
  unfolding transmit_message from_frame from_utf8 send
  transmit_message-AtChannel f s = ground arith

  write_reply-AtChannel : (f : Frame) (s : ReadStream S) → AtChannel (write_reply f s)
  unfolding write_reply
  write_reply-AtChannel f s =
      Waits-never (λ s. IsFull s.read_tx) (write_frame f false s.writer).0 _
        (let sent = write_frame-Wrote f false s.writer in ground (arith, sent.result))

  -- A chain of calls that wait at the channel only.
  chain :
      {A B : Type 0} (f : A → Run (ReadStream S) B) (r : Outcome A) (s : ReadStream S)
      → AtChannel (r, s)
      → ((a : A) (t : ReadStream S) → AtChannel (f a t))
      → AtChannel (proceed r f s)
  chain = Waits-proceed (λ s. IsFull s.read_tx)

  read_header-AtChannel : (s : ReadStream S) → AtChannel (read_header s)
  unfolding read_header
  read_header-AtChannel s =
      chain _ _ _ (read_bytes-AtChannel 2 s)
        λ h t. Waits-never (λ s. IsFull s.read_tx) _ t (parse_header_ne_waits _ _ _)

  read_length-AtChannel : (n : ℕ) (s : ReadStream S) → AtChannel (read_length n s)
  unfolding read_length read_bytes
  read_length-AtChannel n s = ground arith

  read_mask-AtChannel : (m : Bool) (s : ReadStream S) → AtChannel (read_mask m s)
  unfolding read_mask read_bytes
  read_mask-AtChannel m s = ground arith

module _ (fl : Inflate) (rounds : ℕ) where
  after_call_ne_waits :
      (more : List ℕ → List ℕ → fl.State → Outcome (List ℕ) × fl.State)
      → ((buffer out : List ℕ) (t : fl.State) → (more buffer out t).0 ≢ waits)
      → (buffer out : List ℕ) (step : Step fl.State) → (after_call more buffer out step).0 ≢ waits
  unfolding after_call
  after_call_ne_waits more ih buffer out (corrupt t) = λ e. cc
  after_call_ne_waits more ih buffer out (done t chunk Status.ok) = ih [] _ t
  after_call_ne_waits more ih buffer out (done t chunk Status.stream_end) = λ e. cc
  after_call_ne_waits more ih buffer out (done t chunk Status.buf_error) = ih _ out t

  inflate_loop_ne_waits :
      (fuel n before : ℕ) (payload buffer out : List ℕ) (s : fl.State)
      → (inflate_loop fl fuel n before payload buffer out s).0 ≢ waits
  unfolding inflate_loop
  inflate_loop_ne_waits zero n before payload buffer out s = λ e. cc
  inflate_loop_ne_waits (suc fuel) n before payload buffer out s =
      elim (Bool-cases (ltb (fl.total_in s - before) (length payload))) [
        | inl more ↦ rw more (
            after_call_ne_waits (inflate_loop fl fuel n before payload)
              (inflate_loop_ne_waits fuel n before payload) buffer out _)
        | inr over ↦ rw over (λ p. cc)
      ]

  inflate-AtChannel :
      (compressed : Bool) (payload : List ℕ) (s : ReadStream fl.State)
      → AtChannel (inflate fl rounds compressed payload s)
  unfolding inflate decompress
  inflate-AtChannel true payload s =
      Waits-never (λ s. IsFull s.read_tx) _ _ (inflate_loop_ne_waits rounds _ _ _ [] [] _)
  inflate-AtChannel false payload s = tt

  fail_if-AtChannel : (b : Bool) (e : Error) (s : ReadStream fl.State) → AtChannel (fail_if b e s)
  fail_if-AtChannel true e s = tt
  fail_if-AtChannel false e s = tt

  read_frame-AtChannel : (s : ReadStream fl.State) → AtChannel (read_frame fl rounds s)
  unfolding read_frame
  read_frame-AtChannel s = chain _ _ _ (read_header-AtChannel s) λ header s1.
      chain _ _ _ (read_length-AtChannel header.length s1) λ n s2.
        chain _ _ _ (fail_if-AtChannel _ _ s2) λ u s3.
          chain _ _ _ (read_mask-AtChannel header.masked s3) λ mask s4.
            chain _ _ _ (read_payload-AtChannel n s4)
              λ received s5. chain _ _ _ (inflate-AtChannel _ _ s5) λ payload s6. tt

  begin_message-AtChannel :
      (f : Frame) (m : Option FragmentedMessage) (s : ReadStream fl.State)
      → AtChannel (begin_message f m s)
  unfolding begin_message
  begin_message-AtChannel f none s = tt
  begin_message-AtChannel f (some m) s = tt

  whole_message-AtChannel :
      (f : Frame) (m : Option FragmentedMessage) (s : ReadStream fl.State)
      → AtChannel (whole_message f m s)
  unfolding whole_message
  whole_message-AtChannel f none s = transmit_message-AtChannel f s
  whole_message-AtChannel f (some m) s = tt

  finish_message-AtChannel :
      (m : FragmentedMessage) (s : ReadStream fl.State) → AtChannel (finish_message fl rounds m s)
  unfolding finish_message
  finish_message-AtChannel m s =
      chain _ _ _ (inflate-AtChannel _ _ s) λ fragments t. transmit_message-AtChannel _ t

  continue_message-AtChannel :
      (f : Frame) (m : Option FragmentedMessage) (s : ReadStream fl.State)
      → AtChannel (continue_message fl rounds f m s)
  unfolding continue_message
  continue_message-AtChannel f none s = tt
  continue_message-AtChannel f (some m) s = ground (
    arith,
    finish_message-AtChannel (record m { fragments = m.fragments ++ f.payload })
        (record s { fragmented_message = none }),
  )

  in_progress-AtChannel :
      (handle : Option FragmentedMessage → Reader fl rounds Unit) (s : ReadStream fl.State)
      → ((m : Option FragmentedMessage) (t : ReadStream fl.State) → AtChannel (handle m t))
      → AtChannel (in_progress fl rounds handle s)
  unfolding in_progress
  in_progress-AtChannel handle s h = chain _ _ _ (h s.fragmented_message s) λ u t. tt

  dispatch-AtChannel :
      (op : OpCode) (final : Bool) (f : Frame) (s : ReadStream fl.State)
      → AtChannel (dispatch fl rounds op final f s)
  unfolding dispatch send_close_frame send_pong_frame
  dispatch-AtChannel OpCode.text false f s = in_progress-AtChannel _ s (begin_message-AtChannel f)
  dispatch-AtChannel OpCode.binary false f s = in_progress-AtChannel _ s (begin_message-AtChannel f)
  dispatch-AtChannel OpCode.continue b f s =
      in_progress-AtChannel _ s (continue_message-AtChannel f)
  dispatch-AtChannel OpCode.text true f s = in_progress-AtChannel _ s (whole_message-AtChannel f)
  dispatch-AtChannel OpCode.binary true f s = in_progress-AtChannel _ s (whole_message-AtChannel f)
  dispatch-AtChannel OpCode.close b f s = chain _ _ _ (write_reply-AtChannel _ s) λ u t. tt
  dispatch-AtChannel OpCode.ping b f s = chain _ _ _ (write_reply-AtChannel _ s) λ u t. tt
  dispatch-AtChannel OpCode.pong b f s = tt

  after_flow-AtChannel :
      (fuel : ℕ) (flow : Flow) (t : ReadStream fl.State)
      → ((u : ReadStream fl.State) → AtChannel (poll_messages fl rounds fuel u))
      → AtChannel (
          (elim flow as (λ x. Run (ReadStream fl.State) Unit) [
            | again ↦ poll_messages fl rounds fuel
            | stop ↦ pure tt
          ])
            t)
  after_flow-AtChannel fuel again t ih = ih t
  after_flow-AtChannel fuel stop t ih = tt

  -- Wherever the loop waits for its user, the channel is full and the receiver is there.
  pub poll_messages-AtChannel :
      (fuel : ℕ) (s : ReadStream fl.State) → AtChannel (poll_messages fl rounds fuel s)
  unfolding poll_messages handle_frame
  poll_messages-AtChannel zero s = tt
  poll_messages-AtChannel (suc fuel) s = chain _ _ _ (read_frame-AtChannel s) λ f t.
      chain _ _ _ (dispatch-AtChannel f.opcode f.final_fragment f t)
        λ flow u. after_flow-AtChannel fuel flow u (poll_messages-AtChannel fuel)
