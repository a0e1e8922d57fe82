-- ===== src/Reader/Rounds.antt =====
-- What handling a frame in src/read.rs does to a reader that is in order.
use socket_flow.Prelude.{
  ℕ, ◌≤◌, max, ◌≡◌, ◌≢◌, refl, ◌∙◌, Bool, true, false, ◌&&◌, Option, none, some, List, [], ◌++◌,
  length, ◌⊎◌, inl, inr, Bool-cases, ltb, arith,
}
use socket_flow.Error.{Outcome, hang}
use socket_flow.Run.{Run, pure}
use socket_flow.Run.Rules.{Post, Post-proceed, Post-lift, Post-weaken}
use socket_flow.Config.{WebSocketConfig, size_or_default}
use socket_flow.Frame.{OpCode, Frame, new_frame}
use socket_flow.Message.{from_frame}
use socket_flow.Utf8.{from_utf8}
use socket_flow.Flate.{Inflate}
use socket_flow.Writer.{write_frame}
use socket_flow.Writer.Atomic.{write_frame-Wrote}
use socket_flow.Reader.{ReadStream, FragmentedMessage, Reader, inflate}
use socket_flow.Reader.Poll.{
  Flow, again, stop, send, write_reply, transmit_message, begin_message, whole_message,
  finish_message, continue_message, in_progress, dispatch, handle_frame, send_pong_frame,
  send_close_frame,
}
use socket_flow.Reader.Progress.{Took, EndsWithin, inflate-Post}

-- The message in progress is of a data frame, and within the limits for a frame and a message.
abbrev pub IsWellFormed : WebSocketConfig → Option FragmentedMessage → Type 0
IsWellFormed cfg none = Unit
IsWellFormed cfg (some m) =
    ((m.op_code ≡ OpCode.text) ⊎ (m.op_code ≡ OpCode.binary))
    × (length m.fragments
        ≤ max (size_or_default cfg.max_frame_size) (size_or_default cfg.max_message_size))

module _ {S : Type 0} where
  -- What a call that only writes or sends leaves alone.
  pub record Kept (s t : ReadStream S) : Type 0 where
    pub config : t.config ≡ s.config
    pub source : t.source ≡ s.source
    pub fragmented : t.fragmented_message ≡ s.fragmented_message

  Kept-Post :
      (s : ReadStream S) (r : Outcome (Unit {0})) (t : ReadStream S)
      → r ≢ hang
      → Kept s t
      → Post (λ u t. Kept s t) (r, t)
  Kept-Post s r t n h = Post-lift (Kept s) r t n h

  write_reply-Kept :
      (frame : Frame) (s : ReadStream S) → Post (λ u t. Kept s t) (write_reply frame s)
  unfolding write_reply
  write_reply-Kept frame s =
      Kept-Post s (write_frame frame false s.writer).0 _
        (let sent = write_frame-Wrote frame false s.writer in ground (arith, sent.result))
        (record { config = refl; source = refl; fragmented = refl })

  transmit_message-Kept :
      (frame : Frame) (s : ReadStream S) → Post (λ u t. Kept s t) (transmit_message frame s)
  unfolding transmit_message from_frame from_utf8 send
  transmit_message-Kept frame s = ground arith

-- A reader in order, with so much of the input left at most.
pub record InOrder {S : Type 0} (cfg : WebSocketConfig) (n : ℕ) (s : ReadStream S) : Type 0 where
  pub config : s.config ≡ cfg
  pub well_formed : IsWellFormed cfg s.fragmented_message
  pub left : length s.source ≤ n

module _ {S : Type 0} (cfg : WebSocketConfig) (n : ℕ) where
  Kept-InOrder : (s t : ReadStream S) → InOrder cfg n s → Kept s t → InOrder cfg n t
  Kept-InOrder s t o h = record {
    config = h.config ∙ o.config;
    well_formed = rw h.fragmented o.well_formed;
    left = rw h.source o.left;
  }

  abbrev Stays : Run (ReadStream S) Unit → ReadStream S → Type 0
  Stays call s = Post (λ u t. InOrder cfg n t) (call s)

  transmit_message-Stays :
      (frame : Frame) (s : ReadStream S) → InOrder cfg n s → Stays (transmit_message frame) s
  transmit_message-Stays frame s o =
      Post-weaken (λ u t. Kept s t) (λ u t. InOrder cfg n t) (λ u t h. Kept-InOrder s t o h)
        (transmit_message frame s) (transmit_message-Kept frame s)

  write_reply-Stays :
      (frame : Frame) (s : ReadStream S) → InOrder cfg n s → Stays (write_reply frame) s
  write_reply-Stays frame s o =
      Post-weaken (λ u t. Kept s t) (λ u t. InOrder cfg n t) (λ u t h. Kept-InOrder s t o h)
        (write_reply frame s) (write_reply-Kept frame s)

  whole_message-Stays :
      (frame : Frame) (m : Option FragmentedMessage) (s : ReadStream S)
      → InOrder cfg n s
      → Stays (whole_message frame m) s
  unfolding whole_message
  whole_message-Stays frame none s o = transmit_message-Stays frame s o
  whole_message-Stays frame (some m) s o = tt

  begin_message-Stays :
      (frame : Frame) (m : Option FragmentedMessage) (s : ReadStream S)
      → (frame.opcode ≡ OpCode.text) ⊎ (frame.opcode ≡ OpCode.binary)
      → length frame.payload ≤ size_or_default cfg.max_frame_size
      → InOrder cfg n s
      → Stays (begin_message frame m) s
  unfolding begin_message
  begin_message-Stays frame none s d h o = record {
    config = o.config;
    well_formed = (d, omega arith);
    left = o.left;
  }
  begin_message-Stays frame (some m) s d h o = tt

module _ (fl : Inflate) (rounds bound : ℕ) (ends : EndsWithin fl rounds bound)
    (cfg : WebSocketConfig) (small : size_or_default cfg.max_frame_size ≤ bound)
    (small_whole : size_or_default cfg.max_message_size ≤ bound) (n : ℕ) where
  finish_message-Stays :
      (m : FragmentedMessage) (s : ReadStream fl.State)
      → length m.fragments ≤ bound
      → s.fragmented_message ≡ none
      → InOrder cfg n s
      → Stays cfg n (finish_message fl rounds m) s
  unfolding finish_message
  finish_message-Stays m s h idle o =
      let taken : Took cfg none n 0 s = record {
        config = o.config;
        in_progress = idle;
        left = omega (arith, o.left);
      } in
      Post-proceed (λ out t. Took cfg none n 0 t × (m.compressed ≡ false → out ≡ m.fragments))
        (λ u t. InOrder cfg n t) (λ out. transmit_message (new_frame true m.op_code out false))
        (inflate fl rounds m.compressed m.fragments s).0
        (inflate fl rounds m.compressed m.fragments s).1
        (inflate-Post fl rounds bound ends cfg none n m.compressed m.fragments 0 s h taken)
        (λ out t a. transmit_message-Stays cfg n _ t (record {
          config = a.0.config;
          well_formed = rw a.0.in_progress tt;
          left = omega (arith, a.0.left);
        }))

  within :
      (s : ReadStream fl.State) (whole : List ℕ)
      → InOrder cfg n s
      → ltb (size_or_default s.config.max_message_size) (length whole) ≡ false
      → length whole ≤ size_or_default cfg.max_message_size
  within s whole o short = rw (← o.config) (ground arith)

  continue_message-Stays :
      (frame : Frame) (m : Option FragmentedMessage) (s : ReadStream fl.State)
      → s.fragmented_message ≡ m
      → InOrder cfg n s
      → Stays cfg n (continue_message fl rounds frame m) s
  unfolding continue_message
  continue_message-Stays frame none s e o = tt
  continue_message-Stays frame (some m) s e o =
      let whole = m.fragments ++ frame.payload in
      let kept = rw e at o.well_formed in
      elim (Bool-cases (ltb (size_or_default s.config.max_message_size) (length whole))) [
        | inl long ↦ rw long tt
        | inr short ↦
            let fits : length whole ≤ size_or_default cfg.max_message_size =
              within s whole o short in
            rw short (elim (Bool-cases frame.final_fragment) [
              | inl last ↦ rw last (
                  finish_message-Stays (record m { fragments = whole })
                    (record s { fragmented_message = none }) (omega arith) refl
                    (record { config = o.config; well_formed = tt; left = o.left }))
              | inr more ↦
                  rw more (record {
                    config = o.config;
                    well_formed = (kept.0, omega arith);
                    left = o.left;
                  })
            ])
      ]

  abbrev Goes : Run (ReadStream fl.State) Flow → ReadStream fl.State → Type 0
  Goes call s = Post (λ flow t. InOrder cfg n t) (call s)

  in_progress-Goes :
      (handle : Option FragmentedMessage → Reader fl rounds Unit) (s : ReadStream fl.State)
      → Stays cfg n (handle s.fragmented_message) s
      → Goes (in_progress fl rounds handle) s
  unfolding in_progress
  in_progress-Goes handle s h =
      Post-proceed (λ u t. InOrder cfg n t) (λ flow t. InOrder cfg n t) (λ u. pure again)
        (handle s.fragmented_message s).0 (handle s.fragmented_message s).1 h (λ u t o. o)

  dispatch-Goes :
      (op : OpCode) (fin : Bool) (frame : Frame) (s : ReadStream fl.State)
      → frame.opcode ≡ op
      → (fin ≡ false → length frame.payload ≤ size_or_default cfg.max_frame_size)
      → InOrder cfg n s
      → Goes (dispatch fl rounds op fin frame) s
  unfolding dispatch send_close_frame send_pong_frame
  dispatch-Goes OpCode.text false frame s e h o =
      in_progress-Goes _ s
        (begin_message-Stays cfg n frame s.fragmented_message s (inl e) (h refl) o)
  dispatch-Goes OpCode.binary false frame s e h o =
      in_progress-Goes _ s
        (begin_message-Stays cfg n frame s.fragmented_message s (inr e) (h refl) o)
  dispatch-Goes OpCode.continue fin frame s e h o =
      in_progress-Goes _ s (continue_message-Stays frame s.fragmented_message s refl o)
  dispatch-Goes OpCode.text true frame s e h o =
      in_progress-Goes _ s (whole_message-Stays cfg n frame s.fragmented_message s o)
  dispatch-Goes OpCode.binary true frame s e h o =
      in_progress-Goes _ s (whole_message-Stays cfg n frame s.fragmented_message s o)
  dispatch-Goes OpCode.close fin frame s e h o =
      let sent = write_reply (new_frame true OpCode.close [] false) s in
      Post-proceed (λ u t. InOrder cfg n t) (λ flow t. InOrder cfg n t) (λ u. pure stop) sent.0
        sent.1 (write_reply-Stays cfg n _ s o) (λ u t o'. o')
  dispatch-Goes OpCode.ping fin frame s e h o =
      let sent = write_reply (new_frame true OpCode.pong frame.payload false) s in
      Post-proceed (λ u t. InOrder cfg n t) (λ flow t. InOrder cfg n t) (λ u. pure again) sent.0
        sent.1 (write_reply-Stays cfg n _ s o) (λ u t o'. o')
  dispatch-Goes OpCode.pong fin frame s e h o = o

  -- Handling a frame that fits the limit, if it was not decompressed, keeps the reader in order.
  pub handle_frame-Goes :
      (frame : Frame) (s : ReadStream fl.State)
      → ((frame.compressed && frame.final_fragment) ≡ false
          → length frame.payload ≤ size_or_default cfg.max_frame_size)
      → InOrder cfg n s
      → Goes (handle_frame fl rounds frame) s
  unfolding handle_frame
  handle_frame-Goes frame s h o =
      dispatch-Goes frame.opcode frame.final_fragment frame s refl
        (λ open_end. h (ground (arith, open_end))) o
