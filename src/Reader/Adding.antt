-- ===== src/Reader/Adding.antt =====
-- The calls of src/read.rs that send messages, and those that send none.
use socket_flow.Prelude.{
  ℕ, ◌+◌, ltb, length, ◌≡◌, refl, sym, ap, ◌∙◌, Bool, true, false, Option, none, some, List, [],
  ◌∷◌, ◌++◌, map, append-nil, append_assoc, All, All-append, inl, inr, Bool-cases, arith,
}
use socket_flow.Error.{Error, Outcome, ok, err, panic, hang, waits}
use socket_flow.Run.{Run, fail_if, on_part, proceed}
use socket_flow.Frame.{Frame}
use socket_flow.Message.{Message, from_frame}
use socket_flow.Message.Conversion.{IsProper, from_frame_iff}
use socket_flow.Reader.{
  capacity, ReadStream, FragmentedMessage, Delivery, message, took, read_bytes, read_payload,
  read_header, read_length, read_mask,
}
use socket_flow.Reader.Poll.{send, write_reply, transmit_message, begin_message, whole_message}

-- Messages have been added to the channel, each a text in UTF-8 or binary.
pub record Added (before after : List Delivery) : Type 0 where
  pub messages : List Message
  pub proper : All IsProper messages
  pub sent : after ≡ before ++ map message messages

pub kept : (a b : List Delivery) → b ≡ a → Added a b
kept a b e = record { messages = []; proper = tt; sent = e ∙ sym (append-nil a) }

map-append : (ms ns : List Message) → map message (ms ++ ns) ≡ map message ms ++ map message ns
map-append [] ns = refl
map-append (m ∷ ms) ns = ap (λ r. message m ∷ r) (map-append ms ns)

Added-Added : (a b c : List Delivery) → Added a b → Added b c → Added a c
Added-Added a b c h k = record {
  messages = h.messages ++ k.messages;
  proper = All-append IsProper h.messages k.messages h.proper k.proper;
  sent =
      k.sent
      ∙ ap (λ r. r ++ map message k.messages) h.sent
      ∙ append_assoc a (map message h.messages) (map message k.messages)
      ∙ ap (λ r. a ++ r) (sym (map-append h.messages k.messages));
}

module _ {S : Type 0} where
  -- A call that only adds messages, however it ends.
  abbrev pub Adds : {A : Type 0} → Outcome A × ReadStream S → ReadStream S → Type 0
  Adds end s = Added s.read_tx.sent end.1.read_tx.sent

  pub chain :
      {A B : Type 0} (s : ReadStream S) (f : A → Run (ReadStream S) B) (o : Outcome A)
      (t : ReadStream S)
      → Added s.read_tx.sent t.read_tx.sent
      → ((x : A) (t : ReadStream S) → Adds (f x t) t)
      → Adds (proceed o f t) s
  chain s f (ok x) t h k = Added-Added _ _ _ h (k x t)
  chain s f (err e) t h k = h
  chain s f panic t h k = h
  chain s f hang t h k = h
  chain s f waits t h k = h

  -- The same, kept shut, so that a chain is met as it is written.
  unfoldable pub Sealed : {A : Type 0} → Outcome A × ReadStream S → ReadStream S → Type 0
  Sealed end s = Adds end s

  pub seal :
      {A : Type 0} (end : Outcome A × ReadStream S) (s : ReadStream S) → Adds end s → Sealed end s
  unfolding Sealed
  seal end s h = h

  pub unseal :
      {A : Type 0} (end : Outcome A × ReadStream S) (s : ReadStream S) → Sealed end s → Adds end s
  unfolding Sealed
  unseal end s h = h

  pub links :
      {A B : Type 0} (s : ReadStream S) (f : A → Run (ReadStream S) B) (o : Outcome A)
      (t : ReadStream S)
      → Added s.read_tx.sent t.read_tx.sent
      → ((x : A) (t : ReadStream S) → Sealed (f x t) t)
      → Sealed (proceed o f t) s
  unfolding Sealed
  links s f o t h k = chain s f o t h k

  keeps :
      {A : Type 0} (end : Outcome A × ReadStream S) (s : ReadStream S)
      → end.1.read_tx ≡ s.read_tx
      → Adds end s
  keeps end s e = kept _ _ (ap (λ c. c.sent) e)

  read_bytes_keeps : (n : ℕ) (s : ReadStream S) → (read_bytes n s).1.read_tx ≡ s.read_tx
  unfolding read_bytes took
  read_bytes_keeps n s = ground arith

  pub fail_if-Adds : (test : Bool) (e : Error) (s : ReadStream S) → Adds (fail_if test e s) s
  fail_if-Adds true e s = kept _ _ refl
  fail_if-Adds false e s = kept _ _ refl

  read_bytes-Adds : (n : ℕ) (s : ReadStream S) → Adds (read_bytes n s) s
  unfolding read_bytes took
  read_bytes-Adds n s = keeps (read_bytes n s) s (ground arith)

  pub read_payload-Adds : (n : ℕ) (s : ReadStream S) → Adds (read_payload n s) s
  unfolding read_payload took
  read_payload-Adds n s = keeps (read_payload n s) s (ground arith)

  pub read_header-Adds : (s : ReadStream S) → Adds (read_header s) s
  unfolding read_header
  read_header-Adds s = chain s _ _ _ (read_bytes-Adds 2 s) (λ h t. kept _ _ refl)

  pub read_length-Adds : (n : ℕ) (s : ReadStream S) → Adds (read_length n s) s
  unfolding read_length
  read_length-Adds n s =
      keeps (read_length n s) s (ground (arith, read_bytes_keeps 2 s, read_bytes_keeps 8 s))

  pub read_mask-Adds : (masked : Bool) (s : ReadStream S) → Adds (read_mask masked s) s
  unfolding read_mask
  read_mask-Adds true s = chain s _ _ _ (read_bytes-Adds 4 s) (λ h t. kept _ _ refl)
  read_mask-Adds false s = kept _ _ refl

  pub write_reply-Adds : (f : Frame) (s : ReadStream S) → Adds (write_reply f s) s
  unfolding write_reply
  write_reply-Adds f s = kept _ _ refl

  send_message : Message → Run (ReadStream S) Unit
  send_message m = on_part (λ s. s.read_tx) (λ s c. record s { read_tx = c }) (send (message m))

  send_message-Adds : (m : Message) (s : ReadStream S) → IsProper m → Adds (send_message m s) s
  unfolding send_message send
  send_message-Adds m s proper = elim (Bool-cases s.read_tx.is_closed) [
    | inl shut ↦ rw shut (kept _ _ refl)
    | inr open_end ↦ elim (Bool-cases (ltb (length s.read_tx.sent) (capacity + s.read_tx.taken))) [
      | inl room ↦
          rw (open_end, room) (record { messages = m ∷ []; proper = (proper, tt); sent = refl })
      | inr no_room ↦ rw (open_end, no_room) (kept _ _ refl)
    ]
  ]

  sent-Adds :
      (frame : Frame) (o : Outcome Message) (s : ReadStream S)
      → from_frame frame ≡ o
      → Adds (proceed o send_message s) s
  sent-Adds frame (ok m) s e = send_message-Adds m s ((from_frame_iff frame m).0 e).2
  sent-Adds frame (err x) s e = kept _ _ refl
  sent-Adds frame panic s e = kept _ _ refl
  sent-Adds frame hang s e = kept _ _ refl
  sent-Adds frame waits s e = kept _ _ refl

  pub transmit_message-Adds : (frame : Frame) (s : ReadStream S) → Adds (transmit_message frame s) s
  unfolding transmit_message send_message
  transmit_message-Adds frame s =
      chain {A = Unit {0}} s _ _ _ (kept _ _ refl)
        (λ u t. sent-Adds frame (from_frame frame) t refl)

  pub begin_message-Adds :
      (frame : Frame) (m : Option FragmentedMessage) (s : ReadStream S)
      → Adds (begin_message frame m s) s
  unfolding begin_message
  begin_message-Adds frame none s = kept _ _ refl
  begin_message-Adds frame (some m) s = kept _ _ refl

  pub whole_message-Adds :
      (frame : Frame) (m : Option FragmentedMessage) (s : ReadStream S)
      → Adds (whole_message frame m s) s
  unfolding whole_message
  whole_message-Adds frame none s = transmit_message-Adds frame s
  whole_message-Adds frame (some m) s = kept _ _ refl
