-- ===== src/Reader/Controls.antt =====
-- What control frames do to a reader of src/read.rs.
use socket_flow.Prelude.{
  ℕ, suc, ◌+◌, ◌*◌, ◌≤◌, ◌≡◌, refl, ◌∙◌, Bool, true, false, List, [], ◌∷◌, ◌++◌, length, IsBytes,
  arith,
}
use socket_flow.Error.{ok}
use socket_flow.Config.{deflate_enabled, size_or_default}
use socket_flow.Frame.{OpCode, Frame, new_frame}
use socket_flow.Flate.{Inflate}
use socket_flow.Writer.{Writer, WriterKind, Mask}
use socket_flow.Writer.Masking.{IsMask}
use socket_flow.Writer.Encoding.{encode_by}
use socket_flow.Source.{Arrival, bytes}
use socket_flow.Reader.{ReadStream}
use socket_flow.Reader.Poll.{again, handle_frame, dispatch, write_reply, send_pong_frame}
use socket_flow.Reader.Reads.{at_source}
use socket_flow.Reader.RoundTrip.{Acceptable}
use socket_flow.Reader.Steps.{Steps, here, next}
use socket_flow.Reader.Parts.{encoded_step}
use socket_flow.WsWriter.Sent.{write_frame_ok}
use socket_flow.Reader.Pings.{
  Mixed, over, data_next, ping_next, pong_next, ping_of, pong_of, ponged, answered, ponged_room,
}

control_Acceptable :
    (deflate : Bool) (limit : ℕ) (op : OpCode) (p : List ℕ)
    → IsBytes p
    → length p ≤ 125
    → length p ≤ limit
    → Acceptable deflate limit (new_frame true op p false) false
control_Acceptable deflate limit op p b short fits = record {
  are_bytes = b;
  fits = omega arith;
  in_64_bits = omega arith;
  rsv1_allowed = λ e. cc;
  control_whole = λ e. refl;
  control_short = λ e. short;
}

module _ {S : Type 0} where
  abbrev pub with_writer : ReadStream S → Writer → ReadStream S
  with_writer s w = record s { writer = w }

module _ (fl : Inflate) (rounds : ℕ) (kind : WriterKind) (rest : List Arrival) where
  -- A ping or a pong at the front of the input, and rounds behind it.
  module _ (x : ReadStream fl.State) (p : List ℕ) (mask : Mask) (out behind : List ℕ)
      (im : IsMask mask) (are_bytes : IsBytes p) (short : length p ≤ 125)
      (fits : length p ≤ size_or_default x.config.max_frame_size) where
    handle_ping :
        (src : List Arrival)
        → length p + 14 ≤ x.writer.room
        → handle_frame fl rounds (ping_of p) (at_source x src)
          ≡ (ok again, at_source (with_writer x (ponged p x.writer)) src)
    unfolding handle_frame dispatch send_pong_frame write_reply
    handle_ping src room = rw (write_frame_ok (pong_of p) false x.writer room).0 refl

    ping_round :
        {n : ℕ} {t : ReadStream fl.State}
        → 139 ≤ x.writer.room
        → out ≡ encode_by kind mask (ping_of p) false ++ behind
        → Steps fl rounds n (at_source (with_writer x (ponged p x.writer)) (bytes behind ++ rest)) t
        → Steps fl rounds (suc n) (at_source x (bytes out ++ rest)) t
    ping_round room e steps =
        next _ (at_source x (bytes out ++ rest)) (at_source x (bytes behind ++ rest))
          (at_source (with_writer x (ponged p x.writer)) (bytes behind ++ rest)) _ (ping_of p)
          (encoded_step fl rounds kind x rest (ping_of p) mask out behind im e
            (control_Acceptable (deflate_enabled x.config) _ OpCode.ping p are_bytes short fits))
          (handle_ping (bytes behind ++ rest) (omega arith)) steps

    pong_round :
        {n : ℕ} {t : ReadStream fl.State}
        → out ≡ encode_by kind mask (pong_of p) false ++ behind
        → Steps fl rounds n (at_source x (bytes behind ++ rest)) t
        → Steps fl rounds (suc n) (at_source x (bytes out ++ rest)) t
    pong_round e steps =
        next _ (at_source x (bytes out ++ rest)) (at_source x (bytes behind ++ rest))
          (at_source x (bytes behind ++ rest)) _ (pong_of p)
          (encoded_step fl rounds kind x rest (pong_of p) mask out behind im e
            (control_Acceptable (deflate_enabled x.config) _ OpCode.pong p are_bytes short fits))
          (unfold handle_frame dispatch in refl) steps

  -- A reader by its writer, which is all of it that control frames change but its input.
  module _ (x : ReadStream fl.State) where
    abbrev Among : List Frame → List (List ℕ) → List ℕ → Type 0
    Among = Mixed (size_or_default x.config.max_frame_size) kind

    -- Control frames with no data frame behind them.
    pub controls_Steps :
        (w : Writer) (pings : List (List ℕ)) (out : List ℕ)
        → 139 * length pings ≤ w.room
        → Among [] pings out
        → (n : ℕ) × Steps fl rounds n
            (at_source (with_writer x w) (bytes out ++ rest))
            (at_source (with_writer x (answered pings w)) rest)
    controls_Steps w pings out room over = (0, here _)
    controls_Steps w pings out room (ping_next p fs ps mask o behind im b short fits e mixed) =
        let left = (ponged_room p w (139 * length ps) short (omega arith)).1 in
        let (n, steps) = controls_Steps (ponged p w) ps behind left mixed in
        (
          suc n,
          ping_round (with_writer x w) p mask out behind im b short fits (omega arith) e steps,
        )
    controls_Steps w pings out room (pong_next p fs ps mask o behind im b short fits e mixed) =
        let (n, steps) = controls_Steps w ps behind room mixed in
        (suc n, pong_round (with_writer x w) p mask out behind im b short fits e steps)

    -- Where the next data frame stands, once the control frames before it are dealt with.
    pub record Ahead (w : Writer) (f : Frame) (fs : List Frame) (pings : List (List ℕ))
        (out : List ℕ) : Type 0 where
      pub writer : Writer
      pub later : List (List ℕ)
      pub mask : Mask
      pub here_on : List ℕ
      pub behind : List ℕ
      pub are_mask : IsMask mask
      pub begins : here_on ≡ encode_by kind mask f false ++ behind
      pub mixed : Among fs later behind
      pub room : 139 * length later ≤ writer.room
      pub same_answers : answered later writer ≡ answered pings w
      pub resume :
          {n : ℕ} {t : ReadStream fl.State}
          → Steps fl rounds n (at_source (with_writer x writer) (bytes here_on ++ rest)) t
          → (k : ℕ) × Steps fl rounds k (at_source (with_writer x w) (bytes out ++ rest)) t

    -- A round before.
    one_before :
        {w w' : Writer} {f : Frame} {fs : List Frame} {pings pings' : List (List ℕ)}
        {out out' : List ℕ}
        → Ahead w' f fs pings' out'
        → answered pings' w' ≡ answered pings w
        → ((n : ℕ) (t : ReadStream fl.State)
            → Steps fl rounds n (at_source (with_writer x w') (bytes out' ++ rest)) t
            → Steps fl rounds (suc n) (at_source (with_writer x w) (bytes out ++ rest)) t)
        → Ahead w f fs pings out
    one_before ahead same before = record {
      writer = ahead.writer;
      later = ahead.later;
      mask = ahead.mask;
      here_on = ahead.here_on;
      behind = ahead.behind;
      are_mask = ahead.are_mask;
      begins = ahead.begins;
      mixed = ahead.mixed;
      room = ahead.room;
      same_answers = ahead.same_answers ∙ same;
      resume = λ steps. let (k, more) = ahead.resume steps in (suc k, before k _ more);
    }

    pub data_Ahead :
        (w : Writer) (f : Frame) (fs : List Frame) (pings : List (List ℕ)) (out : List ℕ)
        → 139 * length pings ≤ w.room
        → Among (f ∷ fs) pings out
        → Ahead w f fs pings out
    data_Ahead w f fs pings out room (data_next g gs ps mask o behind im e mixed) = record {
      writer = w;
      later = pings;
      mask = mask;
      here_on = out;
      behind = behind;
      are_mask = im;
      begins = e;
      mixed = mixed;
      room = room;
      same_answers = refl;
      resume = λ steps. (_, steps);
    }
    data_Ahead w f fs pings out room (ping_next p gs ps mask o behind im b short fits e mixed) =
        let left = (ponged_room p w (139 * length ps) short (omega arith)).1 in
        one_before (data_Ahead (ponged p w) f fs ps behind left mixed) refl
          (λ n t. ping_round (with_writer x w) p mask out behind im b short fits (omega arith) e)
    data_Ahead w f fs pings out room (pong_next p gs ps mask o behind im b short fits e mixed) =
        one_before (data_Ahead w f fs pings behind room mixed) refl
          (λ n t. pong_round (with_writer x w) p mask out behind im b short fits e)
