-- ===== src/Reader/Ending.antt =====
-- The end of the loop of `poll_messages` in src/read.rs, and the reader between its rounds.
use socket_flow.Prelude.{
  ℕ, zero, suc, ◌+◌, ◌-◌, ◌≤◌, ◌<◌, ◌≡◌, refl, false, ◌&&◌, List, ◌++◌, length, length-append,
  arith,
}
use socket_flow.Error.{ok}
use socket_flow.Run.{Run, pure}
use socket_flow.Run.Rules.{Post, Post-proceed, Post-weaken, Post-ne-hang, Post-ok}
use socket_flow.Run.Waits.{Ended, Waits-Ended}
use socket_flow.Config.{WebSocketConfig, size_or_default}
use socket_flow.Frame.{Frame}
use socket_flow.Flate.{Inflate, InflateLaws}
use socket_flow.Decoder.{loop_start, deflate_trailer}
use socket_flow.Decoder.Loop.{decompress_ends}
use socket_flow.Reader.{ReadStream, read_frame}
use socket_flow.Reader.Poll.{Flow, again, stop, handle_frame, poll_messages}
use socket_flow.Reader.Progress.{Took, EndsWithin, read_frame-Got}
use socket_flow.Reader.Rounds.{IsWellFormed, InOrder, handle_frame-Goes}
use socket_flow.Reader.Waiting.{IsFull, poll_messages-AtChannel}
use socket_flow.Reader.Steps.{Steps, here, next}

-- Rounds enough for all the work that the library may have on an input within the bound and the
-- trailer are enough for every payload within the bound.
work-EndsWithin :
    (fl : Inflate) (laws : InflateLaws fl) (rounds bound : ℕ)
    → ((s : fl.State) (input : List ℕ) → length input ≤ bound + 4 → laws.work s input < rounds)
    → EndsWithin fl rounds bound
work-EndsWithin fl laws rounds bound enough payload d h = decompress_ends fl laws rounds payload d (
    enough (loop_start fl d) (payload ++ deflate_trailer)
      (omega (arith, length-append {0} payload deflate_trailer)))

module _ (fl : Inflate) (laws : InflateLaws fl) (rounds bound : ℕ)
    (enough : (s : fl.State) (input : List ℕ)
      → length input ≤ bound + 4
      → laws.work s input < rounds)
    (cfg : WebSocketConfig) (small : size_or_default cfg.max_frame_size ≤ bound)
    (small_whole : size_or_default cfg.max_message_size ≤ bound) where
  ends : EndsWithin fl rounds bound
  ends = work-EndsWithin fl laws rounds bound enough

  abbrev Ready : ℕ → Frame → ReadStream fl.State → Type 0
  Ready n f t =
      InOrder cfg (n - 2) t
      × (2 ≤ n)
      × ((f.compressed && f.final_fragment) ≡ false
          → length f.payload ≤ size_or_default cfg.max_frame_size)

  -- A frame that was read from a reader in order leaves one in order, with less to read.
  read_frame-Ready :
      (n : ℕ) (s : ReadStream fl.State) → InOrder cfg n s → Post (Ready n) (read_frame fl rounds s)
  read_frame-Ready n s o =
      Post-weaken
        (λ f t.
          Took cfg s.fragmented_message n 2 t
          × ((f.compressed && f.final_fragment) ≡ false
              → length f.payload ≤ size_or_default cfg.max_frame_size))
        (Ready n)
        (λ f t g. (
          record {
            config = g.0.config;
            well_formed = rw g.0.in_progress o.well_formed;
            left = omega (arith, g.0.left);
          },
          omega (arith, g.0.left),
          g.1,
        ))
        (read_frame fl rounds s)
        (read_frame-Got fl rounds bound ends cfg s.fragmented_message n s small
          (record { config = o.config; in_progress = refl; left = omega (arith, o.left) }))

  abbrev Done : ℕ → Unit {0} → ReadStream fl.State → Type 0
  Done n u t = InOrder cfg n t

  fewer_left : (n k : ℕ) (t : ReadStream fl.State) → k ≤ n → InOrder cfg k t → InOrder cfg n t
  fewer_left n k t h o = record {
    config = o.config;
    well_formed = o.well_formed;
    left = omega (arith, o.left);
  }

  after_flow :
      (fuel n k : ℕ) (flow : Flow) (t : ReadStream fl.State)
      → k ≤ n
      → InOrder cfg k t
      → ((u : ReadStream fl.State)
          → InOrder cfg k u
          → Post (Done k) (poll_messages fl rounds fuel u))
      → Post (Done n) (
          (elim flow as (λ x. Run (ReadStream fl.State) Unit) [
            | again ↦ poll_messages fl rounds fuel
            | stop ↦ pure tt
          ])
            t)
  after_flow fuel n k again t h o ih =
      Post-weaken (Done k) (Done n) (λ u v p. fewer_left n k v h p) (poll_messages fl rounds fuel t)
        (ih t o)
  after_flow fuel n k stop t h o ih = fewer_left n k t h o

  poll_messages-Post :
      (fuel n : ℕ) (s : ReadStream fl.State)
      → n < fuel
      → InOrder cfg n s
      → Post (Done n) (poll_messages fl rounds fuel s)
  unfolding poll_messages
  poll_messages-Post zero n s h o = absurd (omega arith)
  poll_messages-Post (suc fuel) n s h o =
      Post-proceed (Ready n) (Done n) _ (read_frame fl rounds s).0 (read_frame fl rounds s).1
        (read_frame-Ready n s o)
        λ f t r.
          Post-proceed (λ flow t. InOrder cfg (n - 2) t) (Done n) _ (handle_frame fl rounds f t).0
            (handle_frame fl rounds f t).1
            (handle_frame-Goes fl rounds bound ends cfg small small_whole (n - 2) f t r.2 r.0)
            λ flow t' o'.
              after_flow fuel n (n - 2) flow t' (omega arith) o'
                (λ u p. poll_messages-Post fuel (n - 2) u (omega (arith, r.1)) p)

  -- From a reader in order, and with more rounds than its input has arrivals, the loop comes
  -- back, whatever the peer sends; or it waits for its user to take a message, and then the
  -- channel is full and its receiver is there. The library behaves as documented, and the
  -- decompression loop has more rounds than it may need for an input within a bound that covers
  -- both limits.
  pub poll_messages_ends :
      (fuel : ℕ) (s : ReadStream fl.State)
      → s.config ≡ cfg
      → IsWellFormed cfg s.fragmented_message
      → length s.source < fuel
      → Ended (λ t. IsFull t.read_tx) (poll_messages fl rounds fuel s)
  poll_messages_ends fuel s c w h =
      let res = poll_messages fl rounds fuel s in
      let comes_back = Post-ne-hang (Done (length s.source)) res.0 res.1 (
        poll_messages-Post fuel (length s.source) s h
          (record { config = c; well_formed = w; left = omega arith })) in
      Waits-Ended (λ t. IsFull t.read_tx) res.0 res.1 comes_back
        (poll_messages-AtChannel fl rounds fuel s)

  step-InOrder :
      (n : ℕ) (s mid after : ReadStream fl.State) (f : Frame)
      → read_frame fl rounds s ≡ (ok f, mid)
      → handle_frame fl rounds f mid ≡ (ok again, after)
      → InOrder cfg n s
      → InOrder cfg (n - 2) after
  step-InOrder n s mid after f r h o =
      let ready = Post-ok (Ready n) (read_frame fl rounds s) f mid (read_frame-Ready n s o) r in
      Post-ok (λ flow t. InOrder cfg (n - 2) t) (handle_frame fl rounds f mid) again after
        (handle_frame-Goes fl rounds bound ends cfg small small_whole (n - 2) f mid ready.2 ready.0)
        h

  -- From a reader in order and over any rounds of the loop, whatever the peer sends: the
  -- configuration stays, and the message in progress, if any, is of a text or binary frame and
  -- holds no more bytes than the larger of the two limits. The library behaves as documented, and
  -- the decompression loop has more rounds than it may need for an input within a bound that
  -- covers both limits.
  pub Steps-IsWellFormed :
      {k : ℕ} {s t : ReadStream fl.State}
      → Steps fl rounds k s t
      → s.config ≡ cfg
      → IsWellFormed cfg s.fragmented_message
      → (t.config ≡ cfg) × IsWellFormed cfg t.fragmented_message
  Steps-IsWellFormed (here s) c w = (c, w)
  Steps-IsWellFormed (next k s mid after t f r h steps) c w =
      let o : InOrder cfg (length s.source) s = record {
        config = c;
        well_formed = w;
        left = omega arith;
      } in
      let o' = step-InOrder (length s.source) s mid after f r h o in
      Steps-IsWellFormed steps o'.config o'.well_formed
