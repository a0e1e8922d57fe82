-- ===== src/Reader/Progress.antt =====
-- How much of the input `read_frame` of src/read.rs takes, and what it leaves alone.
use socket_flow.Prelude.{
  ℕ, ◌+◌, ◌≤◌, ◌≡◌, ◌≢◌, refl, ap, Bool, true, false, ◌&&◌, Option, none, some, List, length, inl,
  inr, Bool-cases, ltb, ◌==◌, arith,
}
use native.Mathlib.Nat.{zero-add}
use socket_flow.Error.{Outcome, ok, err, panic, hang, waits}
use socket_flow.Run.{pure, ◌>>=◌}
use socket_flow.Run.Rules.{Post, Post-proceed, Post-lift, Post-weaken}
use socket_flow.Config.{WebSocketConfig, size_or_default}
use socket_flow.Frame.{Frame, new_frame, opcode_from}
use socket_flow.Flate.{Inflate}
use socket_flow.Decoder.{Decoder, decompress}
use socket_flow.Writer.{Mask}
use socket_flow.Writer.Masking.{length-apply_mask}
use socket_flow.Source.{Reading, full, closed, elapsed, read_exact, read_exact_within}
use socket_flow.Source.Laws.{AtMost, read_exact-AtMost, read_exact_within-AtMost}
use socket_flow.Header.{Header, parse_header}
use socket_flow.Reader.{
  ReadStream, FragmentedMessage, Reader, took, read_bytes, read_payload, read_header, read_length,
  read_mask, unmask, inflate, read_frame,
}

parse_header-ne-hang : (deflate : Bool) (b0 b1 : ℕ) → parse_header deflate b0 b1 ≢ hang
unfolding parse_header opcode_from
parse_header-ne-hang deflate b0 b1 = ground arith

-- What reading a frame leaves alone, and how much of the input it has taken: `taken` of `k` at
-- least.
pub record Took {S : Type 0} (cfg : WebSocketConfig) (m : Option FragmentedMessage) (k taken : ℕ)
    (s : ReadStream S) : Type 0 where
  pub config : s.config ≡ cfg
  pub in_progress : s.fragmented_message ≡ m
  pub left : length s.source + taken ≤ k

module _ {S : Type 0} (cfg : WebSocketConfig) (m : Option FragmentedMessage) (k : ℕ) where
  abbrev At : ℕ → ReadStream S → Type 0
  At = Took cfg m k

  took-Post :
      (n taken : ℕ) (s : ReadStream S) (r : Reading)
      → At taken s
      → AtMost n s.source r
      → Post (λ bs t. At (taken + n) t × (length bs ≡ n)) (took r s)
  unfolding took
  took-Post n taken s (full bs rest) h a =
      (record { config = h.config; in_progress = h.in_progress; left = omega (arith, h.left) }, a.0)
  took-Post n taken s closed h a = tt
  took-Post n taken s (elapsed rest) h a = tt

  abbrev Taken : ℕ → ℕ → List ℕ → ReadStream S → Type 0
  Taken n taken bs t = At (taken + n) t × (length bs ≡ n)

  read_bytes-Took :
      (n taken : ℕ) (s : ReadStream S) → At taken s → Post (Taken n taken) (read_bytes n s)
  unfolding read_bytes
  read_bytes-Took n taken s h =
      took-Post n taken s (read_exact n s.source) h (read_exact-AtMost n s.source)

  read_payload-Took :
      (n taken : ℕ) (s : ReadStream S) → At taken s → Post (Taken n taken) (read_payload n s)
  unfolding read_payload
  read_payload-Took n taken s h =
      took-Post n taken s (read_exact_within 4 n s.source) h (read_exact_within-AtMost 4 n s.source)

  fewer : (n taken : ℕ) (s : ReadStream S) → At (taken + n) s → At taken s
  fewer n taken s h = record {
    config = h.config;
    in_progress = h.in_progress;
    left = omega (arith, h.left);
  }

  read_header-Took : (s : ReadStream S) → At 0 s → Post (λ h t. At 2 t) (read_header s)
  unfolding read_header
  read_header-Took s h =
      Post-proceed (Taken 2 0) _ _ _ _ (read_bytes-Took 2 0 s h)
        λ bs t a. Post-lift (At 2) _ t (parse_header-ne-hang _ _ _) (rw zero-add at a.0)

  read_length-Took : (n : ℕ) (s : ReadStream S) → At 2 s → Post (λ h t. At 2 t) (read_length n s)
  unfolding read_length
  read_length-Took n s h = elim (Bool-cases (n == 126)) [
    | inl two ↦
        rw two
          (Post-proceed (Taken 2 2) _ _ _ _ (read_bytes-Took 2 2 s h) (λ bs t a. fewer 2 2 t a.0))
    | inr other ↦ rw other (elim (Bool-cases (n == 127)) [
      | inl eight ↦
          rw eight
            (Post-proceed (Taken 8 2) _ _ _ _ (read_bytes-Took 8 2 s h) (λ bs t a. fewer 8 2 t a.0))
      | inr short ↦ rw short h
    ])
  ]

  read_mask-Took :
      (masked : Bool) (s : ReadStream S) → At 2 s → Post (λ h t. At 2 t) (read_mask masked s)
  unfolding read_mask
  read_mask-Took true s h =
      Post-proceed (Taken 4 2) _ _ _ _ (read_bytes-Took 4 2 s h) (λ bs t a. fewer 4 2 t a.0)
  read_mask-Took false s h = h

length-unmask : (mask : Option Mask) (bs : List ℕ) → length (unmask mask bs) ≡ length bs
unfolding unmask
length-unmask none bs = refl
length-unmask (some mask) bs = length-apply_mask mask 0 bs

-- The decompression loop has rounds enough for every payload within a bound.
abbrev pub EndsWithin : (fl : Inflate) → ℕ → ℕ → Type 0
EndsWithin fl rounds bound =
    (payload : List ℕ) (d : Decoder fl.State)
    → length payload ≤ bound
    → (decompress fl rounds payload d).0 ≢ hang

module _ (fl : Inflate) (rounds bound : ℕ) (ends : EndsWithin fl rounds bound)
    (cfg : WebSocketConfig) (m : Option FragmentedMessage) (k : ℕ) where
  abbrev Same : ℕ → ReadStream fl.State → Type 0
  Same = Took cfg m k

  -- A payload that is not decompressed stays what it is.
  abbrev Inflated : Bool → List ℕ → ℕ → List ℕ → ReadStream fl.State → Type 0
  Inflated compressed payload taken out t = Same taken t × (compressed ≡ false → out ≡ payload)

  Inflated-Post :
      (payload : List ℕ) (taken : ℕ) (s : ReadStream fl.State) (r : Outcome (List ℕ))
      (d : Decoder fl.State)
      → r ≢ hang
      → Same taken s
      → Post (Inflated true payload taken) (r, record s { decoder = d })
  Inflated-Post payload taken s (ok out) d n h =
      (record { config = h.config; in_progress = h.in_progress; left = h.left }, λ e. cc)
  Inflated-Post payload taken s (err e) d n h = tt
  Inflated-Post payload taken s panic d n h = tt
  Inflated-Post payload taken s hang d n h = n refl
  Inflated-Post payload taken s waits d n h = tt

  pub inflate-Post :
      (compressed : Bool) (payload : List ℕ) (taken : ℕ) (s : ReadStream fl.State)
      → length payload ≤ bound
      → Same taken s
      → Post (Inflated compressed payload taken) (inflate fl rounds compressed payload s)
  unfolding inflate
  inflate-Post true payload taken s small h =
      Inflated-Post payload taken s _ _ (ends payload s.decoder small) h
  inflate-Post false payload taken s small h = (h, λ e. refl)

  within :
      (n : ℕ) (s : ReadStream fl.State)
      → Same 2 s
      → ltb (size_or_default s.config.max_frame_size) n ≡ false
      → n ≤ size_or_default cfg.max_frame_size
  within n s h short = rw (← h.config) (ground arith)

  -- What a frame that was read is like: it was not decompressed, or it fits the limit.
  abbrev pub Fits : Frame → Type 0
  Fits f =
      (f.compressed && f.final_fragment) ≡ false
      → length f.payload ≤ size_or_default cfg.max_frame_size

  abbrev Got : Frame → ReadStream fl.State → Type 0
  Got f t = Same 2 t × Fits f

  abbrev Unpacked : Bool → List ℕ → ReadStream fl.State → Type 0
  Unpacked squeezed out t =
      Same 2 t × (squeezed ≡ false → length out ≤ size_or_default cfg.max_frame_size)

  -- A payload that was read is unmasked and, where it is compressed and whole, decompressed.
  inflate-Unpacked :
      (squeezed : Bool) (n : ℕ) (mask : Option Mask) (received : List ℕ) (s : ReadStream fl.State)
      → size_or_default cfg.max_frame_size ≤ bound
      → n ≤ size_or_default cfg.max_frame_size
      → Taken cfg m k n 2 received s
      → Post (Unpacked squeezed) (inflate fl rounds squeezed (unmask mask received) s)
  inflate-Unpacked squeezed n mask received s small fits a =
      let size = length-unmask mask received in
      Post-weaken (Inflated squeezed (unmask mask received) 2) (Unpacked squeezed)
        (λ out t i. (i.0, λ plain. omega (arith, ap length (i.1 plain), size, a.1)))
        (inflate fl rounds squeezed (unmask mask received) s)
        (inflate-Post squeezed (unmask mask received) 2 s (omega (arith, size, a.1))
          (fewer cfg m k n 2 s a.0))

  -- Behind the length: the mask, and the payload with what is done to it.
  body : Header → ℕ → Reader fl rounds Frame
  body header n = do
    mask ← read_mask header.masked
    received ← read_payload n
    payload ← inflate fl rounds (header.rsv1 && header.final_fragment) (unmask mask received)
    pure (new_frame header.final_fragment header.opcode payload header.rsv1)

  body-Got :
      (header : Header) (n : ℕ) (s : ReadStream fl.State)
      → size_or_default cfg.max_frame_size ≤ bound
      → n ≤ size_or_default cfg.max_frame_size
      → Same 2 s
      → Post Got (body header n s)
  unfolding body
  body-Got header n s small fits h =
      Post-proceed (λ h t. Same 2 t) Got _ _ _ (read_mask-Took cfg m k header.masked s h)
        λ mask s1 h1.
          Post-proceed (Taken cfg m k n 2) Got _ _ _ (read_payload-Took cfg m k n 2 s1 h1)
            λ received s2 a.
              let squeezed = header.rsv1 && header.final_fragment in
              let unpacked = inflate fl rounds squeezed (unmask mask received) s2 in
              Post-proceed (Unpacked squeezed) Got
                (λ out. pure (new_frame header.final_fragment header.opcode out header.rsv1))
                unpacked.0 unpacked.1 (inflate-Unpacked squeezed n mask received s2 small fits a)
                (λ out s3 b. b)

  -- From any reader `read_frame` comes back; a frame that it returns has cost two bytes at least,
  -- and its payload is within the frame limit if it was not decompressed.
  pub read_frame-Got :
      (s : ReadStream fl.State)
      → size_or_default cfg.max_frame_size ≤ bound
      → Same 0 s
      → Post Got (read_frame fl rounds s)
  unfolding read_frame body
  read_frame-Got s small h =
      Post-proceed (λ h t. Same 2 t) Got _ _ _ (read_header-Took cfg m k s h)
        λ header s1 h1.
          Post-proceed (λ h t. Same 2 t) Got _ _ _ (read_length-Took cfg m k header.length s1 h1)
            λ n s2 h2. elim (Bool-cases (ltb (size_or_default s2.config.max_frame_size) n)) [
              | inl long ↦ rw long tt
              | inr short ↦ rw short (body-Got header n s2 small (within n s2 h2 short) h2)
            ]
