-- ===== src/Reader/Steps.antt =====
-- The rounds of `poll_messages` in src/read.rs as a step relation: a frame is read and handled,
-- and the loop goes on.
use socket_flow.Prelude.{ℕ, zero, suc, ◌≡◌, refl}
use socket_flow.Error.{ok}
use socket_flow.Frame.{Frame}
use socket_flow.Flate.{Inflate}
use socket_flow.Reader.{ReadStream, read_frame}
use socket_flow.Reader.Poll.{again, handle_frame, poll_messages}

module _ (fl : Inflate) (rounds : ℕ) where
  pub data Steps : ℕ → ReadStream fl.State → ReadStream fl.State → Type 0 where
    here : (s : ReadStream fl.State) → Steps zero s s
    next :
        (n : ℕ) (s mid after t : ReadStream fl.State) (f : Frame)
        → read_frame fl rounds s ≡ (ok f, mid)
        → handle_frame fl rounds f mid ≡ (ok again, after)
        → Steps n after t
        → Steps (suc n) s t

  pub rounds_after : ℕ → ℕ → ℕ
  rounds_after zero fuel = fuel
  rounds_after (suc n) fuel = suc (rounds_after n fuel)

  -- The loop makes the rounds that the relation allows, and then goes on from where they lead.
  pub poll_messages-Steps :
      {n : ℕ} {s t : ReadStream fl.State} (fuel : ℕ)
      → Steps n s t
      → poll_messages fl rounds (rounds_after n fuel) s ≡ poll_messages fl rounds fuel t
  unfolding poll_messages rounds_after
  poll_messages-Steps fuel (here s) = refl
  poll_messages-Steps fuel (next n s mid after t f r h steps) =
      rw (r, h) (poll_messages-Steps fuel steps)
