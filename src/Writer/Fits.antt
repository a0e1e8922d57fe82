-- ===== src/Writer/Fits.antt =====
-- A write of src/write.rs that the connection has room for.
use socket_flow.Prelude.{◌-◌, ◌≤◌, ◌≡◌, refl, ℕ, List, ◌++◌, length, le→leb}
use socket_flow.Error.{ok}
use socket_flow.Writer.{Writer, write_all}

-- The writer behind it.
abbrev pub wrote : List ℕ → Writer → Writer
wrote bs w = record w { written = w.written ++ bs; room = w.room - length bs }

pub write_all_fits :
    (bs : List ℕ) (w : Writer) → length bs ≤ w.room → write_all bs w ≡ (ok tt, wrote bs w)
unfolding write_all
write_all_fits bs w h = rw (le→leb (length bs) w.room h) refl
