-- ===== src/Flate/Copying.antt =====
-- A compressor that meets the interface: it copies, as much as the room takes, and puts out the
-- marker of a flush behind what it has copied.
use socket_flow.Prelude.{ℕ, zero, suc, ◌+◌, List, [], ◌∷◌, length, take, drop}
use socket_flow.Flate.{Status, Step, done, Deflate}

-- The state is the count of bytes taken, and what is pending.
abbrev pub copy_out : ℕ × List ℕ → List ℕ → ℕ → Step (ℕ × List ℕ)
copy_out s [] space = done (s.0, drop space s.1) (take space s.1) Status.ok
copy_out s (b ∷ bs) zero = done s [] Status.buf_error
copy_out s (b ∷ bs) (suc space) =
    done (s.0 + length (take (suc space) (b ∷ bs)), 0 ∷ 0 ∷ 0xFF ∷ 0xFF ∷ [])
      (take (suc space) (b ∷ bs)) Status.ok

abbrev pub copying : Deflate
copying = record {
  State = ℕ × List ℕ;
  new = λ bits. (0, []);
  reset = λ s. (0, []);
  total_in = λ s. s.0;
  compress_vec = copy_out;
}
