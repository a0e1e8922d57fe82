-- ===== src/Writer/Masking.antt =====
-- Masking in src/write.rs and src/read.rs, on and off.
use socket_flow.Prelude.{
  ℕ, zero, suc, ◌%◌, ◌<◌, ◌≡◌, refl, ap, ap₂, List, [], ◌∷◌, length, IsBytes, arith,
}
use socket_flow.Prelude.Bits.{bit_xor-bit_xor}
use socket_flow.Writer.{Writer, Mask, key_at, mask_index, mask_bytes, apply_mask, next_mask}

abbrev pub IsMask : Mask → Type 0
IsMask m = IsBytes (mask_bytes m)

key_at-lt : (i : ℕ) (m : Mask) → IsMask m → key_at i m < 256
unfolding key_at
key_at-lt zero m h = h.0
key_at-lt (suc zero) m h = h.1.0
key_at-lt (suc (suc zero)) m h = h.1.1.0
key_at-lt (suc (suc (suc i))) m h = h.1.1.1.0

pub length-apply_mask : (m : Mask) (i : ℕ) (bs : List ℕ) → length (apply_mask m i bs) ≡ length bs
unfolding apply_mask
length-apply_mask m i [] = refl
length-apply_mask m i (b ∷ bs) = ap suc (length-apply_mask m (suc i) bs)

-- A mask of four bytes, applied twice to bytes from one index on, gives them back.
pub apply_mask-apply_mask :
    (m : Mask) (i : ℕ) (bs : List ℕ)
    → IsMask m
    → IsBytes bs
    → apply_mask m i (apply_mask m i bs) ≡ bs
unfolding apply_mask mask_index
apply_mask-apply_mask m i [] hm h = refl
apply_mask-apply_mask m i (b ∷ bs) hm h =
    ap₂ ◌∷◌ (bit_xor-bit_xor b (key_at (i % 4) m) h.0 (key_at-lt (i % 4) m hm))
      (apply_mask-apply_mask m (suc i) bs hm h.1)

pub next_mask-IsMask : (w : Writer) → IsMask (next_mask w)
unfolding next_mask
next_mask-IsMask w = omega arith
