-- ===== src/Reader/Reads.antt =====
-- The reads that make up `read_frame` in src/read.rs, on bytes that are there.
use socket_flow.Prelude.{
  ℕ, ◌/◌, ◌%◌, ◌<◌, ◌^◌, ◌≡◌, refl, true, some, List, [], ◌∷◌, ◌++◌, length, arith,
}
use socket_flow.Error.{ok}
use socket_flow.Config.{deflate_enabled}
use socket_flow.Writer.{Mask, mask_bytes}
use socket_flow.Writer.Lengths.{
  length_code, length_extra, from_be_bytes_two, from_be_bytes-to_be_bytes,
}
use socket_flow.Writer.{to_be_bytes}
use socket_flow.Source.{Arrival, byte, bytes}
use socket_flow.Source.Laws.{read_exact-bytes, read_exact_within-bytes}
use socket_flow.Header.{parse_header}
use socket_flow.Reader.{ReadStream, read_bytes, read_payload, read_header, read_length, read_mask}

-- The same reader at another place of its input.
abbrev pub at_source : {S : Type 0} → ReadStream S → List Arrival → ReadStream S
at_source s src = record s { source = src }

module _ {S : Type 0} (s : ReadStream S) (src : List Arrival) where
  pub read_bytes_lem :
      (n : ℕ) (bs : List ℕ)
      → n ≡ length bs
      → read_bytes n (at_source s (bytes bs ++ src)) ≡ (ok bs, at_source s src)
  unfolding read_bytes
  read_bytes_lem n bs e = rw (read_exact-bytes src n bs e)

  pub read_payload_lem :
      (n : ℕ) (bs : List ℕ)
      → n ≡ length bs
      → read_payload n (at_source s (bytes bs ++ src)) ≡ (ok bs, at_source s src)
  unfolding read_payload
  read_payload_lem n bs e = rw (read_exact_within-bytes src 4 n bs e)

  pub read_header_lem :
      (b0 b1 : ℕ)
      → read_header (at_source s (byte b0 ∷ byte b1 ∷ src))
        ≡ (parse_header (deflate_enabled s.config) b0 b1, at_source s src)
  unfolding read_header
  read_header_lem b0 b1 = rw (read_bytes_lem 2 (b0 ∷ b1 ∷ []) refl)

  pub read_mask_lem :
      (m : Mask)
      → read_mask true (at_source s (bytes (mask_bytes m) ++ src)) ≡ (ok (some m), at_source s src)
  unfolding read_mask
  read_mask_lem m = rw (read_bytes_lem 4 (mask_bytes m) refl)

  pub read_length_lem :
      (n : ℕ)
      → n < 2 ^ 64
      → read_length (length_code n) (at_source s (bytes (length_extra n) ++ src))
        ≡ (ok n, at_source s src)
  unfolding read_length length_code length_extra to_be_bytes
  read_length_lem n h = ground (
    arith,
    read_bytes_lem 2 (n / 256 ∷ n % 256 ∷ []) refl,
    read_bytes_lem 8 (to_be_bytes n) refl,
    from_be_bytes_two n,
    from_be_bytes-to_be_bytes n h,
  )
