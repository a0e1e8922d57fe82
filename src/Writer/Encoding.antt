-- ===== src/Writer/Encoding.antt =====
-- The bytes of a frame, described apart from the calls that write them.
use socket_flow.Prelude.{
  ℕ, ◌+◌, ◌*◌, ◌/◌, ◌%◌, Bool, List, [], ◌∷◌, ◌++◌, leb, if◌then◌else◌, length,
}
use socket_flow.Prelude.Bits.{bit}
use socket_flow.Writer.{Writer, WriterKind, client, server, Mask, mask_bytes, apply_mask}
use socket_flow.Writer.{to_be_bytes, next_mask}
use socket_flow.Frame.{Frame, as_u8}

-- FIN, RSV1, two zero bits and the opcode.
unfoldable pub head_byte : Frame → Bool → ℕ
head_byte frame rsv1 = bit frame.final_fragment * 128 + bit rsv1 * 64 + as_u8 frame.opcode

-- The length in its shortest form, with `flag` 128 before a mask and 0 before none.
unfoldable pub length_bytes : ℕ → ℕ → List ℕ
length_bytes flag n =
    if leb n 125
    then (flag + n) ∷ []
    else if leb n 65535
    then (flag + 126) ∷ n / 256 ∷ n % 256 ∷ []
    else (flag + 127) ∷ to_be_bytes n

unfoldable pub encode_plain : Frame → Bool → List ℕ
encode_plain frame rsv1 =
    head_byte frame rsv1 ∷ (length_bytes 0 (length frame.payload) ++ frame.payload)

unfoldable pub encode_masked : Mask → Frame → Bool → List ℕ
encode_masked mask frame rsv1 =
    head_byte frame rsv1
    ∷ (length_bytes 128 (length frame.payload)
        ++ (mask_bytes mask ++ apply_mask mask 0 frame.payload))

-- What a writer of either kind puts out for a frame.
abbrev pub encode_by : WriterKind → Mask → Frame → Bool → List ℕ
encode_by client mask frame rsv1 = encode_masked mask frame rsv1
encode_by server mask frame rsv1 = encode_plain frame rsv1

unfoldable pub encode : Writer → Frame → Bool → List ℕ
encode w frame rsv1 = encode_by w.kind (next_mask w) frame rsv1
