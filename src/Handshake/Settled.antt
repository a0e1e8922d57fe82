-- ===== src/Handshake/Settled.antt =====
-- What the two ends of src/handshake.rs settle on.
use socket_flow.Prelude.{
  ℕ, ◌≡◌, refl, sym, ap, ◌∙◌, Bool-cases, inl, inr, Bool, Option, none, some, List, arith,
}
use socket_flow.Config.{Extensions, extensions_or_default}
use socket_flow.Text.{Text}
use socket_flow.Text.Bytes.{as_bytes}
use socket_flow.Extensions.{merge_extensions, merge_bits, add_extension_headers}
use socket_flow.Extensions.Parsed.{IsU8, announced}
use socket_flow.Request.Construct.{request_text}
use socket_flow.Request.Built.{IsSmall}
use socket_flow.Utils.{Digest}
use socket_flow.Handshake.{accept_response}
use socket_flow.Halves.{HasWindows}
use socket_flow.Handshake.Replies.{heard, heard_on, heard_off}

IsU8-merge_bits : (a b : Option ℕ) → IsU8 a → IsU8 b → IsU8 (merge_bits a b)
unfolding merge_bits
IsU8-merge_bits (some a) (some b) h k = omega arith
IsU8-merge_bits (some a) none h k = h
IsU8-merge_bits none (some b) h k = k
IsU8-merge_bits none none h k = tt

pub IsSmall-merge_extensions :
    (server client : Option Extensions)
    → IsSmall server
    → IsSmall client
    → IsSmall (merge_extensions server client)
unfolding merge_extensions
IsSmall-merge_extensions none client h k = tt
IsSmall-merge_extensions (some s) none h k = tt
IsSmall-merge_extensions (some s) (some c) h k = (
  IsU8-merge_bits s.client_max_window_bits c.client_max_window_bits h.0 k.0,
  IsU8-merge_bits s.server_max_window_bits c.server_max_window_bits h.1 k.1,
)

pub IsSmall-heard :
    (extensions : Option Extensions) → IsSmall extensions → IsSmall (heard extensions)
IsSmall-heard none h = unfold heard in tt
IsSmall-heard (some e) h = elim (Bool-cases e.permessage_deflate) [
  | inl on ↦ rw (heard_on e on) (unfold announced in h)
  | inr off ↦ rw (heard_off e off) tt
]

abbrev pub enabled : Option Extensions → Bool
enabled extensions = (extensions_or_default extensions).permessage_deflate

-- Both ends agree on whether compression is on.
pub enabled-heard :
    (extensions : Option Extensions) → enabled (heard extensions) ≡ enabled extensions
enabled-heard none = unfold heard in refl
enabled-heard (some e) = elim (Bool-cases e.permessage_deflate) [
  | inl on ↦ ap enabled (heard_on e on) ∙ unfold announced in refl
  | inr off ↦ ap enabled (heard_off e off) ∙ sym off
]

-- Window bits that the library takes, where the other end hears of them.
pub HasWindows-heard :
    (extensions : Option Extensions) → HasWindows extensions → HasWindows (heard extensions)
HasWindows-heard none h = unfold heard in h
HasWindows-heard (some e) h = elim (Bool-cases e.permessage_deflate) [
  | inl on ↦ rw (heard_on e on) (unfold announced in h)
  | inr off ↦ rw (heard_off e off) (refl, refl)
]

-- What the two ends settle on, and the heads that they send.
abbrev pub agreed_extensions : Option Extensions → Option Extensions → Option Extensions
agreed_extensions server client = merge_extensions server (heard client)

abbrev pub sent_request : Text → Text → Text → Option Extensions → List ℕ
sent_request path host key client =
    as_bytes (add_extension_headers (request_text path host key) client)

abbrev pub sent_response : Digest → Text → Option Extensions → Option Extensions → List ℕ
sent_response digest key server client =
    as_bytes (accept_response digest key (agreed_extensions server client))
