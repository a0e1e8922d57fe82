-- ===== src/Utils.antt =====
-- src/utils.rs: the key of a client and the value that accepts it. SHA-1 and base64 are crates, and
-- so is the generator of random bytes: they are parameters.
use socket_flow.Prelude.{ℕ, List, ◌++◌}
use socket_flow.Text.{Text, codes}
use socket_flow.Text.Bytes.{as_bytes}
use socket_flow.Text.Cut.{IsVisible}
use socket_flow.Prelude.{All}

pub record Digest : Type 0 where
  pub sha1 : List ℕ → List ℕ
  pub base64 : List ℕ → Text

-- The standard alphabet of base64 is letters, digits and three signs, all of them printable.
abbrev pub IsPrintable : Digest → Type 0
IsPrintable d = (bytes : List ℕ) → All IsVisible (d.base64 bytes)

abbrev pub uuid : Text
uuid = codes "258EAFA5-E914-47DA-95CA-C5AB0DC85B11"

unfoldable pub generate_websocket_accept_value : Digest → Text → Text
generate_websocket_accept_value d key = d.base64 (d.sha1 (as_bytes key ++ as_bytes uuid))

-- From the random bytes that were drawn.
abbrev pub generate_websocket_key : Digest → List ℕ → Text
generate_websocket_key d random_bytes = d.base64 random_bytes
