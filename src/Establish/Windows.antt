-- ===== src/Establish/Windows.antt =====
-- src/handshake.rs with src/decoder.rs: window bits that the compression library does not take.
use socket_flow.Prelude.{
  arith, ℕ, ◌≤◌, ◌<◌, ◌≡◌, refl, sym, ap, subst, ◌∙◌, true, false, Bool-cases, inl, inr,
  if◌then◌else◌, Option, none, some, List, ◌++◌, All, length,
}
use socket_flow.Error.{ok, panic}
use socket_flow.Config.{Extensions, WebSocketConfig, extensions_or_default}
use socket_flow.Source.{Arrival, bytes}
use socket_flow.Text.{Text}
use socket_flow.Text.Cut.{IsVisible, IsWord}
use socket_flow.Extensions.{add_extension_headers, merge_extensions, merge_bits}
use socket_flow.Extensions.Parsed.{announced}
use socket_flow.Flate.{Inflate, Deflate, accepts_window}
use socket_flow.Writer.{Writer, WriterKind}
use socket_flow.Writer.Fits.{wrote, write_all_fits}
use socket_flow.Request.Construct.{request_text}
use socket_flow.Request.Built.{IsSmall, surplus}
use socket_flow.Utils.{Digest, IsPrintable}
use socket_flow.Handshake.Replies.{heard, heard_on, heard_off}
use socket_flow.Handshake.Settled.{agreed_extensions, sent_request, sent_response, enabled}
use socket_flow.Handshake.Agreement.{server_accepts, client_accepts}
use socket_flow.Halves.{HasWindows, end_of, end_of_lem, end_of_panics}
use socket_flow.Establish.{finish_handshake, accept_async_with_config, connect_on}
use socket_flow.Establish.Session.{client_end}

abbrev client_bits : Option Extensions → Option ℕ
client_bits extensions = (extensions_or_default extensions).client_max_window_bits

-- The other end hears of window bits where compression is on, and of nothing where it is off.
client_bits-heard :
    (e : Option Extensions) → enabled e ≡ true → client_bits (heard e) ≡ client_bits e
client_bits-heard none on = unfold heard in refl
client_bits-heard (some e) on = rw (heard_on e on) (unfold announced in refl)

heard_disabled : (e : Option Extensions) → enabled e ≡ false → heard e ≡ none
heard_disabled none off = unfold heard in refl
heard_disabled (some e) off = heard_off e off

-- The window is the smaller of two, so it is too small where that of the client is.
merge_bits_small :
    (server : Option ℕ) (bits : ℕ)
    → bits < 9
    → accepts_window (merge_bits server (some bits)) ≡ false
unfolding merge_bits
merge_bits_small none bits h = ground arith
merge_bits_small (some a) bits h = ground arith

module _ (s c : Extensions) (bits : ℕ) (on : c.permessage_deflate ≡ true)
    (offers : c.client_max_window_bits ≡ some bits) (few : bits < 9) where
  agreed_bits_small : accepts_window (client_bits (agreed_extensions (some s) (some c))) ≡ false
  unfolding merge_extensions announced
  agreed_bits_small =
      rw (heard_on c on, offers) (merge_bits_small s.client_max_window_bits bits few)

  agreed_enabled : enabled (agreed_extensions (some s) (some c)) ≡ s.permessage_deflate
  unfolding merge_extensions announced
  agreed_enabled = rw (heard_on c on, on) refl

  heard_bits_small :
      s.permessage_deflate ≡ true
      → accepts_window (client_bits (heard (agreed_extensions (some s) (some c)))) ≡ false
  heard_bits_small s_on =
      ap accepts_window
        (client_bits-heard (agreed_extensions (some s) (some c)) (agreed_enabled ∙ s_on))
      ∙ agreed_bits_small

  nothing_heard : s.permessage_deflate ≡ false → heard (agreed_extensions (some s) (some c)) ≡ none
  nothing_heard s_off =
      heard_disabled (agreed_extensions (some s) (some c)) (agreed_enabled ∙ s_off)

module _ (fl : Inflate) (de : Deflate) (unicode : Text → Text) (digest : Digest)
    (printable : IsPrintable digest) (path host key : Text) (server client : WebSocketConfig)
    (path_word : IsWord path) (host_visible : All IsVisible host) (key_visible : All IsVisible key)
    (server_small : IsSmall server.extensions) (client_small : IsSmall client.extensions) where
  abbrev agreed : Option Extensions
  agreed = agreed_extensions server.extensions client.extensions

  abbrev request : List ℕ
  request = sent_request path host key client.extensions

  abbrev response : List ℕ
  response = sent_response digest key server.extensions client.extensions

  accept_panics :
      (rest : List Arrival) (w : Writer)
      → length response ≤ w.room
      → accepts_window (client_bits agreed) ≡ false
      → (accept_async_with_config fl de unicode digest
          (some server)
          (record { source = bytes request ++ rest; write_half = w })).0
        ≡ panic
  unfolding accept_async_with_config finish_handshake
  accept_panics rest w room few =
      rw
        (server_accepts unicode digest printable path host key server.extensions client.extensions
          path_word host_visible key_visible server_small client_small rest w room)
        (end_of_panics fl de WriterKind.server (record server { extensions = agreed }) _ few)

  -- What the client comes to from the response is up to the extensions that it hears of.
  connect_ends :
      (more : List Arrival) (v : Writer)
      → length request ≤ v.room
      → (connect_on fl de unicode digest client key
          (add_extension_headers (request_text path host key) client.extensions)
          (record { source = bytes response ++ more; write_half = v })).0
        ≡ end_of fl de WriterKind.client
            (record client { extensions = heard agreed })
            (record { source = bytes (surplus agreed) ++ more; write_half = wrote request v })
  unfolding connect_on finish_handshake
  connect_ends more v room =
      rw
        (
          write_all_fits request v room,
          client_accepts unicode digest printable path host key server.extensions client.extensions
              path_word host_visible key_visible server_small client_small more (wrote request v),
        )
        refl

  module _ (s c : Extensions) (bits : ℕ) (sets : server.extensions ≡ some s)
      (offers : client.extensions ≡ some c) (on : c.permessage_deflate ≡ true)
      (offers_bits : c.client_max_window_bits ≡ some bits) (few : bits < 9) where
    agreed_lem : agreed ≡ agreed_extensions (some s) (some c)
    agreed_lem = rw (sets, offers) refl

    client_ends :
        (more : List Arrival) (v : Writer)
        → end_of fl de WriterKind.client
            (record client { extensions = heard agreed })
            (record { source = bytes (surplus agreed) ++ more; write_half = wrote request v })
          ≡ (if s.permessage_deflate
              then panic
              else ok (
                  client_end fl de unicode digest printable path host key server client path_word
                    host_visible key_visible server_small client_small more v))
    client_ends more v = elim (Bool-cases s.permessage_deflate) [
      | inl s_on ↦ rw s_on (
          end_of_panics fl de WriterKind.client (record client { extensions = heard agreed }) _
            (ap (λ e. accepts_window (client_bits (heard e))) agreed_lem
              ∙ heard_bits_small s c bits on offers_bits few s_on))
      | inr s_off ↦ rw s_off (
          end_of_lem fl de WriterKind.client (record client { extensions = heard agreed }) _
            (subst HasWindows
              (sym (ap heard agreed_lem ∙ nothing_heard s c bits on offers_bits few s_off))
              (refl, refl)))
    ]

    -- A client with compression on offers a window of fewer than nine bits for what it sends, and
    -- the server has extensions set. From the request that the client puts out, whatever arrives
    -- behind it, the server that has room for the response panics. From the response the client
    -- that has room for its request panics too if the server has compression on, and has its
    -- connection otherwise. The conditions: a digest is printable; the path is a word, the host
    -- and the key are visible, and windows are small on both ends.
    pub few_bits_panic :
        (more rest : List Arrival) (v w : Writer)
        → length request ≤ v.room
        → length response ≤ w.room
        → ((accept_async_with_config fl de unicode digest
              (some server)
              (record { source = bytes request ++ rest; write_half = w })).0
            ≡ panic)
          × ((connect_on fl de unicode digest client key
                (add_extension_headers (request_text path host key) client.extensions)
                (record { source = bytes response ++ more; write_half = v })).0
              ≡ (if s.permessage_deflate
                  then panic
                  else ok (
                      client_end fl de unicode digest printable path host key server client
                        path_word host_visible key_visible server_small client_small more v)))
    few_bits_panic more rest v w v_room w_room = (
      accept_panics rest w w_room (
          ap (λ e. accepts_window (client_bits e)) agreed_lem
          ∙ agreed_bits_small s c bits on offers_bits few),
      connect_ends more v v_room ∙ client_ends more v,
    )
