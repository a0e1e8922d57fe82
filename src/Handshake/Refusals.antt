-- ===== src/Handshake/Refusals.antt =====
-- Which requests the server of src/handshake.rs refuses, and which responses the client accepts.
use socket_flow.Prelude.{
  ◌≡◌, ◌≢◌, ◌↔◌, refl, sym, ap, ◌∙◌, ◌⊎◌, inl, inr, Bool, true, false, Option, none, some, List,
  Option-cases, Bool-cases,
}
use socket_flow.Error.{
  Error, Outcome, ok, err, invalid_http_handshake, no_host_header_present, no_sec_websocket_key,
  invalid_accept_key,
}
use socket_flow.Config.{Extensions}
use socket_flow.Source.{Arrival}
use socket_flow.Text.{Text, same_text}
use socket_flow.Text.Same.{same_text_cases}
use socket_flow.Text.Pieces.{contains_text}
use socket_flow.Extensions.{parse_extensions, merge_extensions}
use socket_flow.Request.{HttpRequest, get_header_value, parse_http_request}
use socket_flow.Utils.{Digest, generate_websocket_accept_value}
use socket_flow.Writer.{Writer}
use socket_flow.Handshake.{
  Socket, http_method, host_header, sec_websocket_key, sec_websocket_extensions,
  sec_websocket_accept, text_or_default, answer_request, answer_key, parse_handshake_server,
  check_response, parse_handshake_client,
}

-- What is wrong with a request, in the order of the checks.
pub data Refusal (r : HttpRequest) : Error → Type 0 where
  other_method : r.method ≢ http_method → Refusal r invalid_http_handshake
  no_host :
      r.method ≡ http_method
      → get_header_value host_header r ≡ none
      → Refusal r no_host_header_present
  no_key :
      (host : Text)
      → r.method ≡ http_method
      → get_header_value host_header r ≡ some host
      → get_header_value sec_websocket_key r ≡ none
      → Refusal r no_sec_websocket_key

-- The extensions that a request asks for.
abbrev pub asked : HttpRequest → Option Extensions
asked r = parse_extensions (text_or_default (get_header_value sec_websocket_extensions r))

module _ (digest : Digest) (server : Option Extensions) (r : HttpRequest) (s : Socket) where
  -- A request that is answered.
  pub record Answered (result : Outcome (Option Extensions) × Socket) : Type 0 where
    pub host : Text
    pub key : Text
    pub is_get : r.method ≡ http_method
    pub has_host : get_header_value host_header r ≡ some host
    pub has_key : get_header_value sec_websocket_key r ≡ some key
    pub answer : result ≡ answer_key digest key (merge_extensions server (asked r)) s

  pub Refused : Outcome (Option Extensions) × Socket → Type 0
  Refused result = (e : Error) × Refusal r e × (result ≡ (err e, s))

  refused_method :
      same_text r.method http_method ≡ false
      → answer_request digest server r s ≡ (err invalid_http_handshake, s)
  unfolding answer_request
  refused_method m = rw (answer_request, m) refl

  module _ (m : same_text r.method http_method ≡ true) where
    refused_host :
        get_header_value host_header r ≡ none
        → answer_request digest server r s ≡ (err no_host_header_present, s)
    unfolding answer_request
    refused_host h = rw (answer_request, m, h) refl

    refused_key :
        (host : Text)
        → get_header_value host_header r ≡ some host
        → get_header_value sec_websocket_key r ≡ none
        → answer_request digest server r s ≡ (err no_sec_websocket_key, s)
    unfolding answer_request
    refused_key host h k = rw (answer_request, m, h, k) refl

    answered :
        (host key : Text)
        → get_header_value host_header r ≡ some host
        → get_header_value sec_websocket_key r ≡ some key
        → answer_request digest server r s
          ≡ answer_key digest key (merge_extensions server (asked r)) s
    unfolding answer_request
    answered host key h k = rw (answer_request, m, h, k) refl

  answer_request_cases :
      Refused (answer_request digest server r s) ⊎ Answered (answer_request digest server r s)
  unfolding Refused
  answer_request_cases = elim (same_text_cases r.method http_method) [
    | inr (other, e) ↦ inl (invalid_http_handshake, other_method e, refused_method other)
    | inl (same, e) ↦ elim (Option-cases (get_header_value host_header r)) [
      | inl h ↦ inl (no_host_header_present, no_host e h, refused_host same h)
      | inr (host, h) ↦ elim (Option-cases (get_header_value sec_websocket_key r)) [
        | inl k ↦ inl (no_sec_websocket_key, no_key host e h k, refused_key same host h k)
        | inr (key, k) ↦ inr (record {
          host = host;
          key = key;
          is_get = e;
          has_host = h;
          has_key = k;
          answer = answered same host key h k;
        })
      ]
    ]
  ]

ok_inj :
    (x y : Option Extensions) (s : Socket)
    → ◌≡◌ {A = Outcome (Option Extensions) × Socket} (ok x, s) (ok y, s)
    → x ≡ y
ok_inj x y s e = cc

err-ok :
    (e : Error) (y : Option Extensions) (s : Socket)
    → ◌≡◌ {A = Outcome (Option Extensions) × Socket} (err e, s) (ok y, s)
    → ⊥
err-ok e y s h = cc

module _ (unicode : Text → Text) (digest : Digest) (src rest : List Arrival) (w : Writer)
    (r : HttpRequest) (read : parse_http_request unicode src ≡ (ok r, rest)) where
  abbrev arrived : Socket
  arrived = record { source = src; write_half = w }

  abbrev pub after_head : Socket
  after_head = record { source = rest; write_half = w }

  -- Let the server have read a request. Either it refuses it, with the error for the first of these
  -- that holds: the method is not GET, there is no host, there is no key; and then nothing has gone
  -- out. Or the method is GET, host and key are there, and it answers that key with the merge of
  -- its own extensions and those asked for. No other header is looked at, nor the version.
  pub parse_handshake_server_refuses :
      (server : Option Extensions)
      → Refused digest server r after_head (parse_handshake_server unicode digest server arrived)
        ⊎ Answered digest server r after_head (parse_handshake_server unicode digest server arrived)
  unfolding parse_handshake_server
  parse_handshake_server_refuses server = rw read (answer_request_cases digest server r after_head)

  accept_expected : Text → Bool
  accept_expected key =
      contains_text (text_or_default (get_header_value sec_websocket_accept r))
        (generate_websocket_accept_value digest key)

  client_accepted :
      (key : Text)
      → accept_expected key ≡ true
      → parse_handshake_client unicode digest key arrived ≡ (ok (asked r), after_head)
  unfolding parse_handshake_client check_response accept_expected
  client_accepted key h = rw (read, check_response, h) refl

  client_refused :
      (key : Text)
      → accept_expected key ≡ false
      → parse_handshake_client unicode digest key arrived ≡ (err invalid_accept_key, after_head)
  unfolding parse_handshake_client check_response accept_expected
  client_refused key h = rw (read, check_response, h) refl

  -- Let the client have read a response. It settles on the extensions that the response names
  -- exactly when the accept header has the value for its key in it; the status and all else are not
  -- looked at.
  pub parse_handshake_client_iff :
      (key : Text) (agreed : Option Extensions)
      → (parse_handshake_client unicode digest key arrived ≡ (ok agreed, after_head)) ↔ (
          (contains_text
              (text_or_default (get_header_value sec_websocket_accept r))
              (generate_websocket_accept_value digest key)
            ≡ true)
          × (asked r ≡ agreed))
  parse_handshake_client_iff key agreed = elim (Bool-cases (accept_expected key)) [
    | inl yes_there ↦ (
      λ e. (
        unfold accept_expected in yes_there,
        ok_inj (asked r) agreed after_head (sym (client_accepted key yes_there) ∙ e),
      ),
      λ h. client_accepted key yes_there ∙ ap (λ x. (ok x, after_head)) h.1,
    )
    | inr missing ↦ (
      λ e.
          absurd
            (err-ok invalid_accept_key agreed after_head (sym (client_refused key missing) ∙ e)),
      λ h. absurd (let there : accept_expected key ≡ true = unfold accept_expected in h.0 in cc),
    )
  ]
