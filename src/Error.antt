-- ===== src/Error.antt =====
-- src/error.rs: the errors of the crate, and how an operation ends.
-- `Outcome` is Rust's `Result` with the two other ways in which a call may fail to return: a
-- panic, and a loop that has used up the fuel that its model was given.
use socket_flow.Prelude.{ℕ, Bool, true, false, Option, none, some, List}

-- The `source` of an error that wraps one of the standard library or of a dependency: what the
-- program itself tells apart of it.
pub data IoError : Type 0 where
  unexpected_eof : IoError
  broken_pipe : IoError
  invalid_deflate : IoError
  connection_failed : IoError

pub data Error : Type 0 where
  send_error : Error
  communication_error : Error
  timeout : Error
  io_error : IoError → Error
  from_utf8_error : Error
  invalid_http_handshake : Error
  no_connection_header_present : Error
  no_upgrade_header_present : Error
  no_host_header_present : Error
  no_sec_websocket_key : Error
  no_upgrade : Error
  invalid_accept_key : Error
  rsv_not_zero : Error
  control_frames_fragmented : Error
  control_frame_payload_size : Error
  custom_fragment_size_exceeded : ℕ → ℕ → Error
  max_frame_size : Error
  max_message_size : Error
  invalid_frame_fragmentation : Error
  fragmented_in_progress : Error
  invalid_continuation_frame : Error
  invalid_opcode : Error
  http_parse_error : Error
  invalid_http_request_line : Error
  missing_http_method : Error
  missing_http_uri : Error
  missing_http_version : Error
  invalid_content_length : Error
  url_parse_error : Error
  invalid_scheme_url : Error
  url_no_host : Error
  url_no_port : Error
  incomplete_http_request : Error
  domain_error : Error
  scheme_against_tls_config : Bool → List ℕ → Error
  invalid_max_window_bits : Error

-- How a call ended. Where it did not come back, its loop was out of rounds, or it waits for
-- something that does not happen.
pub data Outcome {ℓ} (A : Type ℓ) : Type ℓ where
  ok : A → Outcome A
  err : Error → Outcome A
  panic : Outcome A
  hang : Outcome A
  waits : Outcome A

-- The `?` operator on a value.
infixl 5 ◌>>=◌ ◌>>◌
abbrev pub ◌>>=◌ {ℓ κ} : {A : Type ℓ} {B : Type κ} → Outcome A → (A → Outcome B) → Outcome B
ok a >>= f = f a
err e >>= f = err e
panic >>= f = panic
hang >>= f = hang
waits >>= f = waits

abbrev pub ◌>>◌ {ℓ} : {B : Type ℓ} → Outcome (Unit {0}) → Outcome B → Outcome B
m >> k = m >>= λ _. k

-- `if test { return Err(e) }`.
abbrev pub refuse_if : Bool → Error → Outcome (Unit {0})
refuse_if true e = err e
refuse_if false e = ok tt

-- `Option::ok_or`.
abbrev pub ok_or {ℓ} : {A : Type ℓ} → Option A → Error → Outcome A
ok_or none e = err e
ok_or (some a) e = ok a
