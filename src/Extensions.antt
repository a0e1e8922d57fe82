-- ===== src/Extensions.antt =====
-- src/extensions.rs: the extensions that a request offers are parsed, merged with those of the
-- server, and printed as a header. The record itself stands in Config.
pub mod Merge
pub mod Printed
pub mod Parsed
pub mod RoundTrip
pub mod Values
use socket_flow.Prelude.{
  ℕ, min, Bool, true, false, ◌&&◌, not, Option, none, some, List, [], ◌∷◌, ◌++◌, if◌then◌else◌,
}
use socket_flow.Config.{Extensions, default_extensions}
use socket_flow.Text.{
  Text, codes, same_text, starts_with, contains, trim, split, last, parse_u8, show_u8,
}

abbrev pub permessage_deflate : Text
permessage_deflate = codes "permessage-deflate"

abbrev pub client_no_context_takeover : Text
client_no_context_takeover = codes "client_no_context_takeover"

abbrev pub server_no_context_takeover : Text
server_no_context_takeover = codes "server_no_context_takeover"

abbrev pub client_max_window_bits : Text
client_max_window_bits = codes "client_max_window_bits"

abbrev pub server_max_window_bits : Text
server_max_window_bits = codes "server_max_window_bits"

-- The window bits of a parameter: 15 without a value, else what the text behind the last equals
-- sign says. The outer option is the `?` after `last()`.
unfoldable pub window_bits : Text → Option (Option ℕ)
window_bits part =
    if not (contains part b'=')
    then some (some 15)
    else elim (last (split b'=' (trim part))) [ none ↦ none | some v ↦ some (parse_u8 v) ]

abbrev with_client_bits : Extensions → Option (Option ℕ) → Option Extensions
with_client_bits e none = none
with_client_bits e (some bits) = some (record e { client_max_window_bits = bits })

abbrev with_server_bits : Extensions → Option (Option ℕ) → Option Extensions
with_server_bits e none = none
with_server_bits e (some bits) = some (record e { server_max_window_bits = bits })

-- One round of the loop of `parse_extensions`.
unfoldable pub read_part : Text → Extensions → Option Extensions
read_part part e =
    let name = trim part in
    if same_text name permessage_deflate
    then some (record e { permessage_deflate = true })
    else if starts_with name client_no_context_takeover
    then some (record e { client_no_context_takeover = some true })
    else if starts_with name server_no_context_takeover
    then some (record e { server_no_context_takeover = some true })
    else if starts_with name client_max_window_bits
    then with_client_bits e (window_bits part)
    else if starts_with name server_max_window_bits
    then with_server_bits e (window_bits part)
    else some e

unfoldable pub read_parts : List Text → Extensions → Option Extensions
read_parts [] e = some e
read_parts (part ∷ parts) e = elim (read_part part e) [
  | none ↦ none
  | some e' ↦ read_parts parts e'
]

unfoldable pub if_enabled : Option Extensions → Option Extensions
if_enabled none = none
if_enabled (some e) = if not e.permessage_deflate then none else some e

unfoldable pub parse_extensions : Text → Option Extensions
unfolding if_enabled
parse_extensions value = if_enabled (read_parts (split b';' value) default_extensions)

-- `Option::and`.
abbrev pub and_option : Option Bool → Option Bool → Option Bool
and_option none y = none
and_option (some x) y = y

unfoldable pub merge_bits : Option ℕ → Option ℕ → Option ℕ
merge_bits (some server) (some client) = some (min server client)
merge_bits (some server) none = some server
merge_bits none (some client) = some client
merge_bits none none = none

unfoldable pub merge_extensions : Option Extensions → Option Extensions → Option Extensions
merge_extensions none c = none
merge_extensions (some s) none = none
merge_extensions (some s) (some c) = some (record {
  permessage_deflate = c.permessage_deflate && s.permessage_deflate;
  client_no_context_takeover = and_option s.client_no_context_takeover c.client_no_context_takeover;
  server_no_context_takeover = and_option s.server_no_context_takeover c.server_no_context_takeover;
  client_max_window_bits = merge_bits s.client_max_window_bits c.client_max_window_bits;
  server_max_window_bits = merge_bits s.server_max_window_bits c.server_max_window_bits;
})

-- `request.push_str(..)` of a parameter without a value, and of one with.
unfoldable pub push_flag : Text → Option Bool → Text → Text
push_flag name (some true) request = request ++ (codes "; " ++ name)
push_flag name _ request = request

unfoldable pub push_bits : Text → Option ℕ → Text → Text
push_bits name none request = request
push_bits name (some bits) request =
    request ++ (codes "; " ++ (name ++ (codes "=" ++ show_u8 bits)))

-- Where the extensions are set the header ends in two line ends, compression or not.
unfoldable pub add_extension_headers : Text → Option Extensions → Text
unfolding push_flag push_bits
add_extension_headers request none = request ++ codes "\r\n"
add_extension_headers request (some e) =
    (if e.permessage_deflate
      then push_bits server_max_window_bits e.server_max_window_bits (
          push_bits client_max_window_bits e.client_max_window_bits (
            push_flag server_no_context_takeover e.server_no_context_takeover (
              push_flag client_no_context_takeover e.client_no_context_takeover
                (request ++ (codes "Sec-WebSocket-Extensions: " ++ permessage_deflate)))))
      else request)
    ++ codes "\r\n\r\n"
