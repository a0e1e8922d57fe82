-- ===== src/Examples/Negotiation.antt =====
-- The properties of the negotiation of extensions at concrete inputs.
use socket_flow.Prelude.{◌≡◌, refl, true, false, none, some, ◌++◌, arith}
use socket_flow.Config.{Extensions, default_extensions}
use socket_flow.Text.{Text, codes}
use socket_flow.Extensions.{merge_extensions, merge_bits, add_extension_headers, parse_extensions}
use socket_flow.Extensions.Merge.{Agreed, merge_extensions-Agreed}
use socket_flow.Extensions.Parsed.{announced}
use socket_flow.Extensions.Printed.{add_extension_headers-merge_extensions}
use socket_flow.Extensions.RoundTrip.{parse_extensions-add_extension_headers}

abbrev pub offered : Extensions
offered = record {
  permessage_deflate = true;
  client_no_context_takeover = some true;
  server_no_context_takeover = some false;
  client_max_window_bits = some 12;
  server_max_window_bits = none;
}

abbrev pub configured : Extensions
configured = record default_extensions {
  permessage_deflate = true;
  client_max_window_bits = some 15;
}

abbrev negotiated : Extensions
negotiated = record default_extensions {
  permessage_deflate = true;
  client_max_window_bits = some 12;
}

merge_extensions-Agreed_example :
    (s c : Extensions) × (some configured ≡ some s)
    × (some offered ≡ some c)
    × Agreed s c negotiated
unfolding merge_extensions merge_bits
merge_extensions-Agreed_example =
    merge_extensions-Agreed (some configured) (some offered) negotiated refl

parse_extensions-add_extension_headers_example :
    (value : Text) × (add_extension_headers (codes "GET / HTTP/1.1\r\n") (some offered)
      ≡ (codes "GET / HTTP/1.1\r\n" ++ (codes "Sec-WebSocket-Extensions: " ++ value))
        ++ codes "\r\n\r\n")
    × (parse_extensions value ≡ some (announced offered))
parse_extensions-add_extension_headers_example =
    parse_extensions-add_extension_headers offered refl (omega arith) tt
      (codes "GET / HTTP/1.1\r\n")

abbrev switched_off : Extensions
switched_off = record configured { permessage_deflate = false }

add_extension_headers-merge_extensions_example :
    add_extension_headers
      (codes "HTTP/1.1 101\r\n")
      (some (record negotiated { permessage_deflate = false }))
    ≡ add_extension_headers (codes "HTTP/1.1 101\r\n") none ++ codes "\r\n"
unfolding merge_extensions merge_bits
add_extension_headers-merge_extensions_example =
    add_extension_headers-merge_extensions (codes "HTTP/1.1 101\r\n") switched_off offered
      (record negotiated { permessage_deflate = false }) refl refl
