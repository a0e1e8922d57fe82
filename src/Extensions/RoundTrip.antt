-- ===== src/Extensions/RoundTrip.antt =====
-- The header that src/extensions.rs prints against its parser.
use socket_flow.Prelude.{◌≡◌, refl, sym, ap, ◌∙◌, true, some, ◌++◌, All, All-append}
use socket_flow.Config.{Extensions, default_extensions}
use socket_flow.Text.{Text, codes, split, same_text, contains, trim, trim_start, trim_end}
use socket_flow.Extensions.{
  permessage_deflate, client_no_context_takeover, server_no_context_takeover,
  client_max_window_bits, server_max_window_bits, add_extension_headers, read_part, read_parts,
  parse_extensions, if_enabled,
}
use socket_flow.Extensions.Printed.{
  flag_params, bits_params, params, header_value, add_extension_headers_lem, Unbroken, split-joined,
  contains-Unbroken,
}
use socket_flow.Extensions.Parsed.{
  spaced, said, announced, IsU8, read_parts-cons, read_parts-append, read_client_flag,
  read_server_flag, read_client_bits, read_server_bits, flag-Unbroken, unbroken_client,
  unbroken_server, bits-Unbroken,
}

module _ (e : Extensions) (on : e.permessage_deflate ≡ true)
    (c_small : IsU8 e.client_max_window_bits) (s_small : IsU8 e.server_max_window_bits) where
  read_params :
      read_parts (spaced (params e)) (record default_extensions { permessage_deflate = true })
      ≡ some (announced e)
  unfolding announced
  read_params =
      let f1 = flag_params client_no_context_takeover e.client_no_context_takeover in
      let f2 = flag_params server_no_context_takeover e.server_no_context_takeover in
      let b1 = bits_params client_max_window_bits e.client_max_window_bits in
      let b2 = bits_params server_max_window_bits e.server_max_window_bits in
      let e0 = record default_extensions { permessage_deflate = true } in
      let e1 = record e0 { client_no_context_takeover = said e.client_no_context_takeover } in
      let e2 = record e1 { server_no_context_takeover = said e.server_no_context_takeover } in
      let e3 = record e2 { client_max_window_bits = e.client_max_window_bits } in
      let p1 = read_client_flag e.client_no_context_takeover e0 refl in
      let p2 =
        read_parts-append f1 f2 e0 e1 p1 ∙ read_server_flag e.server_no_context_takeover e1 refl in
      let p3 =
        read_parts-append (f1 ++ f2) b1 e0 e2 p2
        ∙ read_client_bits e.client_max_window_bits e2 c_small refl in
      let p4 =
        read_parts-append ((f1 ++ f2) ++ b1) b2 e0 e3 p3
        ∙ read_server_bits e.server_max_window_bits e3 s_small refl in
      p4 ∙ ap (λ x. some (record (announced e) { permessage_deflate = x })) (sym on)

  params-Unbroken : All Unbroken (params e)
  params-Unbroken =
      All-append Unbroken _ _
        (All-append Unbroken _ _
          (All-append Unbroken _ _
            (flag-Unbroken client_no_context_takeover e.client_no_context_takeover
              (contains-Unbroken client_no_context_takeover (unfold contains in refl)))
            (flag-Unbroken server_no_context_takeover e.server_no_context_takeover
              (contains-Unbroken server_no_context_takeover (unfold contains in refl))))
          (bits-Unbroken client_max_window_bits e.client_max_window_bits unbroken_client c_small))
        (bits-Unbroken server_max_window_bits e.server_max_window_bits unbroken_server s_small)

  read_header : read_parts (split b';' (header_value e)) default_extensions ≡ some (announced e)
  unfolding header_value
  read_header =
      ap (λ ps. read_parts ps default_extensions)
        (split-joined permessage_deflate (params e)
          (contains-Unbroken permessage_deflate (unfold contains in refl)) params-Unbroken)
      ∙ read_parts-cons permessage_deflate (spaced (params e)) default_extensions
          (record default_extensions { permessage_deflate = true })
          (unfold read_part same_text trim trim_start trim_end in refl)
      ∙ read_params

  pub parse_header_value : parse_extensions (header_value e) ≡ some (announced e)
  unfolding parse_extensions if_enabled announced
  parse_header_value = ap if_enabled read_header ∙ rw on refl

  -- Where compression is on and the windows are of eight bits, the header is the text before it,
  -- its name, a value and two line ends; and from that value the parser reads the extensions back,
  -- but for flags that were set to false, which come back as not set.
  pub parse_extensions-add_extension_headers :
      (request : Text)
      → (value : Text) × (add_extension_headers request (some e)
          ≡ (request ++ (codes "Sec-WebSocket-Extensions: " ++ value)) ++ codes "\r\n\r\n")
        × (parse_extensions value ≡ some (announced e))
  parse_extensions-add_extension_headers request =
      (header_value e, add_extension_headers_lem request e on, parse_header_value)
