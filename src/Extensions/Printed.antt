-- ===== src/Extensions/Printed.antt =====
-- The header that src/extensions.rs prints, as a name and parameters, and how it splits.
use socket_flow.Prelude.{
  ℕ, ◌≡◌, refl, sym, ap, ◌∙◌, Bool, true, false, Option, none, some, List, [], ◌∷◌, ◌++◌, map,
  append-nil, append_assoc, All, ◌==◌, arith,
}
use socket_flow.Config.{Extensions}
use socket_flow.Text.{Text, codes, split, before, contains, show_u8}
use socket_flow.Extensions.{
  permessage_deflate, client_no_context_takeover, server_no_context_takeover,
  client_max_window_bits, server_max_window_bits, push_flag, push_bits, add_extension_headers,
  merge_extensions,
}

-- The parameters that stand for the fields of some extensions, in the order of the header.
unfoldable pub flag_params : Text → Option Bool → List Text
flag_params name (some true) = name ∷ []
flag_params name _ = []

unfoldable pub bits_params : Text → Option ℕ → List Text
bits_params name none = []
bits_params name (some n) = (name ++ (codes "=" ++ show_u8 n)) ∷ []

-- Parameters behind the name of the extension.
unfoldable pub joined : List Text → Text
joined [] = []
joined (p ∷ ps) = (codes "; " ++ p) ++ joined ps

joined-append : (ps qs : List Text) → joined (ps ++ qs) ≡ joined ps ++ joined qs
unfolding joined
joined-append [] qs = refl
joined-append (p ∷ ps) qs =
    ap (λ r. (codes "; " ++ p) ++ r) (joined-append ps qs)
    ∙ sym (append_assoc (codes "; " ++ p) (joined ps) (joined qs))

push_flag_lem :
    (name : Text) (o : Option Bool) (request : Text) (ps : List Text)
    → push_flag name o (request ++ joined ps) ≡ request ++ joined (ps ++ flag_params name o)
unfolding push_flag flag_params joined
push_flag_lem name (some true) request ps =
    append_assoc request (joined ps) (codes "; " ++ name)
    ∙ ap (λ r. request ++ r)
        (ap (λ r. joined ps ++ r) (sym (append-nil (codes "; " ++ name)))
          ∙ sym (joined-append ps (name ∷ [])))
push_flag_lem name (some false) request ps = rw (append-nil ps)
push_flag_lem name none request ps = rw (append-nil ps)

push_bits_lem :
    (name : Text) (o : Option ℕ) (request : Text) (ps : List Text)
    → push_bits name o (request ++ joined ps) ≡ request ++ joined (ps ++ bits_params name o)
unfolding push_bits bits_params joined
push_bits_lem name none request ps = rw (append-nil ps)
push_bits_lem name (some n) request ps =
    let param = name ++ (codes "=" ++ show_u8 n) in
    append_assoc request (joined ps) (codes "; " ++ param)
    ∙ ap (λ r. request ++ r)
        (ap (λ r. joined ps ++ r) (sym (append-nil (codes "; " ++ param)))
          ∙ sym (joined-append ps (param ∷ [])))

abbrev pub params : Extensions → List Text
params e =
    ((flag_params client_no_context_takeover e.client_no_context_takeover
        ++ flag_params server_no_context_takeover e.server_no_context_takeover)
      ++ bits_params client_max_window_bits e.client_max_window_bits)
    ++ bits_params server_max_window_bits e.server_max_window_bits

-- The value of the header.
unfoldable pub header_value : Extensions → Text
unfolding joined flag_params bits_params
header_value e = permessage_deflate ++ joined (params e)

pub add_extension_headers_lem :
    (request : Text) (e : Extensions)
    → e.permessage_deflate ≡ true
    → add_extension_headers request (some e)
      ≡ (request ++ (codes "Sec-WebSocket-Extensions: " ++ header_value e)) ++ codes "\r\n\r\n"
unfolding add_extension_headers header_value joined flag_params bits_params
add_extension_headers_lem request e on =
    let r = request ++ (codes "Sec-WebSocket-Extensions: " ++ permessage_deflate) in
    let f1 = flag_params client_no_context_takeover e.client_no_context_takeover in
    let f2 = f1 ++ flag_params server_no_context_takeover e.server_no_context_takeover in
    let f3 = f2 ++ bits_params client_max_window_bits e.client_max_window_bits in
    let step1 =
      ap (push_flag client_no_context_takeover e.client_no_context_takeover) (sym (append-nil r))
      ∙ push_flag_lem client_no_context_takeover e.client_no_context_takeover r [] in
    let step2 =
      ap (push_flag server_no_context_takeover e.server_no_context_takeover) step1
      ∙ push_flag_lem server_no_context_takeover e.server_no_context_takeover r f1 in
    let step3 =
      ap (push_bits client_max_window_bits e.client_max_window_bits) step2
      ∙ push_bits_lem client_max_window_bits e.client_max_window_bits r f2 in
    let step4 =
      ap (push_bits server_max_window_bits e.server_max_window_bits) step3
      ∙ push_bits_lem server_max_window_bits e.server_max_window_bits r f3 in
    rw on (
      ap (λ t. t ++ codes "\r\n\r\n")
        (step4
          ∙ append_assoc request (codes "Sec-WebSocket-Extensions: " ++ permessage_deflate)
              (joined (params e))))

-- Nothing separates in the text.
abbrev pub Unbroken : Text → Type 0
Unbroken = All (λ c. (c == b';') ≡ false)

split_one : (p s : Text) → Unbroken p → split b';' (p ++ (b';' ∷ s)) ≡ p ∷ split b';' s
unfolding split before
split_one [] s h = refl
split_one (c ∷ p) s h = rw (h.0, split_one p s h.1)

split_end : (p : Text) → Unbroken p → split b';' p ≡ p ∷ []
unfolding split before
split_end [] h = refl
split_end (c ∷ p) h = rw (h.0, split_end p h.1)

pub split-joined :
    (p : Text) (ps : List Text)
    → Unbroken p
    → All Unbroken ps
    → split b';' (p ++ joined ps) ≡ p ∷ map (λ q. b' ' ∷ q) ps
unfolding joined
split-joined p [] h hs = rw (append-nil p) (split_end p h)
split-joined p (q ∷ ps) h hs =
    split_one p (b' ' ∷ (q ++ joined ps)) h
    ∙ ap (λ r. p ∷ r) (split-joined (b' ' ∷ q) ps (refl, hs.0) hs.1)

pub contains-Unbroken : (s : Text) → contains s b';' ≡ false → Unbroken s
unfolding contains
contains-Unbroken [] h = tt
contains-Unbroken (c ∷ s) h = (ground (arith, h), contains-Unbroken s (ground (arith, h)))

disabled :
    (s c m : Extensions)
    → s.permessage_deflate ≡ false
    → merge_extensions (some s) (some c) ≡ some m
    → m.permessage_deflate ≡ false
unfolding merge_extensions
disabled s c m off e = ground (arith, off)

-- Where the server has its extensions set with compression off, and the client has some set,
-- the merged extensions print a header that ends in one line end more than that of no extensions.
pub add_extension_headers-merge_extensions :
    (request : Text) (s c m : Extensions)
    → s.permessage_deflate ≡ false
    → merge_extensions (some s) (some c) ≡ some m
    → add_extension_headers request (some m) ≡ add_extension_headers request none ++ codes "\r\n"
unfolding merge_extensions add_extension_headers
add_extension_headers-merge_extensions request s c m off e =
    let merged : m.permessage_deflate ≡ false = disabled s c m off e in
    rw merged (sym (append_assoc request (codes "\r\n") (codes "\r\n")))
