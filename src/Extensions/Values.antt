-- ===== src/Extensions/Values.antt =====
-- The header value that src/extensions.rs prints is one line, and has no space at its ends.
use socket_flow.Prelude.{
  ℕ, ◌<◌, ◌≡◌, ◌≢◌, refl, sym, ap, ◌∙◌, Bool, true, false, Option, none, some, List, [], ◌∷◌, ◌++◌,
  append-nil, ne_nil-append, All, All-append, arith,
}
use socket_flow.Config.{Extensions}
use socket_flow.Text.{Text, codes, trim, trim_end, show_u8}
use socket_flow.Text.Plain.{IsPlain}
use socket_flow.Text.Cut.{
  IsVisible, all_visible, all_visible-IsVisible, All-IsPlain, trim_end-append, trim_end-IsVisible,
  trim_start-IsVisible,
}
use socket_flow.Extensions.{
  permessage_deflate, client_no_context_takeover, server_no_context_takeover,
  client_max_window_bits, server_max_window_bits,
}
use socket_flow.Extensions.Printed.{flag_params, bits_params, joined, params, header_value}
use socket_flow.Extensions.Parsed.{IsU8}

-- A parameter as it is printed.
abbrev IsParam : Text → Type 0
IsParam s = All IsVisible s × (s ≢ [])

show_u8-IsVisible : (n : ℕ) → n < 256 → All IsVisible (show_u8 n)
unfolding show_u8
show_u8-IsVisible n h = ground arith

flag-IsParam : (name : Text) (o : Option Bool) → IsParam name → All IsParam (flag_params name o)
unfolding flag_params
flag-IsParam name (some true) h = (h, tt)
flag-IsParam name (some false) h = tt
flag-IsParam name none h = tt

bits-IsParam :
    (c : ℕ) (name : Text) (o : Option ℕ)
    → All IsVisible (c ∷ name)
    → IsU8 o
    → All IsParam (bits_params (c ∷ name) o)
unfolding bits_params
bits-IsParam c name none h k = tt
bits-IsParam c name (some n) h k =
    let all =
      All-append IsVisible (c ∷ name) (codes "=" ++ show_u8 n) h
        ((omega arith, omega arith), show_u8-IsVisible n k) in
    ((all, λ e. cc), tt)

joined-IsPlain : (ps : List Text) → All IsParam ps → All IsPlain (joined ps)
unfolding joined
joined-IsPlain [] h = tt
joined-IsPlain (p ∷ ps) h = (
  record { ascii = omega arith; no_feed = refl; no_return = refl },
  (
    record { ascii = omega arith; no_feed = refl; no_return = refl },
    All-append IsPlain p (joined ps) (All-IsPlain p h.0.0) (joined-IsPlain ps h.1),
  ),
)

trim_end-joined :
    (p : Text) (ps : List Text)
    → IsParam p
    → All IsParam ps
    → trim_end (p ++ joined ps) ≡ p ++ joined ps
unfolding joined
trim_end-joined p [] h hs =
    ap trim_end (append-nil p) ∙ trim_end-IsVisible p h.0 ∙ sym (append-nil p)
trim_end-joined p (q ∷ ps) h hs =
    let rest = q ++ joined ps in
    trim_end-append p (codes "; " ++ rest) (λ e. cc)
      (trim_end-append (codes "; ") rest (ne_nil-append q (joined ps) hs.0.1)
        (trim_end-joined q ps hs.0 hs.1))

module _ (e : Extensions) (c_small : IsU8 e.client_max_window_bits)
    (s_small : IsU8 e.server_max_window_bits) where
  params-IsParam : All IsParam (params e)
  unfolding all_visible
  params-IsParam =
      All-append IsParam _ _
        (All-append IsParam _ _
          (All-append IsParam _ _
            (flag-IsParam client_no_context_takeover e.client_no_context_takeover
              (all_visible-IsVisible client_no_context_takeover refl, λ e. cc))
            (flag-IsParam server_no_context_takeover e.server_no_context_takeover
              (all_visible-IsVisible server_no_context_takeover refl, λ e. cc)))
          (bits-IsParam 99 (codes "lient_max_window_bits") e.client_max_window_bits
            (all_visible-IsVisible client_max_window_bits refl) c_small))
        (bits-IsParam 115 (codes "erver_max_window_bits") e.server_max_window_bits
          (all_visible-IsVisible server_max_window_bits refl) s_small)

  pub header_value-IsPlain : All IsPlain (header_value e)
  unfolding header_value all_visible
  header_value-IsPlain =
      All-append IsPlain permessage_deflate (joined (params e))
        (All-IsPlain permessage_deflate (all_visible-IsVisible permessage_deflate refl))
        (joined-IsPlain (params e) params-IsParam)

  pub trim-header_value : trim (header_value e) ≡ header_value e
  unfolding header_value trim all_visible
  trim-header_value =
      ap trim_end (
        trim_start-IsVisible 112 (codes "ermessage-deflate" ++ joined (params e))
          (omega arith, omega arith))
      ∙ trim_end-joined permessage_deflate (params e)
          (all_visible-IsVisible permessage_deflate refl, λ e. cc) params-IsParam
