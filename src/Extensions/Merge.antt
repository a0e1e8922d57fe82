-- ===== src/Extensions/Merge.antt =====
-- What the merged extensions of src/extensions.rs keep of both sides.
use socket_flow.Prelude.{
  ℕ, ◌≤◌, ◌≡◌, refl, ap, ◌≢◌, ◌↔◌, ◌⊎◌, inl, inr, min, Bool, true, ◌&&◌, Option, none, some, arith,
}
use socket_flow.Config.{Extensions}
use socket_flow.Extensions.{merge_extensions, merge_bits, and_option}

-- A window that was agreed on, given the one that a side named.
abbrev pub Within : Option ℕ → Option ℕ → Type 0
Within agreed none = Unit
Within none (some mine) = ⊥
Within (some n) (some mine) = n ≤ mine

-- A window that was agreed on is one that a side named.
abbrev pub Named : Option ℕ → Option ℕ → Option ℕ → Type 0
Named none server client = (server ≡ none) × (client ≡ none)
Named (some n) server client = (server ≡ some n) ⊎ (client ≡ some n)

min_cases : (a b : ℕ) → (a ≡ min a b) ⊎ (b ≡ min a b)
min_cases a b = omega arith

some_inj : {x y : Extensions} → some x ≡ some y → x ≡ y
some_inj e = cc

merge_bits-Within : (s c : Option ℕ) → Within (merge_bits s c) s × Within (merge_bits s c) c
unfolding merge_bits
merge_bits-Within (some s) (some c) = (omega arith, omega arith)
merge_bits-Within (some s) none = (omega arith, tt)
merge_bits-Within none (some c) = (tt, omega arith)
merge_bits-Within none none = (tt, tt)

merge_bits-Named : (s c : Option ℕ) → Named (merge_bits s c) s c
unfolding merge_bits
merge_bits-Named (some s) (some c) = elim (min_cases s c) [
  | inl e ↦ inl (ap some e)
  | inr e ↦ inr (ap some e)
]
merge_bits-Named (some s) none = inl refl
merge_bits-Named none (some c) = inr refl
merge_bits-Named none none = (refl, refl)

-- What the two sides have agreed on.
pub record Agreed (s c m : Extensions) : Type 0 where
  pub enabled :
      (m.permessage_deflate ≡ true)
      ↔ ((s.permessage_deflate ≡ true) × (c.permessage_deflate ≡ true))
  pub client_resets :
      (m.client_no_context_takeover ≡ some true)
      ↔ ((s.client_no_context_takeover ≢ none) × (c.client_no_context_takeover ≡ some true))
  pub server_resets :
      (m.server_no_context_takeover ≡ some true)
      ↔ ((s.server_no_context_takeover ≢ none) × (c.server_no_context_takeover ≡ some true))
  pub client_window :
      Within m.client_max_window_bits s.client_max_window_bits
      × Within m.client_max_window_bits c.client_max_window_bits
      × Named m.client_max_window_bits s.client_max_window_bits c.client_max_window_bits
  pub server_window :
      Within m.server_max_window_bits s.server_max_window_bits
      × Within m.server_max_window_bits c.server_max_window_bits
      × Named m.server_max_window_bits s.server_max_window_bits c.server_max_window_bits

and_option_iff : (x y : Option Bool) → (and_option x y ≡ some true) ↔ ((x ≢ none) × (y ≡ some true))
and_option_iff none y = (λ e. absurd (cc), λ h. absurd (h.0 refl))
and_option_iff (some b) y = (λ e. (λ p. cc, e), λ h. h.1)

both_iff : (a b : Bool) → ((b && a) ≡ true) ↔ ((a ≡ true) × (b ≡ true))
both_iff a b = ground arith

-- Where a merge yields extensions, both sides have some, and compression is on exactly where both
-- have it on. A reset of the context is agreed on where the client asked for it and the server
-- has the setting, whatever its value. A window is no larger than any that a side named, one of
-- those that were named, and missing only where neither named one.
pub merge_extensions-Agreed :
    (server client : Option Extensions) (m : Extensions)
    → merge_extensions server client ≡ some m
    → (s c : Extensions) × (server ≡ some s) × (client ≡ some c) × Agreed s c m
unfolding merge_extensions
merge_extensions-Agreed none client m e = absurd (cc)
merge_extensions-Agreed (some s) none m e = absurd (cc)
merge_extensions-Agreed (some s) (some c) m e = (
  s,
  c,
  refl,
  refl,
  rw (← (some_inj e)) (record {
    enabled = both_iff s.permessage_deflate c.permessage_deflate;
    client_resets = and_option_iff s.client_no_context_takeover c.client_no_context_takeover;
    server_resets = and_option_iff s.server_no_context_takeover c.server_no_context_takeover;
    client_window = (
      (merge_bits-Within s.client_max_window_bits c.client_max_window_bits).0,
      (merge_bits-Within s.client_max_window_bits c.client_max_window_bits).1,
      merge_bits-Named s.client_max_window_bits c.client_max_window_bits,
    );
    server_window = (
      (merge_bits-Within s.server_max_window_bits c.server_max_window_bits).0,
      (merge_bits-Within s.server_max_window_bits c.server_max_window_bits).1,
      merge_bits-Named s.server_max_window_bits c.server_max_window_bits,
    );
  }),
)
