-- ===== src/Flate.antt =====
-- The compression library that src/decoder.rs and src/encoder.rs call: an interface, since its
-- code is not part of the repository. What the program relies on stands in `InflateLaws`.
pub mod Stored
pub mod Copying
use socket_flow.Prelude.{
  Bool, true, none, some, leb, ◌&&◌, ◌≢◌, ℕ, suc, ◌+◌, ◌≤◌, ◌<◌, ◌≡◌, List, [], ◌++◌, Option,
  length, drop,
}

pub data Status : Type 0 where
  ok buf_error stream_end : Status

-- How a call of the library ends: some output and a status, or an error in the stream. Either way
-- it leaves a state.
pub data Step {ℓ} (S : Type ℓ) : Type ℓ where
  done : S → List ℕ → Status → Step S
  corrupt : S → Step S

-- `flate2::Decompress`. The last argument of `decompress_vec` is the spare capacity of the buffer
-- that it appends to, which it does not grow.
pub record Inflate : Type 1 where
  pub State : Type 0
  pub new : Option ℕ → State
  pub reset : State → State
  pub total_in : State → ℕ
  pub decompress_vec : State → List ℕ → ℕ → Step State

-- `flate2::Compress`, its flush mode being `Sync` throughout.
pub record Deflate : Type 1 where
  pub State : Type 0
  pub new : Option ℕ → State
  pub reset : State → State
  pub total_in : State → ℕ
  pub compress_vec : State → List ℕ → ℕ → Step State

-- The window bits that `new_with_window_bits` takes: it panics on all others, of either side.
abbrev pub accepts_window : Option ℕ → Bool
accepts_window none = true
accepts_window (some bits) = leb 9 bits && leb bits 15

-- What is documented of a call with input and room for output: it takes some of the input and
-- reports that in `total_in`; it puts out at most the room; it gets on, so that `work`, an upper
-- bound on the calls that are left, falls; and what it puts out comes before what the rest of the
-- input will yield. `BufError` is for a call that has no input or no room.
pub record InflateLaws (f : Inflate) : Type 0 where
  -- All that the input yields from a state.
  pub expand : f.State → List ℕ → List ℕ
  pub work : f.State → List ℕ → ℕ
  pub taken :
      (s t : f.State) (input out : List ℕ) (space : ℕ)
      → f.decompress_vec s input space ≡ done t out ok
      → f.total_in s ≤ f.total_in t × (f.total_in t ≤ f.total_in s + length input)
  pub falls :
      (s t : f.State) (input out : List ℕ) (space k : ℕ)
      → f.decompress_vec s input space ≡ done t out ok
      → f.total_in t ≡ f.total_in s + k
      → 0 < space
      → 0 < length input
      → work t (drop k input) < work s input
  pub yields :
      (s t : f.State) (input out : List ℕ) (space k : ℕ)
      → f.decompress_vec s input space ≡ done t out ok
      → f.total_in t ≡ f.total_in s + k
      → expand s input ≡ out ++ expand t (drop k input)
  pub gets_on :
      (s t : f.State) (input out : List ℕ) (space : ℕ)
      → 0 < space
      → 0 < length input
      → f.decompress_vec s input space ≢ done t out buf_error
