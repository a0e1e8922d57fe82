-- ===== src/Source.antt =====
-- The buffered read half of a connection (`BufReader<ReadHalf<SocketFlowStream>>`): what the peer
-- sends, in order, with a tick for each second that passes; the end of the list is the end of the
-- stream.
pub mod Laws
use socket_flow.Prelude.{ℕ, zero, suc, List, [], ◌∷◌, ◌++◌, map}

pub data Arrival : Type 0 where
  byte : ℕ → Arrival
  tick : Arrival

abbrev pub bytes : List ℕ → List Arrival
bytes = map byte

-- How a read of a given number of bytes ends, and what is left to read.
pub data Reading : Type 0 where
  full : List ℕ → List Arrival → Reading
  closed : Reading
  elapsed : List Arrival → Reading

abbrev pub push : ℕ → Reading → Reading
push b (full bs rest) = full (b ∷ bs) rest
push b closed = closed
push b (elapsed rest) = elapsed rest

-- `AsyncReadExt::read_exact`, which waits for as long as it takes.
unfoldable pub read_exact : ℕ → List Arrival → Reading
read_exact zero src = full [] src
read_exact (suc n) [] = closed
read_exact (suc n) (byte b ∷ src) = push b (read_exact n src)
read_exact (suc n) (tick ∷ src) = read_exact (suc n) src

-- The same under `tokio::time::timeout`, with `spare + 1` seconds to go.
unfoldable pub read_exact_within : ℕ → ℕ → List Arrival → Reading
read_exact_within spare zero src = full [] src
read_exact_within spare (suc n) [] = closed
read_exact_within spare (suc n) (byte b ∷ src) = push b (read_exact_within spare n src)
read_exact_within zero (suc n) (tick ∷ src) = elapsed src
read_exact_within (suc spare) (suc n) (tick ∷ src) = read_exact_within spare (suc n) src
