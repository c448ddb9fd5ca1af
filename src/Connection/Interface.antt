-- ===== src/Connection/Interface.antt =====
-- What server/Connection.hpp uses of a Boost TCP socket (`async_read_some`, `async_write_some`).
use distributed_computing_fr.Prelude.{ℕ, ◌≤◌, ◌<◌, ◌≡◌, Option, none, List, ◌++◌, length, take}

-- `asio::error::eof`, `asio::error::fault`, and the codes that the program only passes on.
pub data ErrorCode : Type 0 where
  eof fault : ErrorCode
  system : ℕ → ErrorCode

-- What a read gives: an error code, the bytes that arrived, the socket afterwards.
pub record Outcome (State : Type 0) : Type 0 where
  pub ec : Option ErrorCode
  pub bytes : List ℕ
  pub state : State

-- What a write gives: an error code, how many bytes were taken, the socket afterwards.
pub record Wrote (State : Type 0) : Type 0 where
  pub ec : Option ErrorCode
  pub count : ℕ
  pub state : State

pub record Socket : Type 1 where
  pub State : Type 0
  pub read_some : ℕ → State → Outcome State
  pub write_some : List ℕ → State → Wrote State

-- A read takes at most as many bytes as asked for from the front of the stream, and at least one
-- if it reports no error; a write appends a prefix of its buffer to the stream, at least one byte
-- if it reports no error. Neither touches the other direction.
pub record SocketLaws (sock : Socket) : Type 0 where
  pub incoming : sock.State → List ℕ
  pub outgoing : sock.State → List ℕ
  pub read_le : (n : ℕ) (s : sock.State) → length (sock.read_some n s).bytes ≤ n
  pub read_front :
      (n : ℕ) (s : sock.State)
      → incoming s ≡ (sock.read_some n s).bytes ++ incoming (sock.read_some n s).state
  pub read_progress :
      (n : ℕ) (s : sock.State)
      → (sock.read_some n s).ec ≡ none
      → 0 < n
      → 0 < length (sock.read_some n s).bytes
  pub read_outgoing : (n : ℕ) (s : sock.State) → outgoing (sock.read_some n s).state ≡ outgoing s
  pub write_le : (bs : List ℕ) (s : sock.State) → (sock.write_some bs s).count ≤ length bs
  pub write_back :
      (bs : List ℕ) (s : sock.State)
      → outgoing (sock.write_some bs s).state ≡ outgoing s ++ take (sock.write_some bs s).count bs
  pub write_progress :
      (bs : List ℕ) (s : sock.State)
      → (sock.write_some bs s).ec ≡ none
      → 0 < length bs
      → 0 < (sock.write_some bs s).count
  pub write_incoming :
      (bs : List ℕ) (s : sock.State) → incoming (sock.write_some bs s).state ≡ incoming s
