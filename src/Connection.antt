-- ===== src/Connection.antt =====
-- server/Connection.hpp: messages over a TCP socket. The socket is Boost's: it is a parameter, with
-- what Boost documents of it as `SocketLaws`. A coroutine that awaits the socket is a function of
-- the socket's state; `none` is a coroutine that never returns, or an access outside a buffer.
pub mod Interface
pub mod Reading
pub mod Writing
pub mod Receiving
pub mod Framing
pub mod Directions
pub mod Identity
pub mod Closing
pub mod Pipe
pub mod Tests
use distributed_computing_fr.Prelude.{
  ℕ, zero, suc, ◌+◌, ◌-◌, ◌*◌, Bool, true, false, Option, none, some, List, [], ◌∷◌, ◌++◌, length,
  drop, ltb, if◌then◌else◌, not, first32, load, ◌>>=◌,
}
use distributed_computing_fr.Message.{
  Message, Header, header_is_valid, is_valid_message, get_message_size, as_bytes,
}
use distributed_computing_fr.Message.Build.{new_message}
use distributed_computing_fr.Connection.Interface.{ErrorCode, eof, fault, Socket, Outcome, Wrote}

-- The eight bytes of the stack's `header_u`, after they are read.
unfoldable pub parse_header : List ℕ → Option Header
parse_header [] = none
parse_header (t ∷ []) = none
parse_header (t ∷ a ∷ []) = none
parse_header (t ∷ a ∷ b ∷ []) = none
parse_header (t ∷ a ∷ b ∷ c ∷ rest) = do
  size ← first32 rest
  some (record { type = t; reserved = a ∷ b ∷ c ∷ []; payload_size = size })

-- The error code, the message if there is one, and the socket afterwards.
pub record Received (State : Type 0) : Type 0 where
  pub ec : Option ErrorCode
  pub message : Option Message
  pub state : State

module _ (sock : Socket) where
  open sock use {State, read_some, write_some}

  -- `_read_exactly`: read again for what is missing. A read that reports no error and gives nothing
  -- would go on for ever, so the recursion is on fuel.
  unfoldable pub read_loop : ℕ → ℕ → State → Option (Outcome State)
  read_loop zero len s = none
  read_loop (suc fuel) len s =
      let r = read_some len s in
      elim r.ec [
        | some e ↦ some r
        | none ↦ elim (ltb (length r.bytes) len) [
          | true ↦ do
            rest ← read_loop fuel (len - length r.bytes) r.state
            some (record { ec = rest.ec; bytes = r.bytes ++ rest.bytes; state = rest.state })
          | false ↦ some r
        ]
      ]

  -- Each call takes a byte at least, so one call more than there are bytes is enough.
  unfoldable pub read_exactly : ℕ → State → Option (Outcome State)
  read_exactly len s = read_loop (suc len) len s

  -- `_write_exactly`.
  unfoldable pub write_loop : ℕ → List ℕ → State → Option (Wrote State)
  write_loop zero bs s = none
  write_loop (suc fuel) bs s =
      let w = write_some bs s in
      elim w.ec [
        | some e ↦ some w
        | none ↦ elim (ltb w.count (length bs)) [
          | true ↦ do
            rest ← write_loop fuel (drop w.count bs) w.state
            some (record { ec = rest.ec; count = w.count + rest.count; state = rest.state })
          | false ↦ some w
        ]
      ]

  unfoldable pub write_exactly : List ℕ → State → Option (Wrote State)
  write_exactly bs s = write_loop (suc (length bs)) bs s

  -- The end of `receive_message`: the payload was read with this error code.
  unfoldable pub check_message : Message → Option ErrorCode → State → Received State
  check_message m (some e) s = record { ec = some e; message = none; state = s }
  check_message m none s =
      if is_valid_message m
      then record { ec = none; message = some m; state = s }
      else record { ec = some fault; message = none; state = s }

  -- The message is allocated for the size of the header that was received, and takes its type.
  unfoldable pub receive_payload : (ℕ → ℕ) → Header → State → Option (Received State)
  receive_payload junk h s = do
    let message = new_message junk h.payload_size
    r ← read_exactly h.payload_size s
    let typed : Header = record {
      type = h.type;
      reserved = message.header.reserved;
      payload_size = message.header.payload_size;
    }
    some (check_message (record message { header = typed; payload = r.bytes }) r.ec r.state)

  -- The header was read with this error code.
  unfoldable pub check_header :
      (ℕ → ℕ) → List ℕ → Option ErrorCode → State → Option (Received State)
  check_header junk bytes (some e) s = some (record { ec = some e; message = none; state = s })
  check_header junk bytes none s = do
    h ← parse_header bytes
    if header_is_valid h
        then receive_payload junk h s
        else some (record { ec = some fault; message = none; state = s })

  unfoldable pub receive_message : (ℕ → ℕ) → State → Option (Received State)
  receive_message junk s = do r ← read_exactly 8 s; check_header junk r.bytes r.ec r.state

  unfoldable pub send_message : Message → State → Option (Wrote State)
  send_message m s =
      if is_valid_message m
      then (do bytes ← load 0 (get_message_size m) (as_bytes m); write_exactly bytes s)
      else some (record { ec = some fault; count = 0; state = s })
