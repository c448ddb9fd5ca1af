-- ===== src/Connection/Closing.antt =====
-- server/Connection.hpp, `close` and `is_closed`: a connection whose socket is closed.
pub mod Tests
use distributed_computing_fr.Prelude.{
  ℕ, ◌≡◌, refl, sym, ap, ap₂, ◌∙◌, Bool, true, false, not, load, load_all, length, Option, none,
  some, List, [], ◌++◌, arith,
}
use distributed_computing_fr.Message.{Message, is_valid_message, get_message_size, as_bytes}
use distributed_computing_fr.Connection.Interface.{ErrorCode, Socket, SocketLaws, Outcome, Wrote}
use distributed_computing_fr.Connection.{
  Received, read_loop, read_exactly, check_header, receive_message, write_loop, write_exactly,
  send_message,
}
use distributed_computing_fr.Connection.Reading.{read_loop_fail}
use distributed_computing_fr.Connection.Writing.{write_loop_fail}
use distributed_computing_fr.Connection.Framing.{IsWhole, message_size}

-- What Boost documents of a closed socket: it is not open, and each read or write reports the same
-- error and moves nothing.
pub record Closing (sock : Socket) : Type 0 where
  pub close_socket : sock.State → sock.State
  pub is_open : sock.State → Bool
  pub bad_descriptor : ErrorCode
  pub closed : (s : sock.State) → is_open (close_socket s) ≡ false
  pub read_closed :
      (n : ℕ) (s : sock.State)
      → is_open s ≡ false
      → sock.read_some n s ≡ record { ec = some bad_descriptor; bytes = []; state = s }
  pub write_closed :
      (bs : List ℕ) (s : sock.State)
      → is_open s ≡ false
      → sock.write_some bs s ≡ record { ec = some bad_descriptor; count = 0; state = s }

module _ (sock : Socket) (closing : Closing sock) where
  open sock use {State}
  open closing use {close_socket, is_open}

  unfoldable pub close : State → State
  close s = close_socket s

  unfoldable pub is_closed : State → Bool
  is_closed s = not (is_open s)

module _ (sock : Socket) (laws : SocketLaws sock) (closing : Closing sock) where
  open sock use {State, read_some, write_some}
  open closing use {close_socket, is_open, bad_descriptor, closed, read_closed, write_closed}

  read_exactly_closed :
      (n : ℕ) (s : State)
      → is_open s ≡ false
      → read_exactly sock n s ≡ some (record { ec = some bad_descriptor; bytes = []; state = s })
  unfolding read_exactly
  read_exactly_closed n s shut =
      read_loop_fail sock laws n n s bad_descriptor
        (ap (λ (r : Outcome State). r.ec) (read_closed n s shut))
      ∙ ap some (read_closed n s shut)

  write_exactly_closed :
      (bs : List ℕ) (s : State)
      → is_open s ≡ false
      → write_exactly sock bs s ≡ some (record { ec = some bad_descriptor; count = 0; state = s })
  unfolding write_exactly
  write_exactly_closed bs s shut =
      write_loop_fail sock laws (length bs) bs s bad_descriptor
        (ap (λ (w : Wrote State). w.ec) (write_closed bs s shut))
      ∙ ap some (write_closed bs s shut)

  receive_closed :
      (junk : ℕ → ℕ) (s : State)
      → is_open s ≡ false
      → receive_message sock junk s
        ≡ some (record { ec = some bad_descriptor; message = none; state = s })
  unfolding receive_message check_header
  receive_closed junk s shut = rw (read_exactly_closed 8 s shut) refl

  send_closed :
      (m : Message) (s : State)
      → IsWhole m
      → is_open s ≡ false
      → send_message sock m s ≡ some (record { ec = some bad_descriptor; count = 0; state = s })
  unfolding send_message
  send_closed m s whole shut = rw (whole.valid, loaded) (write_exactly_closed (as_bytes m) s shut)
    where
      loaded : load 0 (get_message_size m) (as_bytes m) ≡ some (as_bytes m)
      loaded = ap (λ (n : ℕ). load 0 n (as_bytes m)) (message_size m whole) ∙ load_all (as_bytes m)

  -- After `close` the connection is closed; then every `receive_message` returns the error of a closed
  -- socket and no message, every `send_message` of a whole message returns that error and writes
  -- nothing, and the socket stays as it is.
  pub close-Refuses :
      (junk : ℕ → ℕ) (m : Message) (s : State)
      → IsWhole m
      → (is_closed sock closing (close sock closing s) ≡ true)
        × (receive_message sock junk (close sock closing s)
            ≡ some
                (record { ec = some bad_descriptor; message = none; state = close sock closing s }))
        × (send_message sock m (close sock closing s)
            ≡ some (record { ec = some bad_descriptor; count = 0; state = close sock closing s }))
  unfolding close is_closed
  close-Refuses junk m s whole = (
    ap not (closed s),
    receive_closed junk (close_socket s) (closed s),
    send_closed m (close_socket s) whole (closed s),
  )
