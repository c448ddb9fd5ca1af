-- ===== src/Connection/Closing/Tests.antt =====
-- The closing of a connection of server/Connection.hpp on a concrete socket.
use mathlib.Core.List.{append-nil}
use distributed_computing_fr.Prelude.{
  ℕ, ◌≤◌, ◌<◌, ◌≡◌, refl, sym, Bool, true, false, none, some, List, [], ◌∷◌, ◌++◌, length, take,
  arith,
}
use distributed_computing_fr.Message.{Message, is_valid_message}
use distributed_computing_fr.Connection.Interface.{system, Outcome, Wrote, Socket, SocketLaws}
use distributed_computing_fr.Connection.Pipe.{Pipe, pipe_read, pipe_write, pipe_laws}
use distributed_computing_fr.Connection.{receive_message, send_message}
use distributed_computing_fr.Connection.Framing.{IsWhole}
use distributed_computing_fr.Connection.Closing.{Closing, close, is_closed, close-Refuses}

-- A pipe that is open or not.
abbrev Gate : Type 0
Gate = Bool × Pipe

abbrev gate_read : ℕ → Gate → Outcome Gate
gate_read n (true, p) = record {
  ec = (pipe_read n p).ec;
  bytes = (pipe_read n p).bytes;
  state = (true, (pipe_read n p).state);
}
gate_read n (false, p) = record { ec = some (system 9); bytes = []; state = (false, p) }

abbrev gate_write : List ℕ → Gate → Wrote Gate
gate_write bs (true, p) = record {
  ec = (pipe_write bs p).ec;
  count = (pipe_write bs p).count;
  state = (true, (pipe_write bs p).state);
}
gate_write bs (false, p) = record { ec = some (system 9); count = 0; state = (false, p) }

abbrev gate : Socket
gate = record { State = Gate; read_some = gate_read; write_some = gate_write }

gate_read_le : (n : ℕ) (s : Gate) → length (gate_read n s).bytes ≤ n
gate_read_le n (true, p) = pipe_laws.read_le n p
gate_read_le n (false, p) = omega arith

gate_read_front : (n : ℕ) (s : Gate) → s.1.0 ≡ (gate_read n s).bytes ++ (gate_read n s).state.1.0
gate_read_front n (true, p) = pipe_laws.read_front n p
gate_read_front n (false, p) = refl

gate_read_progress :
    (n : ℕ) (s : Gate) → (gate_read n s).ec ≡ none → 0 < n → 0 < length (gate_read n s).bytes
gate_read_progress n (true, p) e h = pipe_laws.read_progress n p e h
gate_read_progress n (false, p) e h = absurd (cc)

gate_read_outgoing : (n : ℕ) (s : Gate) → (gate_read n s).state.1.1 ≡ s.1.1
gate_read_outgoing n (true, p) = pipe_laws.read_outgoing n p
gate_read_outgoing n (false, p) = refl

gate_write_le : (bs : List ℕ) (s : Gate) → (gate_write bs s).count ≤ length bs
gate_write_le bs (true, p) = pipe_laws.write_le bs p
gate_write_le bs (false, p) = omega arith

gate_write_back :
    (bs : List ℕ) (s : Gate)
    → (gate_write bs s).state.1.1 ≡ s.1.1 ++ take (gate_write bs s).count bs
gate_write_back bs (true, p) = pipe_laws.write_back bs p
gate_write_back bs (false, p) = sym (append-nil p.1)

gate_write_progress :
    (bs : List ℕ) (s : Gate)
    → (gate_write bs s).ec ≡ none
    → 0 < length bs
    → 0 < (gate_write bs s).count
gate_write_progress bs (true, p) e h = pipe_laws.write_progress bs p e h
gate_write_progress bs (false, p) e h = absurd (cc)

gate_write_incoming : (bs : List ℕ) (s : Gate) → (gate_write bs s).state.1.0 ≡ s.1.0
gate_write_incoming bs (true, p) = pipe_laws.write_incoming bs p
gate_write_incoming bs (false, p) = refl

abbrev gate_laws : SocketLaws gate
gate_laws = record {
  incoming = λ s. s.1.0;
  outgoing = λ s. s.1.1;
  read_le = gate_read_le;
  read_front = gate_read_front;
  read_progress = gate_read_progress;
  read_outgoing = gate_read_outgoing;
  write_le = gate_write_le;
  write_back = gate_write_back;
  write_progress = gate_write_progress;
  write_incoming = gate_write_incoming;
}

shut_read :
    (n : ℕ) (s : Gate)
    → s.0 ≡ false
    → gate_read n s ≡ record { ec = some (system 9); bytes = []; state = s }
shut_read n (true, p) e = absurd (cc)
shut_read n (false, p) e = refl

shut_write :
    (bs : List ℕ) (s : Gate)
    → s.0 ≡ false
    → gate_write bs s ≡ record { ec = some (system 9); count = 0; state = s }
shut_write bs (true, p) e = absurd (cc)
shut_write bs (false, p) e = refl

abbrev gate_closing : Closing gate
gate_closing = record {
  close_socket = λ s. (false, s.1);
  is_open = λ s. s.0;
  bad_descriptor = system 9;
  closed = λ s. refl;
  read_closed = shut_read;
  write_closed = shut_write;
}

abbrev sample : Message
sample = record {
  alloc_size = 22;
  header = record { type = 3; reserved = 9 ∷ 9 ∷ 9 ∷ []; payload_size = 6 };
  payload = 1 ∷ 0 ∷ 0 ∷ 0 ∷ 42 ∷ 43 ∷ [];
}

sample-IsWhole : IsWhole sample
unfolding is_valid_message
sample-IsWhole = record {
  valid = refl;
  allocated = refl;
  word = omega arith;
  three = refl;
  filled = refl;
}

abbrev open_gate : Gate
open_gate = (true, (1 ∷ 2 ∷ [], []))

abbrev shut_gate : Gate
shut_gate = (false, (1 ∷ 2 ∷ [], []))

close-Refuses_example :
    (is_closed gate gate_closing shut_gate ≡ true)
    × (receive_message gate (λ i. i) shut_gate
        ≡ some (record { ec = some (system 9); message = none; state = shut_gate }))
    × (send_message gate sample shut_gate
        ≡ some (record { ec = some (system 9); count = 0; state = shut_gate }))
unfolding close
close-Refuses_example =
    close-Refuses gate gate_laws gate_closing (λ i. i) sample open_gate sample-IsWhole
