-- ===== src/Connection/Tests.antt =====
-- server/Connection.hpp on a concrete socket, which moves at most three bytes at a time.

use distributed_computing_fr.Prelude.{ℕ, ◌≡◌, refl, none, some, [], ◌∷◌, ◌++◌, arith}
use distributed_computing_fr.Message.{Message, header_is_valid, is_valid_message, as_bytes}
use distributed_computing_fr.Message.Build.{new_message}
use distributed_computing_fr.Connection.Pipe.{Pipe, pipe, pipe_laws}
use distributed_computing_fr.Connection.Interface.{fault, Wrote}
use distributed_computing_fr.Connection.{
  Received, read_loop, check_header, parse_header, receive_payload, check_message, read_exactly,
  receive_message, send_message,
}
use distributed_computing_fr.Connection.Writing.{Writes}
use distributed_computing_fr.Connection.Receiving.{IsReceived, receive_message-IsReceived}
use distributed_computing_fr.Connection.Framing.{
  IsWhole, IsDelivered, receive_message-IsDelivered, send_message-Writes, send_message-invalid,
}

abbrev zeros : ℕ → ℕ
zeros i = 0

-- A data message of two bytes with the identifier 1.
abbrev sample : Message
sample = record {
  alloc_size = 22;
  header = record { type = 3; reserved = 9 ∷ 9 ∷ 9 ∷ []; payload_size = 6 };
  payload = 1 ∷ 0 ∷ 0 ∷ 0 ∷ 42 ∷ 43 ∷ [];
}

abbrev unknown_sample : Message
unknown_sample = record sample { header = record sample.header { type = 7 } }

sample-IsWhole : IsWhole sample
unfolding is_valid_message
sample-IsWhole = record {
  valid = refl;
  allocated = refl;
  word = omega arith;
  three = refl;
  filled = refl;
}

abbrev filled_pipe : Pipe
filled_pipe = (3 ∷ 9 ∷ 9 ∷ 9 ∷ 6 ∷ 0 ∷ 0 ∷ 0 ∷ 1 ∷ 0 ∷ 0 ∷ 0 ∷ 42 ∷ 43 ∷ 5 ∷ [], 8 ∷ [])

filled_pipe_bytes : filled_pipe.0 ≡ as_bytes sample ++ (5 ∷ [])
unfolding as_bytes
filled_pipe_bytes = refl

-- The message arrives in pieces of three bytes, and the byte behind it stays in the stream.
receive_runs :
    receive_message pipe zeros filled_pipe
    ≡ some (record {
      ec = none;
      message = some (record sample {
        header = record { type = 3; reserved = 0 ∷ 0 ∷ 0 ∷ []; payload_size = 6 };
      });
      state = (5 ∷ [], 8 ∷ []);
    })
unfolding receive_message read_exactly read_loop check_header parse_header header_is_valid
    receive_payload check_message is_valid_message new_message
receive_runs = refl

receive_message-IsDelivered_example :
    (r : Received Pipe) × (receive_message pipe zeros filled_pipe ≡ some r)
    × IsDelivered pipe pipe_laws zeros sample (5 ∷ []) r
receive_message-IsDelivered_example =
    receive_message-IsDelivered pipe pipe_laws zeros sample (5 ∷ []) filled_pipe sample-IsWhole
      filled_pipe_bytes

receive_message-IsReceived_example :
    (r : Received Pipe) × (receive_message pipe zeros filled_pipe ≡ some r)
    × IsReceived pipe pipe_laws r
receive_message-IsReceived_example = receive_message-IsReceived pipe pipe_laws zeros filled_pipe

send_message-Writes_example :
    (w : Wrote Pipe) × (send_message pipe sample filled_pipe ≡ some w)
    × Writes pipe pipe_laws (as_bytes sample) filled_pipe w
send_message-Writes_example = send_message-Writes pipe pipe_laws sample filled_pipe sample-IsWhole

send_message-invalid_example :
    send_message pipe unknown_sample filled_pipe
    ≡ some (record { ec = some fault; count = 0; state = filled_pipe })
unfolding is_valid_message
send_message-invalid_example = send_message-invalid pipe pipe_laws unknown_sample filled_pipe refl
