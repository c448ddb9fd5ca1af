-- ===== src/BenchNode/Tests.antt =====
-- server/test_node.cpp and server/test_user.cpp on concrete messages.
use distributed_computing_fr.Prelude.{ℕ, ◌≡◌, refl, some, List, [], ◌∷◌, ◌++◌, arith, load, store}
use distributed_computing_fr.Message.{
  Message, is_valid_message, is_valid_data, is_valid_data_for, get_data_size, get_data_block_count,
  header_is_valid, get_message_size, as_bytes,
}
use distributed_computing_fr.Message.Build.{new_message, new_data, fresh}
use distributed_computing_fr.Message.Data.{Carries}
use distributed_computing_fr.Connection.Pipe.{Pipe, pipe, pipe_laws}
use distributed_computing_fr.Connection.{
  receive_message, read_exactly, read_loop, check_header, parse_header, receive_payload,
  check_message, send_message, write_exactly, write_loop,
}
use distributed_computing_fr.Connection.Framing.{IsWhole}
use distributed_computing_fr.User.Protocol.{Round, receiver_round}
use distributed_computing_fr.BenchNode.{answered, answer, process, processing_round}
use distributed_computing_fr.BenchNode.Delivery.{IsReturned, receiver_round-IsReturned}

abbrev zeros : ℕ → ℕ
zeros i = 0

-- An input of one block of sixteen bytes with the identifier 5.
abbrev sample_input : Message
sample_input = record {
  alloc_size = 36;
  header = record { type = 3; reserved = 0 ∷ 0 ∷ 0 ∷ []; payload_size = 20 };
  payload = 5 ∷ 0 ∷ 0 ∷ 0 ∷ 1 ∷ 2 ∷ 3 ∷ 4 ∷ 5 ∷ 6 ∷ 7 ∷ 8 ∷ 0 ∷ 0 ∷ 0 ∷ 0 ∷ 0 ∷ 0 ∷ 0 ∷ 0 ∷ [];
}

sample_input-Carries : Carries sample_input 16 1 5
unfolding is_valid_data_for is_valid_data is_valid_message get_data_size get_data_block_count
sample_input-Carries = record {
  valid = refl;
  data_size = refl;
  blocks = refl;
  identifier = refl;
  room = refl;
}

sample_input-IsWhole : IsWhole sample_input
unfolding is_valid_message
sample_input-IsWhole = record {
  valid = refl;
  allocated = refl;
  word = omega arith;
  three = refl;
  filled = refl;
}

-- The node's connection, with the input to come and one byte behind it.
abbrev node_pipe : Pipe
node_pipe = (
  3 ∷ 0 ∷ 0 ∷ 0 ∷ 20 ∷ 0 ∷ 0 ∷ 0 ∷ 5 ∷ 0 ∷ 0 ∷ 0 ∷ 1 ∷ 2 ∷ 3 ∷ 4 ∷ 5 ∷ 6 ∷ 7 ∷ 8 ∷ 0 ∷ 0 ∷ 0 ∷ 0 ∷ 0
      ∷ 0 ∷ 0 ∷ 0 ∷ 7 ∷ [],
  [],
)

node_pipe_bytes : node_pipe.0 ≡ as_bytes sample_input ++ (7 ∷ [])
unfolding as_bytes
node_pipe_bytes = refl

-- The answer as it is written: one block of eight bytes, with the identifier 5.
abbrev answer_bytes : List ℕ
answer_bytes = 3 ∷ 0 ∷ 0 ∷ 0 ∷ 12 ∷ 0 ∷ 0 ∷ 0 ∷ 5 ∷ 0 ∷ 0 ∷ 0 ∷ 1 ∷ 2 ∷ 3 ∷ 4 ∷ 5 ∷ 6 ∷ 7 ∷ 8 ∷ []

node_answers : processing_round pipe zeros 16 8 node_pipe ≡ some (answered, (7 ∷ [], answer_bytes))
unfolding processing_round process receive_message read_exactly read_loop check_header parse_header
    header_is_valid receive_payload check_message is_valid_message new_message is_valid_data_for
    is_valid_data get_data_size get_data_block_count answer new_data load store send_message
    get_message_size write_exactly write_loop as_bytes fresh
node_answers = refl

receiver_round-IsReturned_example :
    (r : Round × (Pipe × Pipe)) × (receiver_round pipe pipe zeros 8 (answer_bytes, []) ([], [])
      ≡ some r)
    × IsReturned pipe pipe pipe pipe_laws pipe_laws pipe_laws 8 1 5 sample_input [] ([], []) r
receiver_round-IsReturned_example =
    receiver_round-IsReturned pipe pipe pipe pipe_laws pipe_laws pipe_laws zeros zeros 16 8 1 5
      sample_input (7 ∷ []) answer_bytes [] node_pipe (7 ∷ [], answer_bytes) (answer_bytes, [])
      ([], []) sample_input-IsWhole sample_input-Carries (omega arith) (omega arith) (omega arith)
      (omega arith) (omega arith) node_pipe_bytes node_answers refl refl
