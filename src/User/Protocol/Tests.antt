-- ===== src/User/Protocol/Tests.antt =====
-- The messages of a session of server/User_Queue.hpp on concrete sockets.
use distributed_computing_fr.Prelude.{store, ℕ, ◌≡◌, refl, true, Option, some, [], ◌∷◌, ◌++◌, arith}
use distributed_computing_fr.Message.{
  Message, is_valid_message, is_valid_data, is_valid_data_for, get_data_size, as_bytes, error,
}
use distributed_computing_fr.Message.Build.{new_config_resp, fresh}
use distributed_computing_fr.Connection.Interface.{ErrorCode}
use distributed_computing_fr.Connection.Pipe.{Pipe, pipe, pipe_laws}
use distributed_computing_fr.Connection.Framing.{IsWhole}
use distributed_computing_fr.User.Protocol.{Round, configure_node, receiver_round}
use distributed_computing_fr.User.Protocol.Configuring.{Learns, configure_node-Learns}
use distributed_computing_fr.User.Protocol.Forwarding.{IsForwarded, receiver_round-IsForwarded}

abbrev zeros : ℕ → ℕ
zeros i = 0

-- A configuration of no blocks for inputs and outputs of two bytes, and no bit stream.
abbrev sample_config : Message
sample_config = record {
  alloc_size = 28;
  header = record { type = 1; reserved = 0 ∷ 0 ∷ 0 ∷ []; payload_size = 12 };
  payload = 2 ∷ 0 ∷ 0 ∷ 0 ∷ 2 ∷ 0 ∷ 0 ∷ 0 ∷ 0 ∷ 0 ∷ 0 ∷ 0 ∷ [];
}

abbrev sample_result : Message
sample_result = record {
  alloc_size = 22;
  header = record { type = 3; reserved = 9 ∷ 9 ∷ 9 ∷ []; payload_size = 6 };
  payload = 1 ∷ 0 ∷ 0 ∷ 0 ∷ 42 ∷ 43 ∷ [];
}

abbrev refusal : Message
refusal = record {
  alloc_size = 17;
  header = record { type = 2; reserved = 0 ∷ 0 ∷ 0 ∷ []; payload_size = 1 };
  payload = 1 ∷ [];
}

sample_config-IsWhole : IsWhole sample_config
unfolding is_valid_message
sample_config-IsWhole = record {
  valid = refl;
  allocated = refl;
  word = omega arith;
  three = refl;
  filled = refl;
}

sample_result-IsWhole : IsWhole sample_result
unfolding is_valid_message
sample_result-IsWhole = record {
  valid = refl;
  allocated = refl;
  word = omega arith;
  three = refl;
  filled = refl;
}

-- A node that refuses, and one byte after its response; a node with a result.
abbrev refusing : Pipe
refusing = (2 ∷ 0 ∷ 0 ∷ 0 ∷ 1 ∷ 0 ∷ 0 ∷ 0 ∷ 1 ∷ 7 ∷ [], [])

abbrev resulting : Pipe
resulting = (3 ∷ 9 ∷ 9 ∷ 9 ∷ 6 ∷ 0 ∷ 0 ∷ 0 ∷ 1 ∷ 0 ∷ 0 ∷ 0 ∷ 42 ∷ 43 ∷ 7 ∷ [], [])

abbrev user_pipe : Pipe
user_pipe = ([], 8 ∷ [])

refusing_bytes : refusing.0 ≡ as_bytes refusal ++ (7 ∷ [])
unfolding as_bytes
refusing_bytes = refl

resulting_bytes : resulting.0 ≡ as_bytes sample_result ++ (7 ∷ [])
unfolding as_bytes
resulting_bytes = refl

refusal_built : new_config_resp zeros error ≡ some refusal
unfolding new_config_resp store fresh
refusal_built = refl

sample_result_fits : is_valid_data_for sample_result 2 ≡ some true
unfolding is_valid_data_for is_valid_data is_valid_message get_data_size
sample_result_fits = refl

configure_node-Learns_example :
    (r : Option ErrorCode × Pipe) × (configure_node pipe zeros sample_config refusing ≡ some r)
    × Learns pipe pipe_laws error (7 ∷ []) r
configure_node-Learns_example =
    configure_node-Learns pipe pipe_laws zeros zeros sample_config error refusal (7 ∷ []) refusing
      sample_config-IsWhole refusal_built refusing_bytes

receiver_round-IsForwarded_example :
    (r : Round × (Pipe × Pipe)) × (receiver_round pipe pipe zeros 2 resulting user_pipe ≡ some r)
    × IsForwarded pipe pipe pipe_laws pipe_laws zeros sample_result (7 ∷ []) user_pipe r
receiver_round-IsForwarded_example =
    receiver_round-IsForwarded pipe pipe pipe_laws pipe_laws zeros 2 sample_result (7 ∷ [])
      resulting user_pipe sample_result-IsWhole sample_result_fits resulting_bytes
