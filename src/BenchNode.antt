-- ===== src/BenchNode.antt =====
-- server/test_node.cpp: a node without an FPGA, which answers each input after a delay. The delay and
-- the statistics are left out. `none` is a coroutine that never returns, or an access outside a
-- message.
use distributed_computing_fr.Prelude.{
  ℕ, Bool, true, false, not, ◌||◌, Option, none, some, List, [], le32, ltb, ◌==◌, if◌then◌else◌,
  ◌>>=◌, read32, load, store,
}
use distributed_computing_fr.Message.{
  Message, is_valid_data_for, config_input_size, config_output_size, config_num_blocks,
  get_rbf_size, get_data_block_count, ConfigRespStatus, success, error,
}
use distributed_computing_fr.Message.Build.{new_config, new_config_resp, new_data}
use distributed_computing_fr.Connection.Interface.{ErrorCode, Socket}
use distributed_computing_fr.Connection.{send_message, receive_message}
pub mod Answers
pub mod Rounds
pub mod Delivery
pub mod Accepts
pub mod Tests

-- The test of `config_received`, on a configuration whose four fields are there.
unfoldable pub accepts : Message → Option Bool
accepts config = do
  input_size ← config_input_size config
  output_size ← config_output_size config
  num_blocks ← config_num_blocks config
  rbf_size ← get_rbf_size config
  some (
      not (
        ltb input_size output_size
        || (ltb input_size 16 || (not (num_blocks == 0) || not (rbf_size == 4)))))

-- `processing_loop`, from an input to its output: as many blocks, the same identifier, and the first
-- eight bytes of the data.
unfoldable pub answer : (ℕ → ℕ) → ℕ → ℕ → Message → Option Message
answer junk input_size output_size input = do
  input_count ← get_data_block_count input input_size
  id ← read32 input.payload 0
  output ← new_data junk output_size input_count id
  bytes ← load 4 8 input.payload
  payload ← store 4 bytes output.payload
  some (record output { payload = payload })

-- server/test_user.cpp, the configuration of `send_benchmarking_config`: no blocks, and the delay in
-- place of the bit stream.
unfoldable pub benchmarking_config : (ℕ → ℕ) → ℕ → ℕ → ℕ → Option Message
benchmarking_config junk input_size output_size processing_delay =
    new_config junk [] input_size output_size (some (le32 processing_delay)) 4

-- How a round of `processing_loop` ends: an output was sent, or the loop stops.
pub data Processed : Type 0 where
  answered invalid_input : Processed
  receive_error send_error : ErrorCode → Processed

module _ (sock : Socket) where
  open sock use {State}

  unfoldable pub send_config_response :
      (ℕ → ℕ) → ConfigRespStatus → State → Option (Option ErrorCode × State)
  send_config_response junk status s = do
    response ← new_config_resp junk status
    sent ← send_message sock response s
    some (sent.ec, sent.state)

  -- Whether the node goes on to process inputs.
  unfoldable pub config_received : (ℕ → ℕ) → Message → State → Option (Bool × State)
  config_received junk config s = do
    accepted ← accepts config
    sent ← send_config_response junk (if accepted then success else error) s
    some (if accepted then elim sent.0 [ none ↦ true | some e ↦ false ] else false, sent.1)

  -- A round after it has received with this error code.
  unfoldable pub process :
      (ℕ → ℕ) → ℕ → ℕ → Option ErrorCode → Option Message → State → Option (Processed × State)
  process junk input_size output_size (some e) message s = some (receive_error e, s)
  process junk input_size output_size none none s = none
  process junk input_size output_size none (some input) s = do
    valid ← is_valid_data_for input input_size
    if valid
        then (do
          output ← answer junk input_size output_size input
          sent ← send_message sock output s
          some (elim sent.ec [ none ↦ answered | some e ↦ send_error e ], sent.state))
        else some (invalid_input, s)

  unfoldable pub processing_round : (ℕ → ℕ) → ℕ → ℕ → State → Option (Processed × State)
  processing_round junk input_size output_size s = do
    r ← receive_message sock junk s
    process junk input_size output_size r.ec r.message r.state
