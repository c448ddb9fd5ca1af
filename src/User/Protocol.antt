-- ===== src/User/Protocol.antt =====
-- server/User_Queue.hpp and server/User_Stack.hpp: the messages of a session, over the connections to
-- the user and to the nodes. `none` is a coroutine that never returns, or an access outside a
-- message; a null message that is read is one too.
use distributed_computing_fr.Prelude.{
  ℕ, Bool, true, false, ◌&&◌, Option, none, some, ◌==◌, if◌then◌else◌, ◌>>=◌,
}
use distributed_computing_fr.Message.{
  Message, is_valid_config, is_valid_config_resp, resp_status, is_valid_data_for, config_input_size,
  config_output_size, status_code, ConfigRespStatus, success,
}
use distributed_computing_fr.Message.Build.{new_config_resp}
use distributed_computing_fr.Connection.Interface.{ErrorCode, fault, Socket}
use distributed_computing_fr.Connection.{send_message, receive_message}
pub mod Configuring
pub mod Forwarding
pub mod Actions
pub mod Tests

-- What the main loop does with a message of the user.
pub data Action : Type 0 where
  dispatch reconfigure reject : Action

-- The tests of `_main_loop`, in their order, under the current configuration.
unfoldable pub main_action : Message → Message → Option Action
main_action config message = do
  input_size ← config_input_size config
  is_input ← is_valid_data_for message input_size
  if is_input then some dispatch else (do
    is_config ← is_valid_config message
    some (if is_config then reconfigure else reject))

-- How a round of `_receiver_loop` ends: the result was passed on, or the loop stops.
pub data Round : Type 0 where
  passed_on invalid_size : Round
  receive_error send_error : ErrorCode → Round

module _ (sock : Socket) where
  open sock use {State}

  -- `_configure_node` after the response of the node.
  unfoldable pub check_response :
      Option ErrorCode → Option Message → State → Option (Option ErrorCode × State)
  check_response (some e) response s = some (some e, s)
  check_response none none s = none
  check_response none (some response) s = do
    valid ← is_valid_config_resp response
    status ← resp_status response
    some (if valid && status == status_code success then none else some fault, s)

  -- `_configure_node` after the configuration was sent with this error code.
  unfoldable pub await_response :
      (ℕ → ℕ) → Option ErrorCode → State → Option (Option ErrorCode × State)
  await_response junk (some e) s = some (some e, s)
  await_response junk none s = do
    r ← receive_message sock junk s
    check_response r.ec r.message r.state

  unfoldable pub configure_node : (ℕ → ℕ) → Message → State → Option (Option ErrorCode × State)
  configure_node junk config s = do
    sent ← send_message sock config s
    await_response junk sent.ec sent.state

  unfoldable pub send_config_response : (ℕ → ℕ) → State → Option (Option ErrorCode × State)
  send_config_response junk s = do
    response ← new_config_resp junk success
    sent ← send_message sock response s
    some (sent.ec, sent.state)

module _ (node user : Socket) where
  -- `_receiver_loop` from a result of the right size on.
  unfoldable pub pass_on :
      Message → node.State → user.State → Option (Round × (node.State × user.State))
  pass_on message n u = do
    sent ← send_message user message u
    some (elim sent.ec [ none ↦ passed_on | some e ↦ send_error e ], (n, sent.state))

  -- `_receiver_loop` after it has received with this error code.
  unfoldable pub check_result :
      ℕ
      → Option ErrorCode
      → Option Message
      → node.State
      → user.State
      → Option (Round × (node.State × user.State))
  check_result output_size (some e) message n u = some (receive_error e, (n, u))
  check_result output_size none none n u = none
  check_result output_size none (some message) n u = do
    valid ← is_valid_data_for message output_size
    if valid then pass_on message n u else some (invalid_size, (n, u))

  -- A round of `_receiver_loop` that is not stopped: a result of the node goes to the user.
  unfoldable pub receiver_round :
      (ℕ → ℕ) → ℕ → node.State → user.State → Option (Round × (node.State × user.State))
  receiver_round junk output_size n u = do
    r ← receive_message node junk n
    check_result output_size r.ec r.message r.state u
