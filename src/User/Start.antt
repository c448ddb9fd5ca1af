-- ===== src/User/Start.antt =====
-- server/User_Queue.hpp and server/User_Stack.hpp, `User::start`: the first configuration, the nodes
-- that are configured with it, and the start of the main loop.
use distributed_computing_fr.Prelude.{ℕ, Bool, if◌then◌else◌, Option, none, some, List, ◌>>=◌}
use distributed_computing_fr.Message.{Message, is_valid_config}
use distributed_computing_fr.Message.Text.{tab}
use distributed_computing_fr.Message.Print.{print}
use distributed_computing_fr.Connection.Interface.{ErrorCode, Socket}
use distributed_computing_fr.Connection.{receive_message}
use distributed_computing_fr.Container.{Container}
use distributed_computing_fr.Counter.{Counter}
use distributed_computing_fr.User.MainLoop.{Running, begin_loop}
use distributed_computing_fr.User.Setup.{Setup}
pub mod First
pub mod Serving
pub mod Tests

-- How the wait for the first configuration ends: the session goes on with it, or it is over.
pub data FirstConfig : Type 0 where
  receive_failed : ErrorCode → FirstConfig
  invalid_config : FirstConfig
  configured : Message → FirstConfig

module _ (user : Socket) (decimal : ℕ → List ℕ) where
  -- After `receive_message`: the message is printed, and then tested.
  unfoldable pub check_first :
      Option ErrorCode → Option Message → user.State → Option (FirstConfig × user.State)
  check_first (some e) first_config s = some (receive_failed e, s)
  check_first none none s = none
  check_first none (some first_config) s = do
    text ← print decimal tab first_config
    valid ← is_valid_config first_config
    some (if valid then configured first_config else invalid_config, s)

  unfoldable pub wait_first_config : (ℕ → ℕ) → user.State → Option (FirstConfig × user.State)
  wait_first_config junk s = do r ← receive_message user junk s; check_first r.ec r.message r.state

-- What follows the wait for the nodes: unless the response to the user failed with an error code, the
-- main loop starts with the nodes that are in the container.
unfoldable pub start_main_loop :
    (ℕ → List ℕ → List ℕ)
    → Message
    → Counter
    → Counter
    → Option ErrorCode
    → Setup
    → Option (Running × Container ℕ)
start_main_loop insert config data_counter receiver_counter (some e) s = none
start_main_loop insert config data_counter receiver_counter none s =
    some (begin_loop insert config data_counter receiver_counter s.nodes)
