-- ===== src/User/Start/Tests.antt =====
-- `User::start` of server/User_Queue.hpp on a concrete user and two nodes.
use distributed_computing_fr.Prelude.{
  ℕ, ◌%◌, ◌+◌, ◌≡◌, refl, none, some, Bool, true, false, List, [], ◌∷◌, ◌++◌, arith,
}
use distributed_computing_fr.Message.{Message, is_valid_message, as_bytes}
use distributed_computing_fr.Connection.Framing.{IsWhole}
use distributed_computing_fr.Connection.Pipe.{Pipe, pipe, pipe_laws}
use distributed_computing_fr.Container.{Container, enqueue, push, cancel_one}
use distributed_computing_fr.Container.Bag.{enqueue-Keeps}
use distributed_computing_fr.Counter.{Counter, incr, decr, notify_all}
use distributed_computing_fr.User.MainLoop.{Running, remove}
use distributed_computing_fr.User.Setup.{Setup, push_nodes, node_configured, all_configured}
use distributed_computing_fr.User.Setup.Ready.{spawned, begin_setup}
use distributed_computing_fr.User.Start.{start_main_loop}
use distributed_computing_fr.User.Start.First.{IsTaken, wait_first_config-IsTaken}
use distributed_computing_fr.User.Start.Serving.{Serves, start_main_loop-Serves}

abbrev zeros : ℕ → ℕ
zeros i = 0

abbrev last_digit : ℕ → List ℕ
last_digit n = (48 + n % 10) ∷ []

-- A configuration that counts a block and has none, as the first message of a user.
abbrev overcounting : Message
overcounting = record {
  alloc_size = 28;
  header = record { type = 1; reserved = 0 ∷ 0 ∷ 0 ∷ []; payload_size = 12 };
  payload = 2 ∷ 0 ∷ 0 ∷ 0 ∷ 2 ∷ 0 ∷ 0 ∷ 0 ∷ 1 ∷ 0 ∷ 0 ∷ 0 ∷ [];
}

overcounting-IsWhole : IsWhole overcounting
unfolding is_valid_message
overcounting-IsWhole = record {
  valid = refl;
  allocated = refl;
  word = omega arith;
  three = refl;
  filled = refl;
}

abbrev user_pipe : Pipe
user_pipe =
    (1 ∷ 0 ∷ 0 ∷ 0 ∷ 12 ∷ 0 ∷ 0 ∷ 0 ∷ 2 ∷ 0 ∷ 0 ∷ 0 ∷ 2 ∷ 0 ∷ 0 ∷ 0 ∷ 1 ∷ 0 ∷ 0 ∷ 0 ∷ 7 ∷ [], [])

user_pipe_bytes : user_pipe.0 ≡ as_bytes overcounting ++ (7 ∷ [])
unfolding as_bytes
user_pipe_bytes = refl

wait_first_config-IsTaken_example :
    IsTaken pipe pipe_laws last_digit zeros overcounting (7 ∷ []) user_pipe
wait_first_config-IsTaken_example =
    wait_first_config-IsTaken pipe pipe_laws last_digit zeros overcounting (7 ∷ []) user_pipe
      overcounting-IsWhole refl user_pipe_bytes

abbrev zero_counter : Counter
zero_counter = record { val = 0; timer = record { waiting = []; woken = [] } }

abbrev two_container : Container ℕ
two_container = record { items = 1 ∷ 2 ∷ []; waiting = []; woken = [] }

abbrev two_outcomes : List (ℕ × Bool)
two_outcomes = (2, false) ∷ (1, true) ∷ []

abbrev ready : Setup
ready = record {
  nodes = record { items = 1 ∷ []; waiting = []; woken = [] };
  config_counter = zero_counter;
  configuring = [];
}

ready_runs :
    all_configured enqueue two_outcomes
      (spawned two_container.items (begin_setup two_container zero_counter))
    ≡ some ready
unfolding all_configured node_configured remove incr decr notify_all push cancel_one
ready_runs = refl

start_main_loop-Serves_example :
    (r : Running × Container ℕ) × (start_main_loop enqueue overcounting zero_counter zero_counter
        none ready
      ≡ some r)
    × Serves overcounting (1 ∷ 2 ∷ []) two_outcomes r
unfolding push_nodes push cancel_one
start_main_loop-Serves_example =
    start_main_loop-Serves enqueue overcounting zero_counter zero_counter zero_counter (1 ∷ 2 ∷ [])
      two_outcomes ready enqueue-Keeps refl refl (omega arith) ready_runs refl
