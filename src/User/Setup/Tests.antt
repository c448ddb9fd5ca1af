-- ===== src/User/Setup/Tests.antt =====
-- `_configure_nodes` of server/User_Queue.hpp on two nodes, of which the second refuses.
use distributed_computing_fr.Prelude.{
  ℕ, suc, ◌≡◌, refl, Bool, true, false, some, List, [], ◌∷◌, length, arith,
}
use distributed_computing_fr.Container.{Container, enqueue, push, cancel_one}
use distributed_computing_fr.Counter.{Counter, incr, decr, notify_all}
use distributed_computing_fr.Container.Bag.{enqueue-Keeps}
use distributed_computing_fr.User.MainLoop.{remove}
use distributed_computing_fr.User.Setup.{
  Setup, push_nodes, spawn_all, node_configured, all_configured,
}
use distributed_computing_fr.User.Setup.Ready.{
  spawned, IsReady, begin_setup, configure_nodes-IsReady,
}

abbrev two_nodes : List ℕ
two_nodes = 1 ∷ 2 ∷ []

abbrev two_container : Container ℕ
two_container = record { items = 1 ∷ 2 ∷ []; waiting = []; woken = [] }

abbrev zero_counter : Counter
zero_counter = record { val = 0; timer = record { waiting = []; woken = [] } }

abbrev two_outcomes : List (ℕ × Bool)
two_outcomes = (2, false) ∷ (1, true) ∷ []

abbrev ready : Setup
ready = record {
  nodes = record { items = 1 ∷ []; waiting = []; woken = [] };
  config_counter = zero_counter;
  configuring = [];
}

ready_runs :
    all_configured enqueue two_outcomes
      (spawned two_container.items (begin_setup two_container zero_counter))
    ≡ some ready
unfolding all_configured node_configured remove incr decr notify_all push cancel_one
ready_runs = refl

configure_nodes-IsReady_example :
    (spawn_all (suc (length two_container.items)) (begin_setup two_container zero_counter)
      ≡ some (spawned two_container.items (begin_setup two_container zero_counter)))
    × IsReady two_nodes two_outcomes ready
unfolding push_nodes push cancel_one
configure_nodes-IsReady_example =
    configure_nodes-IsReady enqueue two_nodes zero_counter two_outcomes ready enqueue-Keeps refl
      (omega arith) ready_runs
