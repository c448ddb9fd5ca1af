-- ===== src/User/Setup.antt =====
-- server/User_Queue.hpp and server/User_Stack.hpp, `_configure_nodes`: every node is taken out of the
-- container and configured by a coroutine of its own, and comes back if that succeeds.
use distributed_computing_fr.Prelude.{
  ℕ, zero, suc, if◌then◌else◌, Bool, true, false, Option, none, some, List, [], ◌∷◌, ◌>>=◌, length,
}
use distributed_computing_fr.Container.{Container, push, pop, empty}
use distributed_computing_fr.Counter.{Counter, incr, decr}
use distributed_computing_fr.User.MainLoop.{remove}
pub mod Outcomes
pub mod Ready
pub mod Tests

-- `User::start` puts the nodes that the server has collected into the container.
unfoldable pub push_nodes : (ℕ → List ℕ → List ℕ) → List ℕ → Container ℕ → Container ℕ
push_nodes insert [] q = q
push_nodes insert (node ∷ nodes) q = push_nodes insert nodes (push insert node q)

pub record Setup : Type 0 where
  -- `_nodes_queue` or `_nodes_stack`, and the local `config_counter`.
  pub nodes : Container ℕ
  pub config_counter : Counter
  -- The nodes whose `_configure_node` has not returned.
  pub configuring : List ℕ

-- The loop that pops the nodes; `none` is too little fuel, or a pop of an empty container.
unfoldable pub spawn_all : ℕ → Setup → Option Setup
spawn_all zero s = none
spawn_all (suc fuel) s = if empty s.nodes then some s else (do
  (node, nodes') ← pop s.nodes
  spawn_all fuel (record {
    nodes = nodes';
    config_counter = incr s.config_counter;
    configuring = node ∷ s.configuring;
  }))

-- The completion handler of `_configure_node`, with whether it returned without an error code.
unfoldable pub node_configured : (ℕ → List ℕ → List ℕ) → ℕ → Bool → Setup → Option Setup
node_configured insert node ok s = do
  rest ← remove node s.configuring
  some (record {
    nodes = if ok then push insert node s.nodes else s.nodes;
    config_counter = decr s.config_counter;
    configuring = rest;
  })

-- The nodes whose configuration has ended, in this order.
unfoldable pub all_configured : (ℕ → List ℕ → List ℕ) → List (ℕ × Bool) → Setup → Option Setup
all_configured insert [] s = some s
all_configured insert ((node, ok) ∷ outcomes) s = do
  s' ← node_configured insert node ok s
  all_configured insert outcomes s'
