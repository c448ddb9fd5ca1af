-- ===== src/User/MainLoop.antt =====
-- server/User_Queue.hpp and server/User_Stack.hpp, `_main_loop` with the loops of `_receiver_loop`: the
-- messages of the user, the results of the nodes, and the change of the configuration. Nodes are
-- numbers, and each event is what one of the coroutines does between two waits.
use distributed_computing_fr.Prelude.{
  ℕ, suc, ◌+◌, ◌==◌, if◌then◌else◌, Bool, true, false, Option, none, some, List, [], ◌∷◌, ◌++◌,
  ◌>>=◌, length,
}
use distributed_computing_fr.Message.{Message, is_valid_data_for, config_output_size}
use distributed_computing_fr.Container.{Container, push}
use distributed_computing_fr.Counter.{Counter, incr, decr, async_wait_zero, wake}
use distributed_computing_fr.User.Protocol.{Action, dispatch, reconfigure, reject, main_action}
pub mod Counting
pub mod Loops
pub mod Draining
pub mod Waiting
pub mod Stopping
pub mod Ending
pub mod Events
pub mod Changing
pub mod Tests

-- Where `_main_loop` is: it waits for a message, for the data counter or for the receiver counter,
-- or has returned.
pub data Phase : Type 0 where
  receiving draining stopping : Phase
  returned : Bool → Phase

pub record Running : Type 0 where
  pub config : Message
  -- `_data_counter` and `_node_receiver_counter`.
  pub data_counter : Counter
  pub receiver_counter : Counter
  -- The receiver loops that wait for a result or the stop, those that send a result to the user, and
  -- those that the stop has reached and that have not run on yet.
  pub waiting : List ℕ
  pub sending : List ℕ
  pub canceled : List ℕ
  pub phase : Phase

pub data LoopEvent : Type 0 where
  user_sends : Message → LoopEvent
  user_gone main_resumes : LoopEvent
  result_comes : ℕ → Message → LoopEvent
  result_sent result_failed node_gone loop_canceled : ℕ → LoopEvent

-- The list without the first entry of a node.
unfoldable pub remove : ℕ → List ℕ → Option (List ℕ)
remove node [] = none
remove node (n ∷ ns) =
    let rest = remove node ns in if node == n then some ns else (do ns' ← rest; some (n ∷ ns'))

-- The number of the coroutine of `_main_loop`.
abbrev pub main_coroutine : ℕ
main_coroutine = 0

-- The start of `_main_loop`: a loop for each node, which is pushed back to the container.
unfoldable pub start_loops :
    (ℕ → List ℕ → List ℕ) → List ℕ → Counter → Container ℕ → Counter × Container ℕ
start_loops insert [] receiver_counter nodes = (receiver_counter, nodes)
start_loops insert (n ∷ ns) receiver_counter nodes =
    start_loops insert ns (incr receiver_counter) (push insert n nodes)

-- The first state of the loop of `_main_loop`, and the container that is filled again. A user's
-- session has one main loop, so that no receiver loop runs before.
unfoldable pub begin_loop :
    (ℕ → List ℕ → List ℕ) → Message → Counter → Counter → Container ℕ → Running × Container ℕ
begin_loop insert config data_counter receiver_counter nodes =
    let emptied : Container ℕ = record nodes { items = [] } in
    let (counter, nodes') = start_loops insert nodes.items receiver_counter emptied in
    (
      record {
        config = config;
        data_counter = data_counter;
        receiver_counter = counter;
        waiting = nodes.items;
        sending = [];
        canceled = [];
        phase = receiving;
      },
      nodes',
    )

-- `_stop_receiving_ev.notify_all` reaches the loops that wait; then the wait for the counter begins.
unfoldable pub stop_loops : Running → Running
stop_loops s =
    let (done, counter) = async_wait_zero main_coroutine s.receiver_counter in
    record s {
      receiver_counter = counter;
      waiting = [];
      canceled = s.canceled ++ s.waiting;
      phase = if done then returned true else stopping;
    }

-- The new configuration takes the place of the old one at once; then the wait for the data begins.
unfoldable pub change_config : Message → Running → Running
change_config message s =
    let (done, counter) = async_wait_zero main_coroutine s.data_counter in
    let s' : Running = record s { config = message; data_counter = counter; phase = draining } in
    if done then stop_loops s' else s'

-- A message of the user. Where User_Queue.hpp returns, User_Stack.hpp ignores an invalid one.
unfoldable pub handle_message : Bool → Message → Running → Option Running
handle_message ignores message s = do
  action ← main_action s.config message
  some (elim action [
    | dispatch ↦ record s { data_counter = incr s.data_counter }
    | reconfigure ↦ change_config message s
    | reject ↦ if ignores then s else record s { phase = returned false }
  ])

-- `_main_loop` runs on after a wait for one of the counters.
unfoldable pub resume_main : Phase → Running → Option Running
resume_main draining s = do
  (c, done, counter) ← wake s.data_counter
  let s' : Running = record s { data_counter = counter }
  some (if done then stop_loops s' else s')
resume_main stopping s = do
  (c, done, counter) ← wake s.receiver_counter
  some (record s { receiver_counter = counter; phase = if done then returned true else stopping })
resume_main receiving s = none
resume_main (returned again) s = none

-- The end of a receiver loop: the completion handler of its `co_spawn`.
unfoldable pub loop_ends : Running → Running
loop_ends s = record s { receiver_counter = decr s.receiver_counter }

-- A receiver loop with a result, tested under the configuration that is current now.
unfoldable pub receive_result : ℕ → Message → Running → Option Running
receive_result node message s = do
  rest ← remove node s.waiting
  output_size ← config_output_size s.config
  valid ← is_valid_data_for message output_size
  some (
      if valid
      then record s { waiting = rest; sending = node ∷ s.sending }
      else loop_ends (record s { waiting = rest }))

-- What `_main_loop` does in a phase in which it waits for the user.
unfoldable pub from_user : Bool → Option Message → Phase → Running → Option Running
from_user ignores (some message) receiving s = handle_message ignores message s
from_user ignores none receiving s = some (record s { phase = returned false })
from_user ignores message draining s = none
from_user ignores message stopping s = none
from_user ignores message (returned again) s = none

unfoldable pub step : Bool → LoopEvent → Running → Option Running
step ignores (user_sends message) s = from_user ignores (some message) s.phase s
step ignores user_gone s = from_user ignores none s.phase s
step ignores main_resumes s = resume_main s.phase s
step ignores (result_comes node message) s = receive_result node message s
step ignores (result_sent node) s = do
  rest ← remove node s.sending
  some (record s { sending = rest; waiting = node ∷ s.waiting; data_counter = decr s.data_counter })
step ignores (result_failed node) s = do
  rest ← remove node s.sending
  some (loop_ends (record s { sending = rest }))
step ignores (node_gone node) s = do
  rest ← remove node s.waiting
  some (loop_ends (record s { waiting = rest }))
step ignores (loop_canceled node) s = do
  rest ← remove node s.canceled
  some (loop_ends (record s { canceled = rest }))

unfoldable pub steps : Bool → List LoopEvent → Running → Option Running
steps ignores [] s = some s
steps ignores (e ∷ es) s = do s' ← step ignores e s; steps ignores es s'
