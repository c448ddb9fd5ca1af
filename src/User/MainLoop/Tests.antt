-- ===== src/User/MainLoop/Tests.antt =====
-- The main loop of server/User_Queue.hpp on concrete runs: a node with a receiver loop, and a new
-- configuration.
use distributed_computing_fr.Prelude.{
  ℕ, ◌+◌, ◌*◌, ◌≤◌, ◌≡◌, ◌⊎◌, length, refl, true, false, some, List, [], ◌∷◌, arith,
}
use distributed_computing_fr.Message.{
  Message, is_valid_message, is_valid_config, is_valid_data, is_valid_data_for, get_data_size,
}
use distributed_computing_fr.Container.{Container, enqueue}
use distributed_computing_fr.Counter.{
  Counter, incr, decr, async_wait, async_wait_zero, notify_all, wake,
}
use distributed_computing_fr.User.Protocol.{main_action}
use distributed_computing_fr.User.MainLoop.{
  Phase, receiving, draining, returned, Running, LoopEvent, user_sends, main_resumes, result_comes,
  result_sent, loop_canceled, remove, start_loops, begin_loop, stop_loops, change_config,
  handle_message, resume_main, loop_ends, receive_result, from_user, step, steps,
}
use distributed_computing_fr.User.MainLoop.Loops.{HasNoLoop, steps-HasNoLoop}
use distributed_computing_fr.User.MainLoop.Changing.{Progresses, steps-Changes}
use distributed_computing_fr.User.MainLoop.Events.{all_coming, all_sent}
use distributed_computing_fr.User.MainLoop.Draining.{IsStalled, steps-IsStalled}

-- A configuration of no blocks for inputs and outputs of two bytes, and a result of two bytes.
abbrev small_config : Message
small_config = record {
  alloc_size = 28;
  header = record { type = 1; reserved = 0 ∷ 0 ∷ 0 ∷ []; payload_size = 12 };
  payload = 2 ∷ 0 ∷ 0 ∷ 0 ∷ 2 ∷ 0 ∷ 0 ∷ 0 ∷ 0 ∷ 0 ∷ 0 ∷ 0 ∷ [];
}

abbrev small_result : Message
small_result = record {
  alloc_size = 22;
  header = record { type = 3; reserved = 9 ∷ 9 ∷ 9 ∷ []; payload_size = 6 };
  payload = 1 ∷ 0 ∷ 0 ∷ 0 ∷ 42 ∷ 43 ∷ [];
}

-- The same for outputs of four bytes.
abbrev wide_config : Message
wide_config = record {
  alloc_size = 28;
  header = record { type = 1; reserved = 0 ∷ 0 ∷ 0 ∷ []; payload_size = 12 };
  payload = 2 ∷ 0 ∷ 0 ∷ 0 ∷ 4 ∷ 0 ∷ 0 ∷ 0 ∷ 0 ∷ 0 ∷ 0 ∷ 0 ∷ [];
}

abbrev counter : ℕ → List ℕ → Counter
counter n cs = record { val = n; timer = record { waiting = cs; woken = [] } }

abbrev running : Message → ℕ → List ℕ → ℕ → List ℕ → Phase → Running
running config inputs waiters loops nodes phase = record {
  config = config;
  data_counter = counter inputs waiters;
  receiver_counter = counter loops [];
  waiting = nodes;
  sending = [];
  canceled = [];
  phase = phase;
}

abbrev change : List LoopEvent
change = user_sends wide_config ∷ loop_canceled 7 ∷ main_resumes ∷ []

change_runs :
    steps false change (running small_config 0 [] 1 (7 ∷ []) receiving)
    ≡ some (running wide_config 0 [] 0 [] (returned true))
unfolding steps step from_user handle_message main_action is_valid_data_for is_valid_data
    is_valid_message is_valid_config get_data_size change_config stop_loops async_wait_zero
    async_wait remove loop_ends decr notify_all resume_main wake
change_runs = refl

abbrev one_node : Container ℕ
one_node = record { items = 7 ∷ []; waiting = []; woken = [] }

steps-HasNoLoop_example : HasNoLoop (running wide_config 0 [] 0 [] (returned true))
unfolding begin_loop start_loops incr notify_all
steps-HasNoLoop_example =
    steps-HasNoLoop enqueue false small_config (counter 0 []) (counter 0 []) one_node change
      (running wide_config 0 [] 0 [] (returned true)) refl (omega arith) change_runs refl

-- The result of the old size comes after the change.
abbrev stalled : Running
stalled = running wide_config 1 (0 ∷ []) 0 [] draining

stale_runs :
    steps false
      (result_comes 7 small_result ∷ [])
      (running wide_config 1 (0 ∷ []) 1 (7 ∷ []) draining)
    ≡ some stalled
unfolding steps step receive_result is_valid_data_for is_valid_data is_valid_message get_data_size
    remove loop_ends decr notify_all
stale_runs = refl

steps-IsStalled_example : IsStalled 4 stalled
unfolding is_valid_data_for is_valid_data is_valid_message get_data_size
steps-IsStalled_example =
    steps-IsStalled false 4 (result_comes 7 small_result ∷ [])
      (running wide_config 1 (0 ∷ []) 1 (7 ∷ []) draining) stalled (refl, omega arith, refl, refl)
      (refl, tt) stale_runs

-- A result of four bytes.
abbrev wide_result : Message
wide_result = record {
  alloc_size = 24;
  header = record { type = 3; reserved = 9 ∷ 9 ∷ 9 ∷ []; payload_size = 8 };
  payload = 1 ∷ 0 ∷ 0 ∷ 0 ∷ 42 ∷ 43 ∷ 44 ∷ 45 ∷ [];
}

-- Two loops, and one result is missing when the new configuration comes; its loop sends it, and the
-- loops are stopped in the other order.
abbrev two_loops : Running
two_loops = running small_config 1 [] 2 (7 ∷ 8 ∷ []) receiving

abbrev last_result : List LoopEvent
last_result =
    result_comes 7 wide_result
    ∷ result_sent 7
    ∷ main_resumes
    ∷ loop_canceled 8
    ∷ loop_canceled 7
    ∷ main_resumes
    ∷ []

abbrev changed : Running
changed = running wide_config 0 [] 0 [] (returned true)

last_result_runs : steps false (user_sends wide_config ∷ last_result) two_loops ≡ some changed
unfolding steps step from_user handle_message main_action is_valid_data_for is_valid_data
    is_valid_message is_valid_config get_data_size change_config receive_result remove loop_ends
    decr notify_all resume_main wake async_wait_zero async_wait stop_loops
last_result_runs = refl

steps-Changes_example :
    (changed.data_counter.val + all_sent last_result ≡ two_loops.data_counter.val)
    × (length last_result
        ≤ 3 * all_coming last_result
          + 2 * length two_loops.sending
          + 2 * two_loops.receiver_counter.val)
    × ((changed.phase ≡ draining) ⊎ (changed.data_counter.val ≡ 0))
    × Progresses false changed
unfolding main_action is_valid_data_for is_valid_data is_valid_message is_valid_config get_data_size
steps-Changes_example =
    steps-Changes false wide_config last_result two_loops changed
      (refl, refl, refl, refl, (omega arith, omega arith)) refl last_result_runs
