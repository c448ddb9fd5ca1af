-- ===== src/BenchUser.antt =====
-- server/test_user.cpp: the user that measures the framework. It sends inputs of one block, with the time
-- in their first bytes, and tests the results. Times are numbers of microseconds that the clock gives.
use distributed_computing_fr.Prelude.{
  ℕ, suc, ◌+◌, ◌-◌, ◌*◌, ◌/◌, ◌%◌, ◌^◌, ◌==◌, ltb, leb, not, ◌&&◌, if◌then◌else◌, Bool, true, false,
  Option, none, some, List, [], ◌∷◌, load, store, ◌>>=◌,
}
use distributed_computing_fr.Message.{
  Message, is_valid_data, is_valid_data_for, get_data_block_count, get_data_size,
}
use distributed_computing_fr.Message.Build.{new_data}
pub mod Stamps
pub mod Counting
pub mod Running
pub mod Latency
pub mod Tests

-- The sizes of an input and of a result.
abbrev pub sent_size : ℕ
sent_size = 64 * 64 * 4 * 2

abbrev pub result_size : ℕ
result_size = 64 * 64 * 4

-- `sending_loop`: the next input, with the eight bytes of the time.
unfoldable pub new_input : (ℕ → ℕ) → List ℕ → ℕ → Option Message
new_input junk time curr_id = do
  input ← new_data junk sent_size 1 curr_id
  payload ← store 4 time input.payload
  some (record input { payload = payload })

-- What `receiving_loop` makes of a message: it takes the time out of it, or closes the connection.
pub data ResultCheck : Type 0 where
  accepted : List ℕ → ResultCheck
  non_data invalid_output_size invalid_output_count : ResultCheck

-- The tests on a result of the right size.
unfoldable pub read_result : Message → Option ResultCheck
read_result result = do
  output_count ← get_data_block_count result result_size
  if output_count == 1
      then (do create_time ← load 4 8 result.payload; some (accepted create_time))
      else some invalid_output_count

unfoldable pub test_result : Message → Option ResultCheck
test_result result =
    if is_valid_data result
    then (do
      valid ← is_valid_data_for result result_size
      if valid then read_result result else some invalid_output_size)
    else some non_data

-- What `receiving_loop` counts; its sums are `unsigned long`.
pub record Stats : Type 0 where
  pub messages_received : ℕ
  pub total_latency : ℕ
  pub latency_min : ℕ
  pub latency_max : ℕ

-- Where a loop is: it goes on, has come to its end, or has returned -1 after an error.
pub data LoopPlace : Type 0 where
  running finished failed : LoopPlace

-- The counters that the two loops share, where each loop is, and whether one has closed the connection.
pub record Bench : Type 0 where
  pub messages_sent : ℕ
  pub sending_done : Bool
  pub stats : Stats
  pub sending : LoopPlace
  pub receiving : LoopPlace
  pub closed : Bool

abbrev pub start_stats : Stats
start_stats = record {
  messages_received = 0;
  total_latency = 0;
  latency_min = 2 ^ 64 - 1;
  latency_max = 0;
}

-- Before the loops: the receiving loop has found that the sending is not done.
abbrev pub start_bench : Bench
start_bench = record {
  messages_sent = 0;
  sending_done = false;
  stats = start_stats;
  sending = running;
  receiving = running;
  closed = false;
}

unfoldable pub count_result : ℕ → Stats → Stats
count_result latency s = record {
  messages_received = (s.messages_received + 1) % 2 ^ 64;
  total_latency = (s.total_latency + latency) % 2 ^ 64;
  latency_min = if ltb latency s.latency_min then latency else s.latency_min;
  latency_max = if ltb s.latency_max latency then latency else s.latency_max;
}

-- `latency_avg`; a division by zero is undefined.
unfoldable pub latency_avg : Stats → Option ℕ
latency_avg s =
    if s.messages_received == 0 then none else some (s.total_latency / s.messages_received)

-- A send of an input ended well, and then the time is up or not, or with an error; a receive gave a
-- message, with what its tests make of it and its latency, or an error.
pub data BenchEvent : Type 0 where
  input_sent : Bool → BenchEvent
  send_failed receive_failed : BenchEvent
  result_came : ResultCheck → ℕ → BenchEvent

-- `sending_loop` after a send; `none` is an error.
unfoldable pub send_step : Option Bool → LoopPlace → Bench → Option Bench
send_step (some time_is_up) running b = some (record b {
  messages_sent = (b.messages_sent + 1) % 2 ^ 64;
  sending_done = time_is_up;
  sending = if time_is_up then finished else running;
})
send_step none running b = some (record b { sending = failed; closed = true })
send_step sent finished b = none
send_step sent failed b = none

-- The receiving loop closes the connection and returns.
abbrev pub give_up : Bench → Bench
give_up b = record b { receiving = failed; closed = true }

-- `receiving_loop` after a receive, up to the test before it receives again; `none` is an error.
unfoldable pub receive_step : Option (ResultCheck × ℕ) → LoopPlace → Bench → Option Bench
receive_step (some (accepted create_time, latency)) running b =
    let stats = count_result latency b.stats in
    some (record b {
      stats = stats;
      receiving =
          if b.sending_done && leb b.messages_sent stats.messages_received
          then finished
          else running;
    })
receive_step (some (non_data, latency)) running b = some (give_up b)
receive_step (some (invalid_output_size, latency)) running b = some (give_up b)
receive_step (some (invalid_output_count, latency)) running b = some (give_up b)
receive_step none running b = some (give_up b)
receive_step result finished b = none
receive_step result failed b = none

unfoldable pub bench_step : BenchEvent → Bench → Option Bench
bench_step (input_sent time_is_up) b = send_step (some time_is_up) b.sending b
bench_step send_failed b = send_step none b.sending b
bench_step (result_came check latency) b = receive_step (some (check, latency)) b.receiving b
bench_step receive_failed b = receive_step none b.receiving b

unfoldable pub bench_steps : List BenchEvent → Bench → Option Bench
bench_steps [] b = some b
bench_steps (e ∷ es) b = do b' ← bench_step e b; bench_steps es b'
