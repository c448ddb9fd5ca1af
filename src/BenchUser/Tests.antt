-- ===== src/BenchUser/Tests.antt =====
-- The loops of server/test_user.cpp on concrete events, and an input of it on concrete sockets.
use distributed_computing_fr.Prelude.{
  ℕ, ◌<◌, ◌≡◌, refl, true, false, some, List, [], ◌∷◌, ◌++◌, arith,
}
use distributed_computing_fr.Message.{Message, as_bytes}
use distributed_computing_fr.Connection.Pipe.{Pipe, pipe, pipe_laws}
use distributed_computing_fr.BenchNode.{Processed, processing_round}
use distributed_computing_fr.BenchUser.{
  sent_size, result_size, new_input, Bench, start_bench, count_result, BenchEvent, input_sent,
  result_came, accepted, finished, send_step, receive_step, bench_step, bench_steps,
}
use distributed_computing_fr.BenchUser.Stamps.{
  new_input-Carries, IsRoundTrip, processing_round-IsRoundTrip,
}
use distributed_computing_fr.BenchUser.Latency.{Averages, bench_steps-Averages}

abbrev zeros : ℕ → ℕ
zeros i = 0

abbrev time_bytes : List ℕ
time_bytes = 1 ∷ 2 ∷ 3 ∷ 4 ∷ 5 ∷ 6 ∷ 7 ∷ 8 ∷ []

five_small : 5 < 4294967296
five_small = omega arith

abbrev stamped_input : Message
stamped_input = (new_input-Carries zeros time_bytes 5 refl five_small).0

stamped_input_built : new_input zeros time_bytes 5 ≡ some stamped_input
stamped_input_built = (new_input-Carries zeros time_bytes 5 refl five_small).1

processing_round-IsRoundTrip_example :
    (r : Processed × Pipe) × (processing_round pipe zeros sent_size result_size
        (as_bytes stamped_input ++ [], [])
      ≡ some r)
    × IsRoundTrip pipe pipe pipe pipe_laws pipe_laws pipe_laws zeros zeros time_bytes
        (λ bytes. (bytes ++ [], []))
        (as_bytes stamped_input ++ [], [])
        ([], [])
        r
processing_round-IsRoundTrip_example =
    processing_round-IsRoundTrip pipe pipe pipe pipe_laws pipe_laws pipe_laws zeros zeros zeros
      time_bytes 5 stamped_input [] [] (λ bytes. (bytes ++ [], []))
      (as_bytes stamped_input ++ [], []) ([], []) refl five_small stamped_input_built refl
      (λ bytes. refl)

-- Two inputs and two results; the time is up with the second input.
abbrev two_results : List BenchEvent
two_results =
    input_sent false
    ∷ result_came (accepted time_bytes) 5
    ∷ input_sent true
    ∷ result_came (accepted time_bytes) 7
    ∷ []

abbrev two_results_end : Bench
two_results_end = record {
  messages_sent = 2;
  sending_done = true;
  stats = record { messages_received = 2; total_latency = 12; latency_min = 5; latency_max = 7 };
  sending = finished;
  receiving = finished;
  closed = false;
}

two_results_run : bench_steps two_results start_bench ≡ some two_results_end
unfolding bench_steps bench_step send_step receive_step count_result
two_results_run = refl

bench_steps-Averages_example : Averages two_results_end
bench_steps-Averages_example =
    bench_steps-Averages two_results two_results_end (omega arith) (omega arith) two_results_run
