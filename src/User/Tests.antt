-- ===== src/User/Tests.antt =====
-- server/User_Queue.hpp on a concrete run: two nodes, three inputs, and a node that fails.
use distributed_computing_fr.Prelude.{ℕ, ◌≡◌, refl, some, List, [], ◌∷◌, arith}
use distributed_computing_fr.Container.{enqueue, async_pop, push, pop, resume, cancel_one}
use distributed_computing_fr.Counter.{incr, decr, notify_all}
use distributed_computing_fr.User.{
  Session, take_out, dispatch_input, receive_input, resume_dispatch, input_sent, send_failed,
  answer, Event, input_comes, dispatch_resumes, answer_comes, node_took, node_failed, step, steps,
}
use distributed_computing_fr.Container.Bag.{enqueue-Keeps}
use distributed_computing_fr.User.Conservation.{IsConserved, steps-IsConserved}
use distributed_computing_fr.User.Answers.{CountsAnswers, steps-CountsAnswers}

abbrev ready_session : Session ℕ
ready_session = record {
  nodes = record { items = 1 ∷ 2 ∷ []; waiting = []; woken = [] };
  data_counter = record { val = 0; timer = record { waiting = []; woken = [] } };
  awaiting = [];
  sending = [];
  received = [];
  taken = [];
  failed = [];
  answers = 0;
}

-- The third input waits until node 1 took the first; node 2 fails, and its input waits as well.
abbrev events : List (Event ℕ)
events =
    input_comes 90 10
    ∷ input_comes 91 11
    ∷ input_comes 92 12
    ∷ node_failed 93 2
    ∷ node_took 1
    ∷ dispatch_resumes
    ∷ answer_comes
    ∷ []

abbrev last_session : Session ℕ
last_session = record {
  nodes = record { items = []; waiting = 93 ∷ []; woken = [] };
  data_counter = record { val = 2; timer = record { waiting = []; woken = [] } };
  awaiting = (93, 11) ∷ [];
  sending = (1, 12) ∷ [];
  received = 12 ∷ 11 ∷ 10 ∷ [];
  taken = 10 ∷ [];
  failed = 2 ∷ [];
  answers = 1;
}

session_runs : steps enqueue events ready_session ≡ some last_session
unfolding steps step receive_input dispatch_input resume_dispatch input_sent send_failed answer
    take_out async_pop push pop resume cancel_one incr decr notify_all
session_runs = refl

steps-IsConserved_example : IsConserved (1 ∷ 2 ∷ []) last_session
steps-IsConserved_example =
    steps-IsConserved enqueue (1 ∷ 2 ∷ []) events ready_session last_session enqueue-Keeps
      (record { input = λ p. refl; node = λ q. omega arith }) session_runs

steps-CountsAnswers_example : CountsAnswers last_session
steps-CountsAnswers_example =
    steps-CountsAnswers enqueue events ready_session last_session refl refl session_runs
      (omega arith)
