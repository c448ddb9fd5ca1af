-- ===== src/User/MainLoop/Ending.antt =====
-- server/User_Queue.hpp, `_main_loop`: what the ends of loops and the results do in a change.
use distributed_computing_fr.Prelude.{ℕ, suc, ◌+◌, ◌≤◌, ◌≡◌, true, false, List, ◌∷◌, length, arith}
use distributed_computing_fr.Counter.{decr}
use distributed_computing_fr.User.Answers.{decr-val}
use distributed_computing_fr.User.MainLoop.Waiting.{
  Stage, Counts, weight, woken_le, nobody_le, decr-Waits, decr-nobody,
}
use distributed_computing_fr.User.MainLoop.{
  Phase, receiving, draining, stopping, returned, Running, loop_ends,
}

module _ (b : ℕ) (s : Running) where
  -- A result of the right size: its loop goes on to send it.
  pub taken :
      (phase : Phase) (node : ℕ) (rest : List ℕ)
      → length s.waiting ≡ suc (length rest)
      → Stage phase s
      → Counts (1 + b) s
      → Stage phase (record s { waiting = rest; sending = node ∷ s.sending })
        × Counts b (record s { waiting = rest; sending = node ∷ s.sending })
  taken receiving node rest one stage counts = absurd stage
  taken draining node rest one stage (counted, missing) =
      (stage, (omega (arith, one, counted), omega (arith, missing)))
  taken stopping node rest one stage counts = absurd (omega (arith, one, stage.0))
  taken (returned true) node rest one stage counts = absurd (omega (arith, one, stage.1))
  taken (returned false) node rest one stage counts = absurd stage

  -- The loop of a node ends while it waits for a result.
  pub waiting-ends :
      (phase : Phase) (rest : List ℕ)
      → length s.waiting ≡ suc (length rest)
      → Stage phase s
      → Counts b s
      → Stage phase (loop_ends (record s { waiting = rest }))
        × Counts b (loop_ends (record s { waiting = rest }))
        × (weight b (loop_ends (record s { waiting = rest })) + 1 ≤ weight b s)
  unfolding loop_ends
  waiting-ends receiving rest one stage counts = absurd stage
  waiting-ends draining rest one (none_stopped, waits, nobody) (counted, missing) = (
    (none_stopped, waits, decr-nobody s.receiver_counter nobody),
    (omega (arith, one, counted, decr-val s.receiver_counter), missing),
    omega (arith, one, counted, decr-val s.receiver_counter, quiet),
  )
    where
      quiet : length (decr s.receiver_counter).timer.woken ≡ 0
      quiet = nobody_le (decr s.receiver_counter) (decr-nobody s.receiver_counter nobody)
  waiting-ends stopping rest one stage counts = absurd (omega (arith, one, stage.0))
  waiting-ends (returned true) rest one stage counts = absurd (omega (arith, one, stage.1))
  waiting-ends (returned false) rest one stage counts = absurd stage

  -- The loop of a node ends because its result could not be sent.
  pub sending-ends :
      (phase : Phase) (rest : List ℕ)
      → length s.sending ≡ suc (length rest)
      → Stage phase s
      → Counts b s
      → Stage phase (loop_ends (record s { sending = rest }))
        × Counts b (loop_ends (record s { sending = rest }))
        × (weight b (loop_ends (record s { sending = rest })) + 1 ≤ weight b s)
  unfolding loop_ends
  sending-ends receiving rest one stage counts = absurd stage
  sending-ends draining rest one (none_stopped, waits, nobody) (counted, missing) = (
    (none_stopped, waits, decr-nobody s.receiver_counter nobody),
    (omega (arith, one, counted, decr-val s.receiver_counter), omega (arith, one, missing)),
    omega (arith, one, counted, decr-val s.receiver_counter, quiet),
  )
    where
      quiet : length (decr s.receiver_counter).timer.woken ≡ 0
      quiet = nobody_le (decr s.receiver_counter) (decr-nobody s.receiver_counter nobody)
  sending-ends stopping rest one stage (counted, missing) =
      absurd (omega (arith, one, stage.1, missing))
  sending-ends (returned true) rest one stage counts = absurd (omega (arith, one, stage.1))
  sending-ends (returned false) rest one stage counts = absurd stage

  -- A loop that was stopped ends.
  pub canceled-ends :
      (phase : Phase) (rest : List ℕ)
      → length s.canceled ≡ suc (length rest)
      → Stage phase s
      → Counts b s
      → Stage phase (loop_ends (record s { canceled = rest }))
        × Counts b (loop_ends (record s { canceled = rest }))
        × (weight b (loop_ends (record s { canceled = rest })) + 1 ≤ weight b s)
  unfolding loop_ends
  canceled-ends receiving rest one stage counts = absurd stage
  canceled-ends draining rest one stage counts = absurd (omega (arith, one, stage.0))
  canceled-ends stopping rest one (none_waits, none_missing, waits) (counted, missing) = (
    (none_waits, none_missing, decr-Waits s.receiver_counter waits),
    (omega (arith, one, counted, decr-val s.receiver_counter), missing),
    omega (arith, one, counted, decr-val s.receiver_counter, awake),
  )
    where
      awake : length (decr s.receiver_counter).timer.woken ≤ 1
      awake = woken_le (decr s.receiver_counter) (decr-Waits s.receiver_counter waits)
  canceled-ends (returned true) rest one stage counts = absurd (omega (arith, one, stage.1))
  canceled-ends (returned false) rest one stage counts = absurd stage

abbrev pub answered : ℕ → List ℕ → Running → Running
answered node rest s = record s {
  sending = rest;
  waiting = node ∷ s.waiting;
  data_counter = decr s.data_counter;
}

-- A result was sent.
pub result-sent :
    (b : ℕ) (s : Running) (phase : Phase) (node : ℕ) (rest : List ℕ)
    → length s.sending ≡ suc (length rest)
    → Stage phase s
    → Counts b s
    → Stage phase (answered node rest s)
      × Counts b (answered node rest s)
      × ((answered node rest s).data_counter.val + 1 ≡ s.data_counter.val)
      × (weight b (answered node rest s) + 1 ≤ weight b s)
result-sent b s receiving node rest one stage counts = absurd stage
result-sent b s draining node rest one (none_stopped, waits, nobody) (counted, missing) = (
  (none_stopped, decr-Waits s.data_counter waits, nobody),
  (omega (arith, one, counted), omega (arith, one, missing, decr-val s.data_counter)),
  omega (arith, one, missing, decr-val s.data_counter),
  omega (arith, one, awake),
)
  where
    awake : length (decr s.data_counter).timer.woken ≤ 1
    awake = woken_le (decr s.data_counter) (decr-Waits s.data_counter waits)
result-sent b s stopping node rest one stage (counted, missing) =
    absurd (omega (arith, one, stage.1, missing))
result-sent b s (returned true) node rest one stage counts = absurd (omega (arith, one, stage.1))
result-sent b s (returned false) node rest one stage counts = absurd stage
