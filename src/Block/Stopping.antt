-- ===== src/Block/Stopping.antt =====
-- utils/src/Block.cpp, `Block::work`, and utils/include/Block.hpp: the field `state`, which the thread of
-- a block shares with the thread that stops it. A step of the block's thread is what it does up to its
-- next access of the field; what a round does with the queues stands in Block/Work.
use distributed_computing_fr.Prelude.{
  ℕ, zero, suc, ◌+◌, Bool, true, false, List, [], ◌∷◌, if◌then◌else◌,
}
pub mod Effect
pub mod Tests

-- `Block::State`.
pub data BlockState : Type 0 where
  busy done stopped ready : BlockState

unfoldable pub is_stopped : BlockState → Bool
is_stopped busy = false
is_stopped done = false
is_stopped stopped = true
is_stopped ready = false

-- Where the thread of the block is: before it reads the field in `while (state == stopped)`, before
-- `state = busy`, or in the round that ends with `state = done`.
pub data WorkerPlace : Type 0 where
  at_check at_busy at_work : WorkerPlace

pub record Worker : Type 0 where
  pub state : BlockState
  pub place : WorkerPlace
  -- The rounds that have ended.
  pub rounds : ℕ

-- The constructor sets the state, and then the thread starts.
abbrev pub new_worker : Worker
new_worker = record { state = ready; place = at_check; rounds = 0 }

-- A step of the block's thread.
unfoldable pub worker_step : WorkerPlace → Worker → Worker
worker_step at_check w = if is_stopped w.state then w else record w { place = at_busy }
worker_step at_busy w = record w { state = busy; place = at_work }
worker_step at_work w = record w { state = done; place = at_check; rounds = w.rounds + 1 }

-- The block's thread goes on, or another thread assigns the field.
pub data Turn : Type 0 where
  worker_runs : Turn
  assigned : BlockState → Turn

unfoldable pub turn : Turn → Worker → Worker
turn worker_runs w = worker_step w.place w
turn (assigned state) w = record w { state = state }

unfoldable pub run : List Turn → Worker → Worker
run [] w = w
run (t ∷ ts) w = run ts (turn t w)
