-- ===== src/Block/Stopping/Effect.antt =====
-- utils/src/Block.cpp, `Block::work`: when an assignment of `stopped` stops a block.
use distributed_computing_fr.Prelude.{
  ℕ, zero, suc, ◌+◌, ◌≡◌, ◌≢◌, refl, ap, ◌∙◌, List, [], ◌∷◌, arith, inl, inr, ◌⊎◌,
}
use distributed_computing_fr.Block.Stopping.{
  BlockState, busy, done, stopped, is_stopped, WorkerPlace, at_check, at_busy, at_work, Worker,
  worker_step, Turn, worker_runs, assigned, turn, run,
}

-- `n` rounds of the block's thread take three steps each.
abbrev pub worker_rounds : ℕ → List Turn
worker_rounds zero = []
worker_rounds (suc n) = worker_runs ∷ worker_runs ∷ worker_runs ∷ worker_rounds n

-- A block that is stopped at its check stays there.
run-stays :
    (n rounds : ℕ)
    → run (worker_rounds n) (record { state = stopped; place = at_check; rounds = rounds })
      ≡ record { state = stopped; place = at_check; rounds = rounds }
unfolding run turn worker_step is_stopped
run-stays zero rounds = refl
run-stays (suc n) rounds = run-stays n rounds

-- The state at a place of a block that no other thread assigns.
abbrev pub own_state : WorkerPlace → BlockState
own_state at_check = done
own_state at_busy = done
own_state at_work = busy

abbrev pub going : WorkerPlace → ℕ → Worker
going place rounds = record { state = own_state place; place = place; rounds = rounds }

-- A block that goes on ends one round in three steps.
run-goes :
    (n rounds : ℕ) (place : WorkerPlace)
    → run (worker_rounds n) (going place rounds) ≡ going place (rounds + n)
unfolding run turn worker_step is_stopped
run-goes zero rounds at_check = ap (going at_check) (omega arith)
run-goes zero rounds at_busy = ap (going at_busy) (omega arith)
run-goes zero rounds at_work = ap (going at_work) (omega arith)
run-goes (suc n) rounds at_check =
    run-goes n (rounds + 1) at_check ∙ ap (going at_check) (omega arith)
run-goes (suc n) rounds at_busy = run-goes n (rounds + 1) at_busy ∙ ap (going at_busy) (omega arith)
run-goes (suc n) rounds at_work = run-goes n (rounds + 1) at_work ∙ ap (going at_work) (omega arith)

lost_busy :
    (n rounds : ℕ)
    → run (worker_rounds (suc n)) (record { state = stopped; place = at_busy; rounds = rounds })
      ≡ going at_busy (rounds + suc n)
unfolding run turn worker_step is_stopped
lost_busy n rounds = run-goes n (rounds + 1) at_busy ∙ ap (going at_busy) (omega arith)

lost_work :
    (n rounds : ℕ)
    → run (worker_rounds (suc n)) (record { state = stopped; place = at_work; rounds = rounds })
      ≡ going at_work (rounds + suc n)
unfolding run turn worker_step is_stopped
lost_work n rounds = run-goes n (rounds + 1) at_work ∙ ap (going at_work) (omega arith)

-- The block after a stop, with so many rounds in the time for `suc n` rounds.
abbrev pub IsStopped : ℕ → WorkerPlace → Worker → Type 0
IsStopped n place w =
    ((place ≡ at_check) × (run (worker_rounds (suc n)) w ≡ w))
    ⊎ ((place ≢ at_check) × (run (worker_rounds (suc n)) w ≡ going place (w.rounds + suc n)))

check_is_busy : at_busy ≢ at_check
check_is_busy e = absurd (cc)

check_is_work : at_work ≢ at_check
check_is_work e = absurd (cc)

-- When another thread assigns `stopped`, then a block whose thread is at its check does not move any
-- more. In every other place of the thread the stop is lost: the block overwrites it, and has ended
-- `n + 1` more rounds after as many times three steps.
pub assigned-IsStopped : (n : ℕ) (w : Worker) → IsStopped n w.place (turn (assigned stopped) w)
unfolding turn
assigned-IsStopped n w = go w.place w.rounds
  where
    go :
        (place : WorkerPlace) (rounds : ℕ)
        → IsStopped n place (record { state = stopped; place = place; rounds = rounds })
    go at_check rounds = inl (refl, run-stays (suc n) rounds)
    go at_busy rounds = inr (check_is_busy, lost_busy n rounds)
    go at_work rounds = inr (check_is_work, lost_work n rounds)
