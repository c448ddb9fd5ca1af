-- ===== src/SafeQ/Tests.antt =====
-- utils/include/safeQ.hpp on concrete runs: a push of 7, then two threads that want to pop.
use distributed_computing_fr.Prelude.{ℕ, ◌≡◌, ◌≢◌, ◌⊎◌, arith, refl, true, none, List, [], ◌∷◌}
use distributed_computing_fr.SafeQ.{
  Operation, push, pop, Result, done, State, outside, Step, moved, initial, call, lock, leave,
  access, go_on, proceed, step_from, advance, Run, guarded, start, calls, steps,
}
use distributed_computing_fr.SafeQ.Sequence.{Sequential}
use distributed_computing_fr.SafeQ.Linear.{IsGuarded, Run-Refines}
use distributed_computing_fr.SafeQ.Progress.{CanMove, WaitsFor, Run-Progresses}

abbrev after : {T : Type 0} → Step T → State T → State T
after (moved ended s) before = s
after step before = before

abbrev step : ℕ → State ℕ → State ℕ
step t s = after (advance t s) s

abbrev pushed_history : List (Operation ℕ × Result ℕ)
pushed_history = (push 7, done) ∷ []

abbrev pushed : State ℕ
pushed = step 0 (step 0 (step 0 (call true 0 (push 7) initial)))

-- Thread 1 holds the mutex before its first access, and thread 2 waits.
abbrev contended : State ℕ
contended = step 1 (call true 2 pop (call true 1 pop pushed))

pushed_Run : Run IsGuarded pushed_history pushed
unfolding call lock leave access go_on proceed step_from
pushed_Run = steps 0 (steps 0 (steps 0 (calls guarded 0 (push 7) start refl refl) refl) refl) refl

contended_Run : Run IsGuarded pushed_history contended
unfolding call lock leave access go_on proceed step_from
contended_Run =
    steps 1 (calls guarded 2 pop (calls guarded 1 pop pushed_Run refl refl) refl refl) refl

Run-Refines_example :
    (q : List ℕ) × Sequential pushed_history q × (pushed.owner ≡ none → pushed.queue ≡ q)
Run-Refines_example = Run-Refines pushed_history pushed pushed_Run

thread_2_busy : contended.place 2 ≢ outside
unfolding call lock leave access go_on proceed step_from
thread_2_busy e = ground arith

Run-Progresses_example : CanMove (advance 2 contended) ⊎ WaitsFor 2 contended
Run-Progresses_example = Run-Progresses pushed_history contended 2 contended_Run thread_2_busy
