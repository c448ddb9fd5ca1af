-- ===== src/Container/Tests.antt =====
-- server/Queue.hpp and server/Stack.hpp on concrete runs.
use distributed_computing_fr.Prelude.{ℕ, ◌≡◌, ◌≢◌, refl, [], ◌∷◌, ◌++◌}
use distributed_computing_fr.Container.{
  Container, undefined, enqueue, fresh, cancel_one, push, pop, async_pop, resume, Run, start,
  pushed, waits, resumed,
}
use distributed_computing_fr.Container.Order.{enqueue-IsFifo}
use distributed_computing_fr.Container.Bag.{bag, put_all, contents, enqueue-Keeps, Run-IsBag}
use distributed_computing_fr.Container.Wakeup.{
  IsAwake, IsFree, enqueue-Grows, Run-IsAwake, Run-resume_defined,
}

-- A coroutine waits, the item 7 is pushed and then 8; it is woken and takes 7.
abbrev woken_queue : Container ℕ
woken_queue = push enqueue 8 (push enqueue 7 (async_pop 1 fresh).1)

abbrev served_queue : Container ℕ
served_queue = record { items = 8 ∷ []; waiting = []; woken = [] }

woken_Run : Run enqueue IsFree (7 ∷ 8 ∷ []) [] woken_queue
unfolding async_pop pop
woken_Run = pushed 8 (pushed 7 (waits 1 start (refl, refl) refl))

served_Run : Run enqueue IsFree (7 ∷ 8 ∷ []) (7 ∷ []) served_queue
unfolding async_pop pop push cancel_one resume
served_Run = resumed 1 7 woken_Run refl

enqueue-IsFifo_example : (7 ∷ []) ++ served_queue.items ≡ 7 ∷ 8 ∷ []
enqueue-IsFifo_example = enqueue-IsFifo IsFree (7 ∷ 8 ∷ []) (7 ∷ []) served_queue served_Run

Run-IsAwake_example : IsAwake woken_queue
Run-IsAwake_example = Run-IsAwake enqueue IsFree (7 ∷ 8 ∷ []) [] woken_queue enqueue-Grows woken_Run

Run-resume_defined_example : resume woken_queue ≢ undefined 1
Run-resume_defined_example =
    Run-resume_defined enqueue (7 ∷ 8 ∷ []) [] woken_queue 1 enqueue-Grows woken_Run

Run-IsBag_example : put_all (7 ∷ []) (contents served_queue) ≡ put_all (7 ∷ 8 ∷ []) (bag [])
Run-IsBag_example =
    Run-IsBag enqueue IsFree (7 ∷ 8 ∷ []) (7 ∷ []) served_queue enqueue-Keeps served_Run
