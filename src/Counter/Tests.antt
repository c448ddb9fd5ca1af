-- ===== src/Counter/Tests.antt =====
-- server/Counter.hpp on concrete runs.
use distributed_computing_fr.Prelude.{◌≡◌, refl, List, [], ◌∷◌}
use distributed_computing_fr.Counter.{
  Counter, decr, wake_all, Op, incr_op, decr_op, wake_op, wait_op,
}
use distributed_computing_fr.Counter.Wakeup.{decr-Releases}

abbrev new_counter : Counter
new_counter = record { val = 0; timer = record { waiting = []; woken = [] } }

-- Two coroutines wait on a counter of one, a third was woken.
abbrev busy_counter : Counter
busy_counter = record { val = 1; timer = record { waiting = 4 ∷ 5 ∷ []; woken = 3 ∷ [] } }

abbrev ops : List Op
ops = incr_op ∷ wait_op 1 ∷ incr_op ∷ wake_op ∷ decr_op ∷ wake_op ∷ decr_op ∷ wake_op ∷ []

decr-Releases_example :
    let (done, k') = wake_all 3 (decr busy_counter) in
    (done ≡ 3 ∷ 4 ∷ 5 ∷ []) × (k'.timer.waiting ≡ []) × (k'.timer.woken ≡ [])
decr-Releases_example = decr-Releases busy_counter refl
