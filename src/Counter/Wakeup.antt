-- ===== src/Counter/Wakeup.antt =====
-- server/Counter.hpp: nobody waits at zero, and everybody who waits returns when zero is reached.
use distributed_computing_fr.Prelude.{
  ℕ, ◌≡◌, refl, ap, ◌==◌, none, some, List, [], ◌∷◌, ◌++◌, length, arith, Bool-cases, ◌⊎◌, ◌<◌, inl,
  inr,
}
use distributed_computing_fr.Counter.{
  Timer, async_wait, notify_all, Counter, incr, decr, async_wait_zero, wake, wake_all, Op, incr_op,
  decr_op, wake_op, wait_op, woken_counter, step, steps,
}

-- No coroutine waits, or the counter is not zero.
abbrev pub IsTimely : Counter → Type 0
IsTimely k = (k.timer.waiting ≡ []) ⊎ (0 < k.val)

incr-IsTimely : (k : Counter) → IsTimely (incr k)
unfolding incr notify_all
incr-IsTimely k = inl refl

decr-IsTimely : (k : Counter) → IsTimely k → IsTimely (decr k)
unfolding decr notify_all
decr-IsTimely k h = elim (Bool-cases (k.val == 0)) [
  | inl zero_val ↦ rw zero_val h
  | inr more ↦ rw more (inl refl)
]

wait-IsTimely : (c : ℕ) (k : Counter) → IsTimely k → IsTimely (async_wait_zero c k).1
unfolding async_wait_zero async_wait
wait-IsTimely c k h = elim (Bool-cases (k.val == 0)) [
  | inl zero_val ↦ rw zero_val h
  | inr more ↦ rw more (inr (ground arith))
]

wake-IsTimely : (k : Counter) → IsTimely k → IsTimely (woken_counter k (wake k))
unfolding wake
wake-IsTimely k h = go k.timer.woken
  where
    go :
        (cs : List ℕ)
        → IsTimely (
            woken_counter k (elim cs [
              | [] ↦ none
              | c ∷ cs ↦
                  let rest : Timer = record { waiting = k.timer.waiting; woken = cs } in
                  let round = async_wait_zero c (record { val = k.val; timer = rest }) in
                  some (c, round.0, round.1)
            ]))
    go [] = h
    go (c ∷ cs) =
        wait-IsTimely c
          (record { val = k.val; timer = record { waiting = k.timer.waiting; woken = cs } }) h

step-IsTimely : (o : Op) (k : Counter) → IsTimely k → IsTimely (step o k)
unfolding step
step-IsTimely incr_op k h = incr-IsTimely k
step-IsTimely decr_op k h = decr-IsTimely k h
step-IsTimely wake_op k h = wake-IsTimely k h
step-IsTimely (wait_op c) k h = wait-IsTimely c k h

-- No wake-up of a counter is lost: whatever increments, decrements, waits and wake-ups follow in
-- whatever order, a coroutine never waits on a counter that has come to zero, wrap-around at 2^32
-- included, if none did at the start.
steps-IsTimely : (os : List Op) (k : Counter) → IsTimely k → IsTimely (steps os k)
steps-IsTimely [] k h = h
steps-IsTimely (o ∷ os) k h = steps-IsTimely os (step o k) (step-IsTimely o k h)

wake_all-zero :
    (cs : List ℕ) (k : Counter)
    → k.timer.woken ≡ cs
    → k.val ≡ 0
    → ((wake_all (length cs) k).0 ≡ cs)
      × ((wake_all (length cs) k).1.timer.waiting ≡ k.timer.waiting)
      × ((wake_all (length cs) k).1.timer.woken ≡ [])
unfolding wake_all wake async_wait_zero
wake_all-zero [] k e z = (refl, refl, e)
wake_all-zero (c ∷ cs) k e z =
    rw (e, z)
      (let (done, same, none_left) =
          wake_all-zero cs
            (record { val = 0; timer = record { waiting = k.timer.waiting; woken = cs } }) refl
            refl in
        (ap (λ l. c ∷ l) done, same, none_left))

-- When a counter comes to zero by a decrement, every coroutine that waits on it, or was woken and
-- has not run on, returns from `async_wait_zero` when it runs on next, in order, and none is left.
pub decr-Releases :
    (k : Counter)
    → k.val ≡ 1
    → let all = k.timer.woken ++ k.timer.waiting in
      let (done, k') = wake_all (length all) (decr k) in
      (done ≡ all) × (k'.timer.waiting ≡ []) × (k'.timer.woken ≡ [])
unfolding decr notify_all
decr-Releases k one =
    rw (one, decr) (wake_all-zero _ (record { val = 0; timer = notify_all k.timer }) refl refl)
