-- ===== src/Counter.antt =====
-- server/Counter.hpp and server/Event.hpp: a counter that coroutines wait for to drop to zero, and
-- an event. Their timers never expire, so that a wait ends by a `cancel` only.
use distributed_computing_fr.Prelude.{
  ℕ, zero, suc, ◌+◌, ◌-◌, ◌^◌, ◌%◌, ◌≤◌, ◌<◌, ◌≡◌, ◌==◌, if◌then◌else◌, Bool, true, false, Option,
  none, some, List, [], ◌∷◌, ◌++◌,
}
pub mod Wakeup
pub mod Tests

-- The coroutines that wait on a timer, in the order in which they came, and those whose wait ended
-- and which have not run on yet.
pub record Timer : Type 0 where
  pub waiting : List ℕ
  pub woken : List ℕ

-- `_timer.async_wait`, up to the wait.
unfoldable pub async_wait : ℕ → Timer → Timer
async_wait c t = record { waiting = t.waiting ++ (c ∷ []); woken = t.woken }

-- `notify_one`: `_timer.cancel_one`.
unfoldable pub notify_one : Timer → Timer
notify_one t = elim t.waiting [
  | [] ↦ t
  | c ∷ cs ↦ record { waiting = cs; woken = t.woken ++ (c ∷ []) }
]

-- `notify_all`: `_timer.cancel`.
unfoldable pub notify_all : Timer → Timer
notify_all t = record { waiting = []; woken = t.woken ++ t.waiting }

-- `_val` is an `uint`. No constructor of the source gives it a first value.
pub record Counter : Type 0 where
  pub val : ℕ
  pub timer : Timer

unfoldable pub incr : Counter → Counter
incr k = record { val = (k.val + 1) % 2 ^ 32; timer = notify_all k.timer }

unfoldable pub decr : Counter → Counter
decr k = if k.val == 0 then k else record { val = k.val - 1; timer = notify_all k.timer }

abbrev pub get_value : Counter → ℕ
get_value k = k.val

-- One round of `async_wait_zero`'s loop: whether it returns, and otherwise it waits.
unfoldable pub async_wait_zero : ℕ → Counter → Bool × Counter
async_wait_zero c k =
    if k.val == 0 then (true, k) else (false, record { val = k.val; timer = async_wait c k.timer })

-- The coroutine that was woken first runs on: `continue`.
unfoldable pub wake : Counter → Option (ℕ × Bool × Counter)
wake k = elim k.timer.woken [
  | [] ↦ none
  | c ∷ cs ↦
      let rest : Timer = record { waiting = k.timer.waiting; woken = cs } in
      let round = async_wait_zero c (record { val = k.val; timer = rest }) in
      some (c, round.0, round.1)
]

-- All that are woken run on, one after the other: those that return.
unfoldable pub wake_all : ℕ → Counter → List ℕ × Counter
wake_all zero k = ([], k)
wake_all (suc n) k = elim (wake k) [
  | none ↦ ([], k)
  | some (c, done, k') ↦ let rest = wake_all n k' in (if done then c ∷ rest.0 else rest.0, rest.1)
]

-- What the program does to a counter.
pub data Op : Type 0 where
  incr_op decr_op wake_op : Op
  wait_op : ℕ → Op

abbrev pub woken_counter : Counter → Option (ℕ × Bool × Counter) → Counter
woken_counter k none = k
woken_counter k (some (c, done, k')) = k'

unfoldable pub step : Op → Counter → Counter
step incr_op k = incr k
step decr_op k = decr k
step wake_op k = woken_counter k (wake k)
step (wait_op c) k = (async_wait_zero c k).1

abbrev pub steps : List Op → Counter → Counter
steps [] k = k
steps (o ∷ os) k = steps os (step o k)
