-- ===== src/User/MainLoop/Waiting.antt =====
-- server/User_Queue.hpp, `_main_loop`: the main loop in the wait for a counter, and what holds in a change.
use distributed_computing_fr.Prelude.{
  ℕ, ◌+◌, ◌*◌, ◌≤◌, ◌<◌, ◌≡◌, ◌⊎◌, ◌==◌, refl, ap, ◌∙◌, Bool, true, false, none, some, Bool-cases,
  inl, inr, [], ◌∷◌, length, arith,
}
use distributed_computing_fr.Counter.{
  Timer, Counter, decr, notify_all, async_wait, async_wait_zero, wake,
}
use distributed_computing_fr.User.MainLoop.{
  Phase, receiving, draining, stopping, returned, Running, main_coroutine,
}

-- The main coroutine is the only one of a timer: it waits there, or is woken.
abbrev pub waits_there : Timer
waits_there = record { waiting = main_coroutine ∷ []; woken = [] }

abbrev pub woken_there : Timer
woken_there = record { waiting = []; woken = main_coroutine ∷ [] }

abbrev pub nobody_there : Timer
nobody_there = record { waiting = []; woken = [] }

-- The main loop is in the wait for a counter, and is woken unless the counter is positive.
abbrev pub Waits : Counter → Type 0
Waits k = ((k.timer ≡ waits_there) × (0 < k.val)) ⊎ (k.timer ≡ woken_there)

-- What holds in the phases of a change: while the main loop waits for the data no loop is stopped; while
-- it waits for the receiver loops no result is missing and no loop waits for one; after that there is no
-- loop and none is counted.
abbrev pub Stage : Phase → Running → Type 0
Stage receiving s = ⊥
Stage draining s =
    (length s.canceled ≡ 0) × Waits s.data_counter × (s.receiver_counter.timer ≡ nobody_there)
Stage stopping s = (length s.waiting ≡ 0) × (s.data_counter.val ≡ 0) × Waits s.receiver_counter
Stage (returned true) s =
    (s.data_counter.val ≡ 0) × (length s.waiting + length s.sending + length s.canceled ≡ 0)
Stage (returned false) s = ⊥

-- The receiver counter counts the loops, and `b` results more than those that are being sent are missing.
abbrev pub Counts : ℕ → Running → Type 0
Counts b s =
    (s.receiver_counter.val ≡ length s.waiting + length s.sending + length s.canceled)
    × (length s.sending + b ≤ s.data_counter.val)

-- How many events there can still be, when `b` results can still come.
abbrev pub weight : ℕ → Running → ℕ
weight b s =
    3 * b
    + 2 * length s.sending
    + 2 * s.receiver_counter.val
    + length s.data_counter.timer.woken
    + length s.receiver_counter.timer.woken

abbrev pub Changes : ℕ → Running → Type 0
Changes b s = Stage s.phase s × Counts b s

decr-timer :
    (k : Counter)
    → ((k.val ≡ 0) × ((decr k).timer ≡ k.timer))
      ⊎ ((0 < k.val) × ((decr k).timer ≡ notify_all k.timer))
unfolding decr
decr-timer k = elim (Bool-cases (k.val == 0)) [
  | inl zeroed ↦ inl (ground (arith, zeroed), rw zeroed refl)
  | inr positive ↦ inr (ground (arith, positive), rw positive refl)
]

notify_all-woken :
    (notify_all waits_there ≡ woken_there)
    × (notify_all woken_there ≡ woken_there)
    × (notify_all nobody_there ≡ nobody_there)
unfolding notify_all
notify_all-woken = (refl, refl, refl)

-- A decrement wakes the main loop where it waits.
pub decr-Waits : (k : Counter) → Waits k → Waits (decr k)
decr-Waits k (inl (waits, positive)) = elim (decr-timer k) [
  | inl (zeroed, _) ↦ absurd (omega (arith, positive, zeroed))
  | inr (_, woken) ↦ inr (woken ∙ ap notify_all waits ∙ notify_all-woken.0)
]
decr-Waits k (inr is_woken) = elim (decr-timer k) [
  | inl (_, same) ↦ inr (same ∙ is_woken)
  | inr (_, woken) ↦ inr (woken ∙ ap notify_all is_woken ∙ notify_all-woken.1)
]

pub woken_le : (k : Counter) → Waits k → length k.timer.woken ≤ 1
woken_le k (inl (waits, _)) = rw waits (omega arith)
woken_le k (inr woken) = rw woken (omega arith)

pub nobody_le : (k : Counter) → k.timer ≡ nobody_there → length k.timer.woken ≡ 0
nobody_le k nobody = rw nobody refl

pub waits_le : (k : Counter) → k.timer ≡ waits_there → length k.timer.woken ≡ 0
waits_le k waits = rw waits refl

pub woken_one : (k : Counter) → k.timer ≡ woken_there → length k.timer.woken ≡ 1
woken_one k woken = rw woken refl

pub decr-nobody : (k : Counter) → k.timer ≡ nobody_there → (decr k).timer ≡ nobody_there
decr-nobody k nobody = elim (decr-timer k) [
  | inl (_, same) ↦ same ∙ nobody
  | inr (_, woken) ↦ woken ∙ ap notify_all nobody ∙ notify_all-woken.2
]

-- What a round of the wait gives the main loop.
abbrev pub Rounds : Counter → Bool → Counter → Type 0
Rounds k done k' =
    (k'.val ≡ k.val)
    × (((done ≡ true) × (k.val ≡ 0) × (k'.timer ≡ nobody_there))
        ⊎ ((done ≡ false) × (0 < k.val) × (k'.timer ≡ waits_there)))

pub async_wait_zero-Rounds :
    (k : Counter)
    → k.timer ≡ nobody_there
    → Rounds k (async_wait_zero main_coroutine k).0 (async_wait_zero main_coroutine k).1
unfolding async_wait_zero async_wait
async_wait_zero-Rounds k nobody = elim (Bool-cases (k.val == 0)) [
  | inl zeroed ↦ rw zeroed (refl, inl (refl, ground (arith, zeroed), nobody))
  | inr positive ↦ rw (positive, nobody) (refl, inr (refl, ground (arith, positive), refl))
]

-- The main loop runs on exactly if it is woken, and looks at the counter again.
pub wake-Rounds :
    (k : Counter)
    → k.timer ≡ woken_there
    → (done : Bool) × (k' : Counter) × (wake k ≡ some (main_coroutine, done, k')) × Rounds k done k'
unfolding wake
wake-Rounds k woken =
    let alone : Counter = record { val = k.val; timer = nobody_there } in
    (
      (async_wait_zero main_coroutine alone).0,
      (async_wait_zero main_coroutine alone).1,
      rw woken refl,
      async_wait_zero-Rounds alone refl,
    )

pub wake-waits : (k : Counter) → k.timer ≡ waits_there → wake k ≡ none
unfolding wake
wake-waits k waits = rw waits refl
