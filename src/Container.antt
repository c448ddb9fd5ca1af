-- ===== src/Container.antt =====
-- server/Queue.hpp and server/Stack.hpp: a container whose `async_pop` lets a coroutine wait for an
-- item on a timer. The two classes differ in where an item goes in only.
use distributed_computing_fr.Prelude.{
  ℕ, zero, suc, ◌+◌, ◌≤◌, ◌<◌, ◌≡◌, Bool, true, false, Option, none, some, List, [], ◌∷◌, ◌++◌,
}
pub mod Order
pub mod Wakeup
pub mod Bag
pub mod Tests

-- The items, the front or the top first; the coroutines that wait on the timer, in the order in
-- which they came; those whose wait was cancelled, and which have not run on yet.
pub record Container (T : Type 0) : Type 0 where
  pub items : List T
  pub waiting : List ℕ
  pub woken : List ℕ

-- What becomes of the coroutine that runs on after its wait. `front` of an empty `std::queue`,
-- and `top` of an empty `std::stack`, are undefined.
pub data Resumed (T : Type 0) : Type 0 where
  idle : Resumed T
  got : ℕ → T → Container T → Resumed T
  undefined : ℕ → Resumed T

module _ {T : Type 0} where
  -- `_queue.push` and `_stack.push`.
  abbrev pub enqueue : T → List T → List T
  enqueue x [] = x ∷ []
  enqueue x (y ∷ ys) = y ∷ enqueue x ys

  abbrev pub stack_push : T → List T → List T
  stack_push x xs = x ∷ xs

  abbrev pub fresh : Container T
  fresh = record { items = []; waiting = []; woken = [] }

  -- `_timer_pop.cancel_one`: the wait that began first ends.
  unfoldable pub cancel_one : Container T → Container T
  cancel_one q = elim q.waiting [
    | [] ↦ q
    | c ∷ cs ↦ record { items = q.items; waiting = cs; woken = q.woken ++ (c ∷ []) }
  ]

  unfoldable pub push : (T → List T → List T) → T → Container T → Container T
  push insert x q =
      cancel_one (record { items = insert x q.items; waiting = q.waiting; woken = q.woken })

  unfoldable pub pop : Container T → Option (T × Container T)
  pop q = elim q.items [
    | [] ↦ none
    | x ∷ xs ↦ some (x, record { items = xs; waiting = q.waiting; woken = q.woken })
  ]

  abbrev pub empty : Container T → Bool
  empty q = elim q.items [ [] ↦ true | x ∷ xs ↦ false ]

  -- `async_pop` up to its end or its wait: the item, if there is one at once.
  unfoldable pub async_pop : ℕ → Container T → Option T × Container T
  async_pop c q = elim (pop q) [
    | some (x, q') ↦ (some x, q')
    | none ↦ (none, record { items = q.items; waiting = q.waiting ++ (c ∷ []); woken = q.woken })
  ]

  -- `async_pop` after its wait: the coroutine that was woken first pops, and does not look.
  unfoldable pub resume : Container T → Resumed T
  resume q = elim q.woken [
    | [] ↦ idle
    | c ∷ cs ↦ elim (pop (record { items = q.items; waiting = q.waiting; woken = cs })) [
      | some (x, q') ↦ got c x q'
      | none ↦ undefined c
    ]
  ]

  -- The runs of a container: the items that were pushed, those that were popped, and what it is
  -- now. A coroutine may call `async_pop` only where the program allows it.
  pub data Run (insert : T → List T → List T) (Allows : Container T → Type 0)
      : List T → List T → Container T → Type 0 where
    start : Run insert Allows [] [] fresh
    pushed :
        {pushes pops : List T} {q : Container T} (x : T)
        → Run insert Allows pushes pops q
        → Run insert Allows (pushes ++ (x ∷ [])) pops (push insert x q)
    popped :
        {pushes pops : List T} {q q' : Container T} (c : ℕ) (x : T)
        → Run insert Allows pushes pops q
        → Allows q
        → async_pop c q ≡ (some x, q')
        → Run insert Allows pushes (pops ++ (x ∷ [])) q'
    waits :
        {pushes pops : List T} {q q' : Container T} (c : ℕ)
        → Run insert Allows pushes pops q
        → Allows q
        → async_pop c q ≡ (none, q')
        → Run insert Allows pushes pops q'
    resumed :
        {pushes pops : List T} {q q' : Container T} (c : ℕ) (x : T)
        → Run insert Allows pushes pops q
        → resume q ≡ got c x q'
        → Run insert Allows pushes (pops ++ (x ∷ [])) q'
