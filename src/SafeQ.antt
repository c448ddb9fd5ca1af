-- ===== src/SafeQ.antt =====
-- utils/include/safeQ.hpp: a queue between threads, behind a mutex. A thread takes one step at a time
-- - the lock, or one access to the `std::queue` - and the steps of the threads mix in any order.
use distributed_computing_fr.Prelude.{
  ℕ, ◌≡◌, ◌==◌, if◌then◌else◌, Bool, true, false, Option, none, some, List, [], ◌∷◌, ◌++◌, length,
}
use distributed_computing_fr.Container.{enqueue}
pub mod Sequence
pub mod Invariant
pub mod Linear
pub mod Progress
pub mod Fifo
pub mod Races
pub mod Tests

module _ (T : Type 0) where
  pub data Operation : Type 0 where
    push : T → Operation
    pop : Operation
    size : Operation

  pub data Result : Type 0 where
    done : Result
    nothing : Result
    item : T → Result
    number : ℕ → Result

  -- Before which access a thread is, inside an operation.
  pub data Point : Type 0 where
    pushing : T → Point
    testing : Point
    copying : Point
    removing : T → Point
    measuring : Point
    leaving : Operation → Result → Point

  -- Where a thread is: `inside` tells whether it holds a `lock_guard`.
  pub data Place : Type 0 where
    outside : Place
    locking : Operation → Place
    inside : Bool → Point → Place

  pub record State : Type 0 where
    pub queue : List T
    pub owner : Option ℕ
    pub place : ℕ → Place

  -- A step of a thread: the calls that it ends, and the new state. `front` and `pop` of an empty
  -- `std::queue` are undefined.
  pub data Step : Type 0 where
    nowhere : Step
    blocked : Step
    undefined : Step
    moved : List (Operation × Result) → State → Step

module _ {T : Type 0} where
  abbrev pub initial : State T
  initial = record { queue = []; owner = none; place = λ t. outside }

  abbrev pub put : ℕ → Place T → (ℕ → Place T) → ℕ → Place T
  put t p places u = if u == t then p else places u

  -- The first access of an operation.
  abbrev pub entry : Operation T → Point T
  entry (push x) = pushing x
  entry pop = testing
  entry size = measuring

  -- A thread that calls `push`, `pop` or `size`, or, without the guard, `unsafePush` or `unsafePop`.
  unfoldable pub call : Bool → ℕ → Operation T → State T → State T
  call guarded t operation s = record {
    queue = s.queue;
    owner = s.owner;
    place = put t (if guarded then locking operation else inside false (entry operation)) s.place;
  }

  -- The lock, if nobody has it.
  unfoldable pub lock : ℕ → Operation T → State T → Step T
  lock t operation s = elim s.owner [
    | none ↦ moved [] (record {
      queue = s.queue;
      owner = some t;
      place = put t (inside true (entry operation)) s.place;
    })
    | some o ↦ blocked
  ]

  -- The end of an operation, with the destructor of the `lock_guard`.
  unfoldable pub leave : Bool → ℕ → Operation T → Result T → State T → Step T
  leave guarded t operation result s = moved ((operation, result) ∷ []) (record {
    queue = s.queue;
    owner = if guarded then none else s.owner;
    place = put t outside s.place;
  })

  -- An access to the queue, and the point after it.
  unfoldable pub access : Point T → List T → Option (Point T × List T)
  access (pushing x) q = some (leaving (push x) done, enqueue x q)
  access testing [] = some (leaving pop nothing, [])
  access testing (x ∷ q) = some (copying, x ∷ q)
  access copying [] = none
  access copying (x ∷ q) = some (removing x, x ∷ q)
  access (removing x) [] = none
  access (removing x) (y ∷ q) = some (leaving pop (item x), q)
  access measuring q = some (leaving size (number (length q)), q)
  access (leaving operation result) q = none

  -- The thread goes on to the next point, if the access is defined.
  unfoldable pub go_on : Bool → ℕ → State T → Option (Point T × List T) → Step T
  go_on guarded t s none = undefined
  go_on guarded t s (some (point, q)) =
      moved [] (record { queue = q; owner = s.owner; place = put t (inside guarded point) s.place })

  unfoldable pub proceed : Bool → ℕ → Point T → State T → Step T
  proceed guarded t (leaving operation result) s = leave guarded t operation result s
  proceed guarded t point s = go_on guarded t s (access point s.queue)

  -- The step of a thread that is at this place.
  unfoldable pub step_from : Place T → ℕ → State T → Step T
  step_from outside t s = nowhere
  step_from (locking operation) t s = lock t operation s
  step_from (inside guarded point) t s = proceed guarded t point s

  abbrev pub advance : ℕ → State T → Step T
  advance t s = step_from (s.place t) t s

  -- `SafeQ(SafeQ&& other)`, of the other queue: it takes the items, under a mutex of its own.
  unfoldable pub move_out : State T → List T × State T
  move_out s = (s.queue, record { queue = []; owner = s.owner; place = s.place })

-- How the program uses a queue.
pub data Usage : Type 0 where
  guarded : Usage
  unguarded : Usage
  moving : Usage

abbrev pub is_guarded : Usage → Bool
is_guarded guarded = true
is_guarded unguarded = false
is_guarded moving = false

module _ {T : Type 0} where
  -- The runs, with the calls that have ended, in this order.
  pub data Run (Allows : Usage → Type 0) : List (Operation T × Result T) → State T → Type 0 where
    start : Run Allows [] initial
    calls :
        {history : List (Operation T × Result T)} {s : State T} (usage : Usage) (t : ℕ)
        (operation : Operation T)
        → Run Allows history s
        → Allows usage
        → s.place t ≡ outside
        → Run Allows history (call (is_guarded usage) t operation s)
    steps :
        {history ended : List (Operation T × Result T)} {s s' : State T} (t : ℕ)
        → Run Allows history s
        → advance t s ≡ moved ended s'
        → Run Allows (history ++ ended) s'
    moves :
        {history : List (Operation T × Result T)} {s : State T}
        → Run Allows history s
        → Allows moving
        → Run Allows history (move_out s).1
