-- ===== src/SafeQ/Races.antt =====
-- utils/include/safeQ.hpp: what calls that do not take the mutex of the queue can do to it.
use distributed_computing_fr.Prelude.{◌≡◌, ◌≢◌, refl, List, [], ◌∷◌, arith}
use distributed_computing_fr.SafeQ.{
  Operation, push, pop, Result, done, item, State, undefined, lock, leave, access, go_on, proceed,
  step_from, call, move_out, advance, Usage, guarded, unguarded, moving, Run, start, calls, steps,
  moves,
}

-- Programs that never move a queue, and programs that call no `unsafe` operation.
abbrev pub IsUnmoved : Usage → Type 0
IsUnmoved usage = usage ≢ moving

abbrev pub IsLocked : Usage → Type 0
IsLocked usage = usage ≢ unguarded

guarded-IsUnmoved : IsUnmoved guarded
guarded-IsUnmoved e = ground arith

unguarded-IsUnmoved : IsUnmoved unguarded
unguarded-IsUnmoved e = ground arith

guarded-IsLocked : IsLocked guarded
guarded-IsLocked e = ground arith

moving-IsLocked : IsLocked moving
moving-IsLocked e = ground arith

module _ {T : Type 0} where
  -- Without the mutex the order is lost: there is a run in which two items are pushed under the mutex
  -- and two threads call `unsafePop`, after which both calls have given back the first item, none
  -- the second, and the queue is empty.
  unguarded-Doubles :
      (x y : T)
      → (s : State T) × Run IsUnmoved
          ((push x, done) ∷ (push y, done) ∷ (pop, item x) ∷ (pop, item x) ∷ [])
          s
        × (s.queue ≡ [])
  unfolding call lock leave access go_on proceed step_from
  unguarded-Doubles x y =
      let pushed_x =
        steps 0
          (steps 0 (steps 0 (calls guarded 0 (push x) start guarded-IsUnmoved refl) refl) refl)
          refl in
      let pushed_y =
        steps 0
          (steps 0 (steps 0 (calls guarded 0 (push y) pushed_x guarded-IsUnmoved refl) refl) refl)
          refl in
      let called =
        calls unguarded 2 pop (calls unguarded 1 pop pushed_y unguarded-IsUnmoved refl)
          unguarded-IsUnmoved refl in
      let copied = steps 2 (steps 2 (steps 1 (steps 1 called refl) refl) refl) refl in
      (_, steps 2 (steps 2 (steps 1 (steps 1 copied refl) refl) refl) refl, refl)

  -- The move constructor does not keep others out of the queue that it takes from: there is a run of
  -- a push, a pop and a move, none of them `unsafe`, after which the pop reads the `front` of an
  -- empty `std::queue`.
  moving-Breaks :
      (x : T)
      → (history : List (Operation T × Result T)) × (s : State T) × Run IsLocked history s
        × (advance 1 s ≡ undefined)
  unfolding call lock leave access go_on proceed step_from move_out
  moving-Breaks x =
      let pushed_x =
        steps 0 (steps 0 (steps 0 (calls guarded 0 (push x) start guarded-IsLocked refl) refl) refl)
          refl in
      let tested =
        steps 1 (steps 1 (calls guarded 1 pop pushed_x guarded-IsLocked refl) refl) refl in
      (_, _, moves tested moving-IsLocked, refl)
