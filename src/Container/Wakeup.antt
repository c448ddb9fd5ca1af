-- ===== src/Container/Wakeup.antt =====
-- server/Queue.hpp and server/Stack.hpp: which coroutines wait, and what those find that were woken.
use distributed_computing_fr.Prelude.{
  ℕ, suc, ◌+◌, ◌≤◌, ◌<◌, ◌≡◌, ◌≢◌, refl, ap, ◌∙◌, List, [], ◌∷◌, length, length-append, arith, ◌⊎◌,
  inl, inr,
}
use distributed_computing_fr.Container.{
  Container, undefined, enqueue, stack_push, fresh, cancel_one, push, pop, async_pop, resume, Run,
  start, pushed, popped, waits, resumed,
}
use distributed_computing_fr.Container.Order.{push-items, popped-some, waits-none, resume-got}

module _ {T : Type 0} where
  -- A way in that makes the container longer by one item.
  abbrev pub Grows : (T → List T → List T) → Type 0
  Grows insert = (x : T) (xs : List T) → length (insert x xs) ≡ suc (length xs)

  pub enqueue-Grows : Grows enqueue
  enqueue-Grows x [] = refl
  enqueue-Grows x (y ∷ ys) = ap suc (enqueue-Grows x ys)

  pub stack_push-Grows : Grows stack_push
  stack_push-Grows x xs = refl

  push-waiting :
      (insert : T → List T → List T) (x : T) (q : Container T)
      → ((q.waiting ≡ []) × ((push insert x q).waiting ≡ []) × ((push insert x q).woken ≡ q.woken))
        ⊎ ((length q.waiting ≡ suc (length (push insert x q).waiting))
            × (length (push insert x q).woken ≡ suc (length q.woken)))
  unfolding push cancel_one
  push-waiting insert x q = grind (arith, length-append)

  -- Nobody waits, or every item has a coroutine that was woken for it.
  abbrev pub IsAwake : Container T → Type 0
  IsAwake q = (length q.waiting ≡ 0) ⊎ (length q.items ≤ length q.woken)

  -- No wake-up is lost, whichever coroutines call a container that each push makes longer by one: in
  -- every run, as long as a
  -- coroutine waits, each item that is in the container has a coroutine that was woken for it.
  pub Run-IsAwake :
      (insert : T → List T → List T) (Allows : Container T → Type 0) (pushes pops : List T)
      (q : Container T)
      → Grows insert
      → Run insert Allows pushes pops q
      → IsAwake q
  Run-IsAwake insert Allows pushes pops q grows start = inl refl
  Run-IsAwake insert Allows pushes pops q grows (pushed {pushes = ps} {q = q₀} x run) =
      elim (push-waiting insert x q₀) [
        | inl (none_before, none_after, same) ↦ inl (ap length none_after)
        | inr (waiting_less, woken_more) ↦ elim (Run-IsAwake insert Allows ps pops q₀ grows run) [
          | inl nobody ↦ absurd (omega (arith, waiting_less, nobody))
          | inr awake ↦ inr (
              omega
                (arith, awake, woken_more, ap length (push-items insert x q₀), grows x q₀.items))
        ]
      ]
  Run-IsAwake insert Allows pushes pops q grows (popped {pops = ds} {q = q₀} c x run ok e) =
      let (items, waiting, woken) = popped-some c x q₀ q e in
      elim (Run-IsAwake insert Allows pushes ds q₀ grows run) [
        | inl nobody ↦ inl (ap length waiting ∙ nobody)
        | inr awake ↦ inr (omega (arith, awake, ap length items, ap length woken))
      ]
  Run-IsAwake insert Allows pushes pops q grows (waits {q = q₀} c run ok e) =
      let (was, now, waited, kept) = waits-none c q₀ q e in inr (omega (arith, ap length now))
  Run-IsAwake insert Allows pushes pops q grows (resumed {pops = ds} {q = q₀} c x run e) =
      let (items, waiting, woken) = resume-got c x q₀ q e in
      elim (Run-IsAwake insert Allows pushes ds q₀ grows run) [
        | inl nobody ↦ inl (ap length waiting ∙ nobody)
        | inr awake ↦ inr (omega (arith, awake, ap length items, ap length woken))
      ]

  -- The discipline of a single consumer: it asks only when no coroutine waits or was woken.
  abbrev pub IsFree : Container T → Type 0
  IsFree q = (length q.waiting ≡ 0) × (length q.woken ≡ 0)

  abbrev IsSole : Container T → Type 0
  IsSole q = (length q.woken ≤ length q.items) × (length q.waiting + length q.woken ≤ 1)

  Run-IsSole :
      (insert : T → List T → List T) (pushes pops : List T) (q : Container T)
      → Grows insert
      → Run insert IsFree pushes pops q
      → IsSole q
  Run-IsSole insert pushes pops q grows start = (omega arith, omega arith)
  Run-IsSole insert pushes pops q grows (pushed {pushes = ps} {q = q₀} x run) =
      let (fits, sole) = Run-IsSole insert ps pops q₀ grows run in
      let longer = ap length (push-items insert x q₀) ∙ grows x q₀.items in
      elim (push-waiting insert x q₀) [
        | inl (none_before, none_after, same) ↦ (
          omega (arith, fits, longer, ap length same),
          omega (arith, sole, ap length none_after, ap length same),
        )
        | inr (waiting_less, woken_more) ↦
            (omega (arith, fits, longer, woken_more), omega (arith, sole, waiting_less, woken_more))
      ]
  Run-IsSole insert pushes pops q grows (popped {pops = ds} {q = q₀} c x run ok e) =
      let (items, waiting, woken) = popped-some c x q₀ q e in
      (
        omega (arith, ok.1, ap length woken),
        omega (arith, ok.0, ok.1, ap length waiting, ap length woken),
      )
  Run-IsSole insert pushes pops q grows (waits {q = q₀} c run ok e) =
      let (was, now, waited, kept) = waits-none c q₀ q e in
      (
        omega (arith, ok.1, ap length kept),
        omega (
          arith,
          ok.0,
          ok.1,
          ap length kept,
          ap length waited,
          length-append q₀.waiting (c ∷ []),
        ),
      )
  Run-IsSole insert pushes pops q grows (resumed {pops = ds} {q = q₀} c x run e) =
      let (items, waiting, woken) = resume-got c x q₀ q e in
      let (fits, sole) = Run-IsSole insert pushes ds q₀ grows run in
      (
        omega (arith, sole, ap length woken),
        omega (arith, sole, ap length waiting, ap length woken),
      )

  resume_undefined :
      (c : ℕ) (q : Container T) → resume q ≡ undefined c → (q.items ≡ []) × (0 < length q.woken)
  unfolding resume pop
  resume_undefined c q h = ground arith

  -- With a single consumer, which asks for an item only when no coroutine waits or was woken, the pop
  -- after a wait always finds one: in no run is the `front` of an empty container read.
  pub Run-resume_defined :
      (insert : T → List T → List T) (pushes pops : List T) (q : Container T) (c : ℕ)
      → Grows insert
      → Run insert IsFree pushes pops q
      → resume q ≢ undefined c
  Run-resume_defined insert pushes pops q c grows run bad =
      let (no_item, woken) = resume_undefined c q bad in
      let (fits, sole) = Run-IsSole insert pushes pops q grows run in
      omega (arith, fits, woken, ap length no_item)

  -- A run of a container that any coroutine may call, after which the pop of a woken coroutine reads
  -- the `front` or `top` of an empty container.
  abbrev pub Breaks : (T → List T → List T) → ℕ → Type 0
  Breaks insert c =
      (pushes pops : List T) × (q : Container T) × Run insert (λ p. Unit) pushes pops q
      × (resume q ≡ undefined c)

  -- With a second consumer the pop after a wait may find nothing, in a queue as in a stack: while a
  -- coroutine `c` waits, an item is pushed, and another coroutine takes it before `c` runs on.
  second_consumer-Breaks : (x : T) (c d : ℕ) → Breaks enqueue c × Breaks stack_push c
  unfolding resume async_pop push cancel_one pop
  second_consumer-Breaks x c d = (
    (
      (x ∷ []),
      (x ∷ []),
      (async_pop d (push enqueue x (async_pop c fresh).1)).1,
      popped d x (pushed x (waits c start tt refl)) tt refl,
      refl,
    ),
    (
      (x ∷ []),
      (x ∷ []),
      (async_pop d (push stack_push x (async_pop c fresh).1)).1,
      popped d x (pushed x (waits c start tt refl)) tt refl,
      refl,
    ),
  )
