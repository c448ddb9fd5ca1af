-- ===== src/Container/Order.antt =====
-- server/Queue.hpp: items leave a queue in the order in which they came.
use distributed_computing_fr.Prelude.{
  ℕ, ◌≡◌, refl, sym, ap, ◌∙◌, none, some, List, [], ◌∷◌, ◌++◌, arith,
}
use distributed_computing_fr.Container.{
  Container, got, enqueue, cancel_one, push, pop, async_pop, resume, Run, start, pushed, popped,
  waits, resumed,
}

module _ {T : Type 0} where
  append_assoc : (xs ys zs : List T) → (xs ++ ys) ++ zs ≡ xs ++ (ys ++ zs)
  append_assoc [] ys zs = refl
  append_assoc (x ∷ xs) ys zs = ap (λ l. x ∷ l) (append_assoc xs ys zs)

  pub enqueue_lem : (x : T) (xs : List T) → enqueue x xs ≡ xs ++ (x ∷ [])
  enqueue_lem x [] = refl
  enqueue_lem x (y ∷ ys) = ap (λ l. y ∷ l) (enqueue_lem x ys)

  pub push-items :
      (insert : T → List T → List T) (x : T) (q : Container T)
      → (push insert x q).items ≡ insert x q.items
  unfolding push cancel_one
  push-items insert x q = ground arith

  -- What a pop takes: the first item, and nothing of the waiting coroutines.
  pub pop-some :
      (x : T) (q q' : Container T)
      → pop q ≡ some (x, q')
      → (q.items ≡ x ∷ q'.items) × (q'.waiting ≡ q.waiting) × (q'.woken ≡ q.woken)
  unfolding pop
  pop-some x q q' h = ground arith

  pub popped-some :
      (c : ℕ) (x : T) (q q' : Container T)
      → async_pop c q ≡ (some x, q')
      → (q.items ≡ x ∷ q'.items) × (q'.waiting ≡ q.waiting) × (q'.woken ≡ q.woken)
  unfolding async_pop pop
  popped-some c x q q' h = ground arith

  pub waits-none :
      (c : ℕ) (q q' : Container T)
      → async_pop c q ≡ (none, q')
      → (q.items ≡ [])
        × (q'.items ≡ [])
        × (q'.waiting ≡ q.waiting ++ (c ∷ []))
        × (q'.woken ≡ q.woken)
  unfolding async_pop pop
  waits-none c q q' h = ground arith

  pub resume-got :
      (c : ℕ) (x : T) (q q' : Container T)
      → resume q ≡ got c x q'
      → (q.items ≡ x ∷ q'.items) × (q'.waiting ≡ q.waiting) × (q.woken ≡ c ∷ q'.woken)
  unfolding resume pop
  resume-got c x q q' h = ground arith

  -- In every run of a queue, whichever coroutines call it and in whatever order they run on, the
  -- items that were popped, followed by those that are in it, are those that were pushed, in order.
  pub enqueue-IsFifo :
      (Allows : Container T → Type 0) (pushes pops : List T) (q : Container T)
      → Run enqueue Allows pushes pops q
      → pops ++ q.items ≡ pushes
  enqueue-IsFifo Allows pushes pops q start = refl
  enqueue-IsFifo Allows pushes pops q (pushed {pushes = ps} {q = q₀} x run) =
      ap (λ l. pops ++ l) (push-items enqueue x q₀ ∙ enqueue_lem x q₀.items)
      ∙ sym (append_assoc pops q₀.items (x ∷ []))
      ∙ ap (λ l. l ++ (x ∷ [])) (enqueue-IsFifo Allows ps pops q₀ run)
  enqueue-IsFifo Allows pushes pops q (popped {pops = ds} {q = q₀} c x run ok e) =
      append_assoc ds (x ∷ []) q.items
      ∙ ap (λ l. ds ++ l) (sym (popped-some c x q₀ q e).0)
      ∙ enqueue-IsFifo Allows pushes ds q₀ run
  enqueue-IsFifo Allows pushes pops q (waits {q = q₀} c run ok e) =
      let (was, now, waited, kept) = waits-none c q₀ q e in
      ap (λ l. pops ++ l) (now ∙ sym was) ∙ enqueue-IsFifo Allows pushes pops q₀ run
  enqueue-IsFifo Allows pushes pops q (resumed {pops = ds} {q = q₀} c x run e) =
      append_assoc ds (x ∷ []) q.items
      ∙ ap (λ l. ds ++ l) (sym (resume-got c x q₀ q e).0)
      ∙ enqueue-IsFifo Allows pushes ds q₀ run
