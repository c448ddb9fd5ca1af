-- ===== src/Container/Bag.antt =====
-- server/Queue.hpp and server/Stack.hpp, the contract that the two share: a bag of items, in which the
-- order of the container is forgotten.
use mathlib.Core.Quot
use mathlib.Core.Quot.{Quot, Quot-set}
use distributed_computing_fr.Prelude.{
  count, one_if, ◌+◌, ◌≡◌, refl, sym, ap, ◌∙◌, Bool, List, [], ◌∷◌, ◌++◌, arith,
}
use distributed_computing_fr.Container.{
  Container, enqueue, stack_push, push, Run, start, pushed, popped, waits, resumed,
}
use distributed_computing_fr.Container.Order.{push-items, popped-some, waits-none, resume-got}

module _ {T : Type 0} where
  -- Two lists hold the same items, as often.
  abbrev pub SameItems : List T → List T → Type 0
  SameItems xs ys = (p : T → Bool) → count p xs ≡ count p ys

  SameItems-cons : (x : T) (xs ys : List T) → SameItems xs ys → SameItems (x ∷ xs) (x ∷ ys)
  SameItems-cons x xs ys h p = omega (arith, h p)

module _ (T : Type 0) where
  abbrev pub Bag : Type 0
  Bag = Quot (SameItems {T = T})

module _ {T : Type 0} where
  abbrev pub bag : List T → Bag T
  bag xs = Quot.mk xs

  -- The bag with one item more.
  pub put : T → Bag T → Bag T
  put x =
      Quot.lift Quot-set (λ xs. Quot.mk (x ∷ xs)) (λ xs ys h. Quot.sound (SameItems-cons x xs ys h))

  abbrev pub put_all : List T → Bag T → Bag T
  put_all [] b = b
  put_all (x ∷ xs) b = put x (put_all xs b)

  -- What a container is to its user.
  abbrev pub contents : Container T → Bag T
  contents q = bag q.items

  put_comm : (x y : T) (b : Bag T) → put x (put y b) ≡ put y (put x b)
  unfolding put
  put_comm x y = Quot.ind (λ b. Quot-set _ _) (λ xs. Quot.sound (λ p. omega arith))

  put_all-snoc :
      (x : T) (xs : List T) (b : Bag T) → put_all (xs ++ (x ∷ [])) b ≡ put x (put_all xs b)
  put_all-snoc x [] b = refl
  put_all-snoc x (y ∷ xs) b = ap (put y) (put_all-snoc x xs b) ∙ put_comm y x (put_all xs b)

  put_all-put : (x : T) (xs : List T) (b : Bag T) → put_all xs (put x b) ≡ put x (put_all xs b)
  put_all-put x [] b = refl
  put_all-put x (y ∷ xs) b = ap (put y) (put_all-put x xs b) ∙ put_comm y x (put_all xs b)

  -- A way into a container that keeps the item, wherever.
  abbrev pub Keeps : (T → List T → List T) → Type 0
  Keeps insert =
      (p : T → Bool) (x : T) (xs : List T) → count p (insert x xs) ≡ one_if (p x) + count p xs

  pub enqueue-Keeps : Keeps enqueue
  enqueue-Keeps p x [] = refl
  enqueue-Keeps p x (y ∷ ys) = omega (arith, enqueue-Keeps p x ys)

  pub stack_push-Keeps : Keeps stack_push
  stack_push-Keeps p x xs = refl

  contents-push :
      (insert : T → List T → List T) (x : T) (q : Container T)
      → Keeps insert
      → contents (push insert x q) ≡ put x (contents q)
  unfolding put
  contents-push insert x q keeps =
      ap bag (push-items insert x q) ∙ Quot.sound (λ p. keeps p x q.items)

  contents-cons :
      (x : T) (q q' : Container T) → q.items ≡ x ∷ q'.items → contents q ≡ put x (contents q')
  unfolding put
  contents-cons x q q' h = ap bag h

  handed_out :
      (ds : List T) (x : T) (q q' : Container T)
      → q.items ≡ x ∷ q'.items
      → put_all (ds ++ (x ∷ [])) (contents q') ≡ put_all ds (contents q)
  handed_out ds x q q' h =
      put_all-snoc x ds (contents q')
      ∙ sym (put_all-put x ds (contents q'))
      ∙ ap (put_all ds) (sym (contents-cons x q q' h))

  -- In every run of a container whose way in keeps the item that it is given, a queue or a stack,
  -- whichever coroutines call it: the bag of its items, with the items that were handed out put back,
  -- is the bag of the items that were pushed. So up to the order no item is lost or doubled.
  pub Run-IsBag :
      (insert : T → List T → List T) (Allows : Container T → Type 0) (pushes pops : List T)
      (q : Container T)
      → Keeps insert
      → Run insert Allows pushes pops q
      → put_all pops (contents q) ≡ put_all pushes (bag [])
  Run-IsBag insert Allows pushes pops q keeps start = refl
  Run-IsBag insert Allows pushes pops q keeps (pushed {pushes = ps} {q = q₀} x run) =
      ap (put_all pops) (contents-push insert x q₀ keeps)
      ∙ put_all-put x pops (contents q₀)
      ∙ ap (put x) (Run-IsBag insert Allows ps pops q₀ keeps run)
      ∙ sym (put_all-snoc x ps (bag []))
  Run-IsBag insert Allows pushes pops q keeps (popped {pops = ds} {q = q₀} c x run ok e) =
      handed_out ds x q₀ q (popped-some c x q₀ q e).0
      ∙ Run-IsBag insert Allows pushes ds q₀ keeps run
  Run-IsBag insert Allows pushes pops q keeps (waits {q = q₀} c run ok e) =
      let (was, now, waited, kept) = waits-none c q₀ q e in
      ap (λ l. put_all pops (bag l)) (now ∙ sym was)
      ∙ Run-IsBag insert Allows pushes pops q₀ keeps run
  Run-IsBag insert Allows pushes pops q keeps (resumed {pops = ds} {q = q₀} c x run e) =
      handed_out ds x q₀ q (resume-got c x q₀ q e).0
      ∙ Run-IsBag insert Allows pushes ds q₀ keeps run
