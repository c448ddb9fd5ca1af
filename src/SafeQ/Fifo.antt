-- ===== src/SafeQ/Fifo.antt =====
-- utils/include/safeQ.hpp: in which order the items of a queue between threads come out.
use mathlib.Core.List.{append_assoc, append-nil}
use distributed_computing_fr.Prelude.{◌≡◌, refl, sym, ap, ◌∙◌, none, List, [], ◌∷◌, ◌++◌}
use distributed_computing_fr.SafeQ.{
  Operation, push, pop, size, Result, done, nothing, item, number, State, Run,
}
use distributed_computing_fr.SafeQ.Sequence.{atomic, Sequential, nobody, next}
use distributed_computing_fr.SafeQ.Linear.{IsGuarded, Run-Refines}

module _ {T : Type 0} where
  abbrev taken_by : Operation T × Result T → List T
  taken_by (operation, item x) = x ∷ []
  taken_by (operation, done) = []
  taken_by (operation, nothing) = []
  taken_by (operation, number n) = []

  abbrev given_by : Operation T × Result T → List T
  given_by (push x, result) = x ∷ []
  given_by (pop, result) = []
  given_by (size, result) = []

  -- The items that calls gave back, and those that calls put in.
  abbrev pub taken : List (Operation T × Result T) → List T
  taken [] = []
  taken (c ∷ cs) = taken_by c ++ taken cs

  abbrev pub given : List (Operation T × Result T) → List T
  given [] = []
  given (c ∷ cs) = given_by c ++ given cs

  taken-snoc :
      (h : List (Operation T × Result T)) (c : Operation T × Result T)
      → taken (h ++ (c ∷ [])) ≡ taken h ++ taken_by c
  taken-snoc [] c = append-nil (taken_by c)
  taken-snoc (b ∷ h) c =
      ap (λ l. taken_by b ++ l) (taken-snoc h c)
      ∙ sym (append_assoc (taken_by b) (taken h) (taken_by c))

  given-snoc :
      (h : List (Operation T × Result T)) (c : Operation T × Result T)
      → given (h ++ (c ∷ [])) ≡ given h ++ given_by c
  given-snoc [] c = append-nil (given_by c)
  given-snoc (b ∷ h) c =
      ap (λ l. given_by b ++ l) (given-snoc h c)
      ∙ sym (append_assoc (given_by b) (given h) (given_by c))

  -- One operation keeps the items in order.
  atomic-IsFifo :
      (operation : Operation T) (q : List T)
      → taken_by (operation, (atomic operation q).0) ++ (atomic operation q).1
        ≡ q ++ given_by (operation, (atomic operation q).0)
  atomic-IsFifo (push x) q = refl
  atomic-IsFifo pop [] = refl
  atomic-IsFifo pop (x ∷ q) = sym (append-nil (x ∷ q))
  atomic-IsFifo size q = sym (append-nil q)

  Sequential-IsFifo :
      (h : List (Operation T × Result T)) (q : List T) → Sequential h q → taken h ++ q ≡ given h
  Sequential-IsFifo h q nobody = refl
  Sequential-IsFifo h q (next {history = before} {q = was} operation run) =
      let call : Operation T × Result T = (operation, (atomic operation was).0) in
      ap (λ l. l ++ (atomic operation was).1) (taken-snoc before call)
      ∙ append_assoc (taken before) (taken_by call) (atomic operation was).1
      ∙ ap (λ l. taken before ++ l) (atomic-IsFifo operation was)
      ∙ sym (append_assoc (taken before) was (given_by call))
      ∙ ap (λ l. l ++ given_by call) (Sequential-IsFifo before was run)
      ∙ sym (given-snoc before call)

  -- If all calls take the mutex, then whenever nobody holds it, the items that calls of `pop` have
  -- given back, followed by those in the queue, are those that calls of `push` have put in, in order.
  Run-IsFifo :
      (history : List (Operation T × Result T)) (s : State T)
      → Run IsGuarded history s
      → s.owner ≡ none
      → taken history ++ s.queue ≡ given history
  Run-IsFifo history s run nobody_has =
      let (q, before, free) = Run-Refines history s run in
      ap (λ l. taken history ++ l) (free nobody_has) ∙ Sequential-IsFifo history q before
