-- ===== src/SafeQ/Sequence.antt =====
-- utils/include/safeQ.hpp, the contract of `SafeQ`: a queue whose operations are indivisible.
use distributed_computing_fr.Prelude.{List, [], ◌∷◌, ◌++◌, length}
use distributed_computing_fr.SafeQ.{Operation, push, pop, size, Result, done, nothing, item, number}

module _ {T : Type 0} where
  -- What an operation gives, and what it leaves of the items.
  abbrev pub atomic : Operation T → List T → Result T × List T
  atomic (push x) q = (done, q ++ (x ∷ []))
  atomic pop [] = (nothing, [])
  atomic pop (x ∷ q) = (item x, q)
  atomic size q = (number (length q), q)

  -- One operation after the other, each with its result, from an empty queue on.
  pub data Sequential : List (Operation T × Result T) → List T → Type 0 where
    nobody : Sequential [] []
    next :
        {history : List (Operation T × Result T)} {q : List T} (operation : Operation T)
        → Sequential history q
        → Sequential (history ++ ((operation, (atomic operation q).0) ∷ [])) (atomic operation q).1
