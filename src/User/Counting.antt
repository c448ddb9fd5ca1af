-- ===== src/User/Counting.antt =====
-- Counting the inputs and the nodes of a session of server/User_Queue.hpp or server/User_Stack.hpp.
use distributed_computing_fr.Prelude.{
  count, one_if, ℕ, ◌+◌, ◌≡◌, ◌==◌, Bool, some, List, [], ◌∷◌, arith, Bool-cases, Option-cases, inl,
  inr,
}
use distributed_computing_fr.User.{Session, take_out}

module _ {I : Type 0} where
  abbrev pub keys : List (ℕ × I) → List ℕ
  keys [] = []
  keys ((k, i) ∷ xs) = k ∷ keys xs

  abbrev pub inputs : List (ℕ × I) → List I
  inputs [] = []
  inputs ((k, i) ∷ xs) = i ∷ inputs xs

  -- The inputs of a session that no node has taken yet, and the nodes that have not failed.
  abbrev pub open_inputs : (I → Bool) → Session I → ℕ
  open_inputs p s = count p (inputs s.awaiting) + count p (inputs s.sending)

  abbrev pub live_nodes : (ℕ → Bool) → Session I → ℕ
  live_nodes p s = count p s.nodes.items + count p (keys s.sending)

  pub take_out-count :
      (p : I → Bool) (q : ℕ → Bool) (k : ℕ) (xs ys : List (ℕ × I)) (i : I)
      → take_out k xs ≡ some (i, ys)
      → (count p (inputs xs) ≡ one_if (p i) + count p (inputs ys))
        × (count q (keys xs) ≡ one_if (q k) + count q (keys ys))
  unfolding take_out
  take_out-count p q k [] ys i e = absurd (cc)
  take_out-count p q k ((j, x) ∷ xs) ys i e = elim (Bool-cases (k == j)) [
    | inl same ↦ ground arith
    | inr other ↦ elim (Option-cases (take_out k xs)) [
      | inl none_there ↦ absurd (ground arith)
      | inr ((i', zs), there) ↦
          let (inputs_kept, keys_kept) = take_out-count p q k xs zs i' there in ground arith
    ]
  ]
