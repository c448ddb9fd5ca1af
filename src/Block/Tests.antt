-- ===== src/Block/Tests.antt =====
-- utils/src/Block.cpp, `Block::writeRange128`, on a range of six words.
use distributed_computing_fr.Prelude.{ℕ, ◌*◌, Option, List, [], ◌∷◌}
use distributed_computing_fr.Block.{write_address}

abbrev words : List ℕ
words = 1 ∷ 2 ∷ 3 ∷ 4 ∷ 5 ∷ 6 ∷ []

abbrev port : List ℕ
port = 0 ∷ 0 ∷ 0 ∷ 0 ∷ 0 ∷ 0 ∷ 9 ∷ []

-- A `uint128_t` of sixteen bytes, without anything else in it.
abbrev assign_native : ℕ → List ℕ → List ℕ → Option (List ℕ)
assign_native i buffer dest = write_address 4 (4 * i) buffer dest
