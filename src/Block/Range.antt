-- ===== src/Block/Range.antt =====
-- utils/src/Block.cpp, `Block::writeRange128`: it copies exactly the range.
use distributed_computing_fr.Prelude.{ℕ, ◌*◌, ◌≡◌, Option, List, ◌++◌, take, drop}
use distributed_computing_fr.Block.{write_address}

-- The destination after its first `k` words were written.
abbrev copied : ℕ → List ℕ → List ℕ → List ℕ
copied k words dest = take k words ++ drop k dest

-- The assignment of an element copies the four words of its place.
abbrev pub IsNative : (ℕ → List ℕ → List ℕ → Option (List ℕ)) → Type 0
IsNative assign128 =
    (i : ℕ) (words dest : List ℕ) → assign128 i words dest ≡ write_address 4 (4 * i) words dest
