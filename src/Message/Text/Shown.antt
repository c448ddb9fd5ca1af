-- ===== src/Message/Text/Shown.antt =====
-- server/Message.hpp, `print_bytes` with `bytes_to_hex`: the bytes are read back from the text.
use distributed_computing_fr.Prelude.{
  ℕ, ◌-◌, ◌*◌, ◌≤◌, ◌<◌, ◌≡◌, List, [], ◌∷◌, ◌++◌, length, take, drop, ◌⊎◌,
}
use distributed_computing_fr.Message.Text.{codes, newline}
use distributed_computing_fr.Message.Text.Hex.{read_row}
use distributed_computing_fr.Message.Text.Loops.{join, AreRows, AreFull}

-- The lines of some texts, each after the prefix.
abbrev pub lines_text : List ℕ → List (List ℕ) → List ℕ
lines_text pre [] = []
lines_text pre (t ∷ ts) = pre ++ (t ++ (newline ++ lines_text pre ts))

-- Texts from which these rows of bytes are read back, one from each.
abbrev pub AreRead : List (List ℕ) → List (List ℕ) → Type 0
AreRead [] [] = Unit {0}
AreRead [] (r ∷ rs) = ⊥
AreRead (t ∷ ts) [] = ⊥
AreRead (t ∷ ts) (r ∷ rs) = (read_row t ≡ r) × AreRead ts rs

-- Lines from which these rows are read back.
abbrev pub SaysRows : List ℕ → List (List ℕ) → List ℕ → Type 0
SaysRows pre rows text = (ts : List (List ℕ)) × (text ≡ lines_text pre ts) × AreRead ts rows

-- What a text says of the first `len` bytes in memory, in lines of `n` bytes.
abbrev pub Says : ℕ → List ℕ → List ℕ → ℕ → List ℕ → Type 0
Says n pre mem len text =
    ((len ≤ 8 * n)
      × (rows : List (List ℕ)) × SaysRows pre rows text
      × AreRows n rows
      × (join rows ≡ take len mem))
    ⊎ ((8 * n < len)
        × (first last : List (List ℕ)) × (head tail : List ℕ) × (text
            ≡ head ++ (pre ++ (codes "..." ++ (newline ++ tail))))
        × (SaysRows pre first head × AreFull n first)
        × (SaysRows pre last tail × AreFull n last)
        × ((length first ≡ 4) × (join first ≡ take (4 * n) mem))
        × ((length last ≡ 4) × (join last ≡ take (4 * n) (drop (len - 4 * n) mem))))
