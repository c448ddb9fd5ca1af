-- ===== src/Message/Text/Rows.antt =====
-- server/Message.hpp, `print_bytes`: which bytes it shows, and in which rows.

use distributed_computing_fr.Prelude.{
  ℕ, ◌+◌, ◌-◌, ◌*◌, ◌%◌, ◌^◌, ◌≤◌, ◌<◌, ◌≡◌, refl, ap, ◌∙◌, true, some, List, ◌++◌, length, take,
  drop, ltb, Bool-cases, inl, inr, ◌⊎◌, arith,
}
use distributed_computing_fr.Message.Text.{codes, newline, print_rows, print_bytes}
use distributed_computing_fr.Message.Text.Loops.{
  rows_text, join, AreRows, AreFull, print_rows-full, print_rows-IsLoop,
}

-- What `print_bytes` shows of the first `len` bytes: all of them, if they fit eight rows, and otherwise
-- the first four rows and, of a length that is below 2^31, the last four.
abbrev pub Shows : ℕ → List ℕ → List ℕ → ℕ → List ℕ → Type 0
Shows n pre mem len text =
    ((len ≤ 8 * n)
      × (rows : List (List ℕ)) × (text ≡ rows_text pre rows)
      × AreRows n rows
      × (join rows ≡ take len mem))
    ⊎ ((8 * n < len)
        × (first last : List (List ℕ)) × (text
            ≡ rows_text pre first ++ (pre ++ (codes "..." ++ (newline ++ rows_text pre last))))
        × AreFull n first
        × AreFull n last
        × ((length first ≡ 4) × (join first ≡ take (4 * n) mem))
        × (len < 2 ^ 31 → (length last ≡ 4) × (join last ≡ take (4 * n) (drop (len - 4 * n) mem))))

print_bytes-long :
    (mem : List ℕ) (len n : ℕ) (pre head tail : List ℕ)
    → ltb (8 * n) len ≡ true
    → (len - 4 * n) % 2 ^ 32 ≡ len - 4 * n
    → print_rows (len + 1) (λ i. n) n pre mem (4 * n) 0 ≡ some head
    → print_rows (len + 1) (λ i. n) n pre mem len (len - 4 * n) ≡ some tail
    → print_bytes mem len n pre ≡ some (head ++ (pre ++ (codes "..." ++ (newline ++ tail))))
unfolding print_bytes
print_bytes-long mem len n pre head tail long not_wrapped ran ran' =
    rw (long, not_wrapped, ran, ran') refl

-- `print_bytes` of `len` bytes returns and reads no others.
pub print_bytes-returns :
    (mem : List ℕ) (len bytes_per_line : ℕ) (pre : List ℕ)
    → len ≤ length mem
    → len < 2 ^ 32
    → 0 < bytes_per_line
    → bytes_per_line < 2 ^ 28
    → (text : List ℕ) × (print_bytes mem len bytes_per_line pre ≡ some text)
      × Shows bytes_per_line pre mem len text
unfolding print_bytes
print_bytes-returns mem len n pre inside small pos short_line =
    elim (Bool-cases (ltb (8 * n) len)) [
      | inl long ↦
          let longer : 8 * n < len = ground (arith, long) in
          let not_wrapped : (len - 4 * n) % 2 ^ 32 ≡ len - 4 * n = omega (arith, small) in
          let (first, ran, full, shown) =
            print_rows-full n pre mem 4 (len + 1) (4 * n) 0 (omega (arith, longer, pos))
              (omega arith) (omega (arith, longer, inside)) (omega (arith, short_line)) pos in
          let (last, ran', full', shown') =
            print_rows-full n pre mem 4 (len + 1) len (len - 4 * n) (omega (arith, longer, pos))
              (omega (arith, longer)) inside small pos in
          (
            rows_text pre first ++ (pre ++ (codes "..." ++ (newline ++ rows_text pre last))),
            print_bytes-long mem len n pre (rows_text pre first) (rows_text pre last) long
                not_wrapped ran ran',
            inr (longer, first, last, refl, full, full', shown (omega (arith, short_line)), shown'),
          )
      | inr short ↦
          let few : len ≤ 8 * n = ground (arith, short) in
          let (rows, ran, shaped, joined) =
            print_rows-IsLoop n pre mem (len + 1) len 0 (omega arith) inside
              (omega (arith, few, short_line)) short_line (omega arith) pos in
          let whole : len - 0 ≡ len = omega arith in
          (
            rows_text pre rows,
            rw short ran,
            inl (few, rows, refl, shaped, joined ∙ ap (λ (k : ℕ). take k mem) whole),
          )
    ]
