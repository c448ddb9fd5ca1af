-- ===== src/Message/Text/Loops.antt =====
-- server/Message.hpp, `print_bytes`: the rows that its loops show.
use mathlib.Core.List.{append-nil}
use distributed_computing_fr.Prelude.{
  ℕ, zero, suc, ◌+◌, ◌-◌, ◌*◌, ◌%◌, ◌^◌, ◌≤◌, ◌<◌, ◌≡◌, ◌≢◌, refl, sym, ap, subst, ◌∙◌, true, false,
  some, List, [], ◌∷◌, ◌++◌, length, length-take, length-drop, take, drop, take_add, drop-drop, ltb,
  load, Bool-cases, inl, inr, arith,
}
use distributed_computing_fr.Message.Text.{newline, bytes_to_hex, as_size, print_rows, last_count}

-- The text of rows of bytes.
abbrev pub rows_text : List ℕ → List (List ℕ) → List ℕ
rows_text pre [] = []
rows_text pre (r ∷ rs) = pre ++ (bytes_to_hex r ++ (newline ++ rows_text pre rs))

-- The bytes of rows, one row after the other.
abbrev pub join : List (List ℕ) → List ℕ
join [] = []
join (r ∷ rs) = r ++ join rs

-- No row is empty or longer than `n` bytes, and all but the last have `n` bytes.
abbrev pub AreRows : ℕ → List (List ℕ) → Type 0
AreRows n [] = Unit {0}
AreRows n (r ∷ rs) = (0 < length r) × (length r ≤ n) × (rs ≢ [] → length r ≡ n) × AreRows n rs

-- All rows have `n` bytes.
abbrev pub AreFull : ℕ → List (List ℕ) → Type 0
AreFull n [] = Unit {0}
AreFull n (r ∷ rs) = (length r ≡ n) × AreFull n rs

load-take :
    (i n : ℕ) (mem : List ℕ) → i + n ≤ length mem → load i n mem ≡ some (take n (drop i mem))
unfolding load
load-take i n mem h = ground arith

small_size : (i : ℕ) → i < 2 ^ 31 → as_size i ≡ i
unfolding as_size
small_size i h = ground (arith, h)

large_size : (i : ℕ) → 2 ^ 31 ≤ i → 2 ^ 63 ≤ as_size i
unfolding as_size
large_size i h = ground (arith, h)

-- An index that is not below a bound stays so as a size.
size_above : (i stop : ℕ) → stop ≤ i → stop < 2 ^ 32 → stop ≤ as_size i
size_above i stop h small = elim (Bool-cases (ltb i (2 ^ 31))) [
  | inl below ↦ omega (arith, h, small_size i (ground (arith, below)))
  | inr above ↦ omega (arith, small, large_size i (ground (arith, above)))
]

module _ (n : ℕ) (pre mem : List ℕ) where
  print_rows-done :
      (fuel : ℕ) (count : ℕ → ℕ) (stop i : ℕ)
      → stop ≤ as_size i
      → print_rows (suc fuel) count n pre mem stop i ≡ some []
  unfolding print_rows
  print_rows-done fuel count stop i h = rw over refl
    where
      over : ltb (as_size i) stop ≡ false
      over = ground (arith, h)

  print_rows-next :
      (fuel : ℕ) (count : ℕ → ℕ) (stop i : ℕ) (text : List ℕ)
      → i < stop
      → i < 2 ^ 31
      → i + n < 2 ^ 32
      → i + count i ≤ length mem
      → print_rows fuel count n pre mem stop (i + n) ≡ some text
      → print_rows (suc fuel) count n pre mem stop i
        ≡ some (pre ++ (bytes_to_hex (take (count i) (drop i mem)) ++ (newline ++ text)))
  unfolding print_rows
  print_rows-next fuel count stop i text h low fits inside e =
      rw (small_size i low, more, not_wrapped, load-take i (count i) mem inside, e) refl
    where
      more : ltb i stop ≡ true
      more = ground (arith, h)

      not_wrapped : (i + n) % 2 ^ 32 ≡ i + n
      not_wrapped = omega (arith, fits)

  -- A loop over `k` full rows. It shows all of them if the indices are no more than an `int` holds.
  pub print_rows-full :
      (k fuel stop i : ℕ)
      → k < fuel
      → stop ≡ i + k * n
      → stop ≤ length mem
      → stop < 2 ^ 32
      → 0 < n
      → (rows : List (List ℕ)) × (print_rows fuel (λ i. n) n pre mem stop i
          ≡ some (rows_text pre rows))
        × AreFull n rows
        × (stop < 2 ^ 31 → (length rows ≡ k) × (join rows ≡ take (k * n) (drop i mem)))
  print_rows-full k zero stop i h e inside small pos = absurd (omega arith)
  print_rows-full zero (suc fuel) stop i h e inside small pos = (
    [],
    print_rows-done fuel (λ i. n) stop i (size_above i stop (omega (arith, e)) small),
    tt,
    (λ _. (refl, none_taken)),
  )
    where
      none_taken : [] ≡ take (zero * n) (drop i mem)
      none_taken =
          let zeroed : 0 ≡ zero * n = omega arith in ap (λ (k : ℕ). take k (drop i mem)) zeroed
  print_rows-full (suc k) (suc fuel) stop i h e inside small pos =
      elim (Bool-cases (ltb i (2 ^ 31))) [
        | inr negative ↦
            let large = large_size i (ground (arith, negative)) in
            (
              [],
              print_rows-done fuel (λ i. n) stop i (omega (arith, large, small)),
              tt,
              (λ low. absurd (ground (arith, negative, low, e))),
            )
        | inl positive ↦
            let (rows, ran, full, shown) =
              print_rows-full k fuel stop (i + n) (omega (arith, h)) (omega (arith, e)) inside small
                pos in
            (
              take n (drop i mem) ∷ rows,
              print_rows-next fuel (λ i. n) stop i (rows_text pre rows) (omega (arith, e, pos))
                  (ground (arith, positive)) (omega (arith, e, small)) (omega (arith, e, inside))
                  ran,
              (omega (arith, e, inside, length-take n (drop i mem), length-drop i mem), full),
              (λ low. (
                ap suc (shown low).0,
                ap (λ (x : List ℕ). take n (drop i mem) ++ x)
                      ((shown low).1 ∙ ap (take (k * n)) (drop-drop i n mem))
                    ∙ sym (take_add n (k * n) (drop i mem))
                    ∙ ap (λ (j : ℕ). take j (drop i mem)) together,
              )),
            )
      ]
    where
      together : n + k * n ≡ suc k * n
      together = omega arith

  abbrev IsLoop : ℕ → ℕ → ℕ → Type 0
  IsLoop fuel stop i =
      (rows : List (List ℕ)) × (print_rows fuel (last_count n stop) n pre mem stop i
        ≡ some (rows_text pre rows))
      × AreRows n rows
      × (join rows ≡ take (stop - i) (drop i mem))

  last_row :
      (fuel stop i : ℕ)
      → i < stop
      → stop ≤ i + n
      → stop < 2 ^ 31
      → i + n < 2 ^ 32
      → stop ≤ length mem
      → last_count n stop i ≡ stop - i
      → IsLoop (suc (suc fuel)) stop i
  last_row fuel stop i h short low fits inside e = (
    take (stop - i) (drop i mem) ∷ [],
    subst
        (λ (c : ℕ).
          print_rows (suc (suc fuel)) (last_count n stop) n pre mem stop i
          ≡ some (pre ++ (bytes_to_hex (take c (drop i mem)) ++ (newline ++ []))))
        e
        (print_rows-next (suc fuel) (last_count n stop) stop i [] h (omega (arith, h, low)) fits
          (omega (arith, e, h, inside))
          (print_rows-done fuel (last_count n stop) stop (i + n)
            (size_above (i + n) stop short (omega (arith, low))))),
    (
      omega (arith, h, inside, length-take (stop - i) (drop i mem), length-drop i mem),
      omega (arith, short, length-take (stop - i) (drop i mem), length-drop i mem),
      (λ some_left. absurd (some_left refl)),
      tt,
    ),
    append-nil (take (stop - i) (drop i mem)),
  )

  more_rows :
      (fuel stop i : ℕ)
      → i + n < stop
      → stop < 2 ^ 31
      → stop ≤ length mem
      → 0 < n
      → last_count n stop i ≡ n
      → IsLoop fuel stop (i + n)
      → IsLoop (suc fuel) stop i
  more_rows fuel stop i h low inside pos e (rows, ran, shaped, joined) = (
    take n (drop i mem) ∷ rows,
    subst
        (λ (c : ℕ).
          print_rows (suc fuel) (last_count n stop) n pre mem stop i
          ≡ some (pre ++ (bytes_to_hex (take c (drop i mem)) ++ (newline ++ rows_text pre rows))))
        e
        (print_rows-next fuel (last_count n stop) stop i (rows_text pre rows) (omega (arith, h))
          (omega (arith, h, low)) (omega (arith, h, low)) (omega (arith, e, h, inside)) ran),
    (
      omega (arith, h, pos, inside, length-take n (drop i mem), length-drop i mem),
      omega (arith, length-take n (drop i mem), length-drop i mem),
      (λ _. omega (arith, h, inside, length-take n (drop i mem), length-drop i mem)),
      shaped,
    ),
    ap (λ (x : List ℕ). take n (drop i mem) ++ x)
          (joined ∙ ap (take (stop - (i + n))) (drop-drop i n mem))
        ∙ sym (take_add n (stop - (i + n)) (drop i mem))
        ∙ ap (λ (j : ℕ). take j (drop i mem)) together,
  )
    where
      together : n + (stop - (i + n)) ≡ stop - i
      together = omega (arith, h)

  no_row : (fuel stop i : ℕ) → stop ≤ i → stop < 2 ^ 31 → IsLoop (suc fuel) stop i
  no_row fuel stop i h low =
      let over : 0 ≡ stop - i = omega (arith, h) in
      (
        [],
        print_rows-done fuel (last_count n stop) stop i (size_above i stop h (omega (arith, low))),
        tt,
        ap (λ (k : ℕ). take k (drop i mem)) over,
      )

  pub print_rows-IsLoop :
      (fuel stop i : ℕ)
      → i ≤ stop
      → stop ≤ length mem
      → stop < 2 ^ 31
      → n < 2 ^ 28
      → stop < fuel + i
      → 0 < n
      → IsLoop fuel stop i
  print_rows-IsLoop zero stop i le inside low short_line h pos = absurd (omega arith)
  print_rows-IsLoop (suc zero) stop i le inside low short_line h pos =
      no_row zero stop i (omega (arith, h)) low
  print_rows-IsLoop (suc (suc fuel)) stop i le inside low short_line h pos =
      elim (Bool-cases (ltb i stop)) [
        | inr done ↦ no_row (suc fuel) stop i (ground (arith, done)) low
        | inl more ↦
            let before : i < stop = ground (arith, more) in
            let not_wrapped : (i + n) % 2 ^ 32 ≡ i + n = omega (arith, before, low, short_line) in
            elim (Bool-cases (ltb (i + n) stop)) [
              | inl long ↦
                  let longer : i + n < stop = ground (arith, long) in
                  more_rows (suc fuel) stop i longer low inside pos (rw (not_wrapped, long) refl) (
                    print_rows-IsLoop (suc fuel) stop (i + n) (omega (arith, longer)) inside low
                      short_line (omega (arith, h, pos)) pos)
              | inr short ↦
                  last_row fuel stop i before (ground (arith, short)) low
                    (omega (arith, before, low, short_line)) inside
                    (rw (not_wrapped, short, small_size i (omega (arith, before, low))) refl)
            ]
      ]
