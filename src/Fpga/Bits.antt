-- ===== src/Fpga/Bits.antt =====
-- The bit that the driver's masks on the control register turn on: bit 2, NCONFIGPULL, and bit 8,
-- AXICFGEN. `bit_and` and `bit_or` have no laws at variables but their definitions.
use Prim.Native.Nat.{bit_and, bit_or, bitwise, digits, bit_and-bitwise, bit_or-bitwise, min, max}
use distributed_computing_fr.Prelude.{ℕ, zero, suc, ◌+◌, ◌*◌, ◌/◌, ◌%◌, ◌≤◌, ◌≡◌, refl, ap, arith}

-- Digit counts that are large enough give one result.
module _ (z : ℕ → ℕ) (f : ℕ → ℕ → ℕ) where
  enough_digits : (m n a b : ℕ) → a ≤ m → a ≤ n → digits z f m a b ≡ digits z f n a b
  enough_digits zero zero a b p q = refl
  enough_digits zero (suc n) zero b p q = refl
  enough_digits (suc m) zero zero b p q = refl
  enough_digits (suc m) (suc n) zero b p q = refl
  enough_digits zero (suc n) (suc a) b p q = elim p [ ]
  enough_digits (suc m) zero (suc a) b p q = elim q [ ]
  enough_digits (suc m) (suc n) (suc a) b p q =
      ap (λ (r : ℕ). r * 2 + f (suc a % 2) (b % 2))
        (enough_digits m n (suc a / 2) (b / 2) (omega arith) (omega arith))

  lowest_digit :
      (a b : ℕ)
      → bitwise z f (suc a) b ≡ bitwise z f (suc a / 2) (b / 2) * 2 + f (suc a % 2) (b % 2)
  lowest_digit a b =
      ap (λ (r : ℕ). r * 2 + f (suc a % 2) (b % 2))
        (enough_digits a (suc a / 2) (suc a / 2) (b / 2) (omega arith) (omega arith))

pub and_lowest : (a b : ℕ) → bit_and a b ≡ bit_and (a / 2) (b / 2) * 2 + min (a % 2) (b % 2)
and_lowest zero b = omega (arith, bit_and-bitwise 0 b, bit_and-bitwise 0 (b / 2))
and_lowest (suc a) b = omega (
  arith,
  bit_and-bitwise (suc a) b,
  bit_and-bitwise (suc a / 2) (b / 2),
  lowest_digit (λ _. zero) min a b,
)

pub or_lowest : (a b : ℕ) → bit_or a b ≡ bit_or (a / 2) (b / 2) * 2 + max (a % 2) (b % 2)
or_lowest zero b = omega (arith, bit_or-bitwise 0 b, bit_or-bitwise 0 (b / 2))
or_lowest (suc a) b = omega (
  arith,
  bit_or-bitwise (suc a) b,
  bit_or-bitwise (suc a / 2) (b / 2),
  lowest_digit (λ d. d) max a b,
)

-- Bit 2 of a word.
abbrev pub bit2 : ℕ → ℕ
bit2 w = w / 4 % 2

pub bit2-and : (a b : ℕ) → bit2 (bit_and a b) ≡ min (bit2 a) (bit2 b)
bit2-and a b =
    omega (arith, and_lowest a b, and_lowest (a / 2) (b / 2), and_lowest (a / 2 / 2) (b / 2 / 2))

pub bit2-or : (a b : ℕ) → bit2 (bit_or a b) ≡ max (bit2 a) (bit2 b)
bit2-or a b =
    omega (arith, or_lowest a b, or_lowest (a / 2) (b / 2), or_lowest (a / 2 / 2) (b / 2 / 2))
