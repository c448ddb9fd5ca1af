-- ===== src/Prelude/Bytes.antt =====
-- Bytes of memory: little-endian words and reads at an offset. A read past the end is `none`.
use Prim.Native.Nat.{ℕ, zero, suc, ◌+◌, ◌*◌, ◌/◌, ◌%◌, ◌^◌, ◌≤◌, ◌<◌}
use mathlib.Core.Path.{◌≡◌, refl, ap}
use mathlib.Core.List.{List, [], ◌∷◌, ◌++◌}
use mathlib.Core.Option.{Option, none, some}
use native.Mathlib.Nat.{zero-add, suc-add}
use native.Mathlib.Omega.{arith}
use distributed_computing_fr.Prelude.Lists.{length, drop, take, length-drop}

abbrev pub u32_mod : ℕ
u32_mod = 2 ^ 32

-- Conversion to `uint32_t`.
abbrev pub u32 : ℕ → ℕ
u32 n = n % u32_mod

-- The four bytes of a `uint32_t` in memory, least significant first.
abbrev pub le32 : ℕ → List ℕ
le32 w = (w % 256) ∷ (w / 256 % 256) ∷ (w / 65536 % 256) ∷ (w / 16777216 % 256) ∷ []

-- The word in the first four bytes.
abbrev pub first32 : List ℕ → Option ℕ
first32 (a ∷ b ∷ c ∷ d ∷ _) = some (a + 256 * b + 65536 * c + 16777216 * d)
first32 _ = none

-- `*(uint32_t*)(bytes + i)`.
abbrev pub read32 : List ℕ → ℕ → Option ℕ
read32 bytes i = first32 (drop i bytes)

pub length-le32 : (w : ℕ) → length (le32 w) ≡ 4
length-le32 w = refl

-- The value of the four bytes of a word.
pub le32_sum :
    (w : ℕ)
    → w < u32_mod
    → w % 256 + 256 * (w / 256 % 256) + 65536 * (w / 65536 % 256) + 16777216 * (w / 16777216 % 256)
      ≡ w
le32_sum w h = omega arith

pub first32-le32 : (w : ℕ) (rest : List ℕ) → w < u32_mod → first32 (le32 w ++ rest) ≡ some w
first32-le32 w rest h = ap some (le32_sum w h)

module _ {ℓ} {A : Type ℓ} where
  pub drop-append : (xs ys : List A) → drop (length xs) (xs ++ ys) ≡ ys
  drop-append [] ys = refl
  drop-append (x ∷ xs) ys = drop-append xs ys

  pub take-append : (xs ys : List A) → take (length xs) (xs ++ ys) ≡ xs
  take-append [] ys = refl
  take-append (x ∷ xs) ys = ap (◌∷◌ x) (take-append xs ys)

  pub take-length : (xs : List A) → take (length xs) xs ≡ xs
  take-length [] = refl
  take-length (x ∷ xs) = ap (◌∷◌ x) (take-length xs)

  pub drop-drop : (m n : ℕ) (xs : List A) → drop (m + n) xs ≡ drop n (drop m xs)
  drop-drop zero n xs = rw zero-add
  drop-drop (suc m) n [] = rw suc-add (drop-nil n)
    where
      drop-nil : (k : ℕ) → ◌≡◌ {A = List A} [] (drop k [])
      drop-nil zero = refl
      drop-nil (suc k) = refl
  drop-drop (suc m) n (x ∷ xs) = rw suc-add (drop-drop m n xs)

  pub take_add : (m n : ℕ) (xs : List A) → take (m + n) xs ≡ take m xs ++ take n (drop m xs)
  take_add zero n xs = rw zero-add
  take_add (suc m) zero [] = rw suc-add
  take_add (suc m) (suc n) [] = rw suc-add
  take_add (suc m) n (x ∷ xs) = rw suc-add (ap (◌∷◌ x) (take_add m n xs))

pub first32-some : (bytes : List ℕ) → 4 ≤ length bytes → (w : ℕ) × (first32 bytes ≡ some w)
first32-some [] h = absurd (omega arith)
first32-some (a ∷ []) h = absurd (omega arith)
first32-some (a ∷ b ∷ []) h = absurd (omega arith)
first32-some (a ∷ b ∷ c ∷ []) h = absurd (omega arith)
first32-some (a ∷ b ∷ c ∷ d ∷ rest) h = (a + 256 * b + 65536 * c + 16777216 * d, refl)

-- A read inside the memory succeeds.
pub read32-some :
    (bytes : List ℕ) (i : ℕ) → i + 4 ≤ length bytes → (w : ℕ) × (read32 bytes i ≡ some w)
read32-some bytes i h = first32-some (drop i bytes) (omega (arith, length-drop i bytes))

pub read32-append :
    (pre rest : List ℕ) (i : ℕ) → read32 (pre ++ rest) (length pre + i) ≡ read32 rest i
read32-append pre rest i = rw (drop-drop (length pre) i (pre ++ rest), drop-append pre rest) refl
