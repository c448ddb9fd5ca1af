-- ===== src/Message/Text/Hex.antt =====
-- server/Message.hpp, `to_hex` and `bytes_to_hex`: what a hexadecimal text says.
use mathlib.Core.List.{reverse, reverse-cons}
use distributed_computing_fr.Prelude.{
  ℕ, zero, suc, ◌+◌, ◌-◌, ◌*◌, ◌/◌, ◌%◌, ◌^◌, ◌<◌, ◌≡◌, refl, ap, ap₂, ◌∙◌, List, [], ◌∷◌, ◌++◌,
  ◌==◌, false, length, length-append, get_or, ltb, if◌then◌else◌, arith,
}
use distributed_computing_fr.Message.Text.{hex_lut, hex_digits, to_hex, hex_from, bytes_to_hex}

-- The value of a digit `0` to `9` or `A` to `F`.
abbrev pub hex_value : ℕ → ℕ
hex_value c = if ltb c 58 then c - 48 else c - 55

-- How a number is read back, from its highest digit on.
abbrev pub read_hex : ℕ → List ℕ → ℕ
read_hex acc [] = acc
read_hex acc (c ∷ cs) = read_hex (16 * acc + hex_value c) cs

read_hex-append :
    (acc : ℕ) (xs ys : List ℕ) → read_hex acc (xs ++ ys) ≡ read_hex (read_hex acc xs) ys
read_hex-append acc [] ys = refl
read_hex-append acc (x ∷ xs) ys = read_hex-append (16 * acc + hex_value x) xs ys

-- Digits whose values count up from `i`.
abbrev CountsFrom : ℕ → List ℕ → Type 0
CountsFrom i [] = Unit {0}
CountsFrom i (c ∷ cs) = (hex_value c ≡ i) × CountsFrom (suc i) cs

hex_value-get_or :
    (i : ℕ) (cs : List ℕ) (d : ℕ)
    → CountsFrom i cs
    → d < length cs
    → hex_value (get_or cs d 0) ≡ i + d
hex_value-get_or i [] d h l = absurd (omega arith)
hex_value-get_or i (c ∷ cs) zero h l = omega (arith, h.0)
hex_value-get_or i (c ∷ cs) (suc d) h l =
    omega (arith, hex_value-get_or (suc i) cs d h.1 (omega arith))

hex_lut-CountsFrom : CountsFrom 0 hex_lut
hex_lut-CountsFrom = (
  refl,
  (
    refl,
    (
      refl,
      (
        refl,
        (
          refl,
          (
            refl,
            (refl, (refl, (refl, (refl, (refl, (refl, (refl, (refl, (refl, (refl, tt)))))))))),
          ),
        ),
      ),
    ),
  ),
)

hex_value-lut : (d : ℕ) → d < 16 → hex_value (get_or hex_lut d 0) ≡ d
hex_value-lut d h = omega (arith, hex_value-get_or 0 hex_lut d hex_lut-CountsFrom h)

read_hex-digits : (k val : ℕ) → val < 16 ^ k → read_hex 0 (reverse (hex_digits k val)) ≡ val
unfolding hex_digits
read_hex-digits zero val h = omega arith
read_hex-digits (suc k) val h =
    ap (read_hex 0) (reverse-cons _ (hex_digits k (val / 16)))
    ∙ read_hex-append 0 (reverse (hex_digits k (val / 16))) _
    ∙ omega
        (arith, read_hex-digits k (val / 16) (omega arith), hex_value-lut (val % 16) (omega arith))

hex_digits-length : (k val : ℕ) → length (hex_digits k val) ≡ k
unfolding hex_digits
hex_digits-length zero val = refl
hex_digits-length (suc k) val = ap suc (hex_digits-length k (val / 16))

reversed-length : (xs : List ℕ) → length (reverse xs) ≡ length xs
reversed-length [] = refl
reversed-length (x ∷ xs) =
    ap length (reverse-cons x xs)
    ∙ omega (arith, length-append (reverse xs) (x ∷ []), reversed-length xs)

-- `to_hex` of a value that its type holds has two digits for each byte, and they are read back as that
-- value.
to_hex-read :
    (size val : ℕ)
    → val < 16 ^ (size * 2)
    → (read_hex 0 (to_hex size val) ≡ val) × (length (to_hex size val) ≡ size * 2)
unfolding to_hex
to_hex-read size val h = (
  read_hex-digits (size * 2) val h,
  reversed-length (hex_digits (size * 2) val) ∙ hex_digits-length (size * 2) val,
)

-- How bytes are read back from a row of `bytes_to_hex`: each is `0x` and two digits, and a character
-- stands between two bytes.
abbrev pub read_row : List ℕ → List ℕ
read_row [] = []
read_row (o ∷ []) = []
read_row (o ∷ x ∷ []) = []
read_row (o ∷ x ∷ a ∷ []) = []
read_row (o ∷ x ∷ a ∷ b ∷ []) = read_hex 0 (a ∷ b ∷ []) ∷ []
read_row (o ∷ x ∷ a ∷ b ∷ sep ∷ rest) = read_hex 0 (a ∷ b ∷ []) ∷ read_row rest

-- Every element is a byte.
abbrev pub AreBytes : List ℕ → Type 0
AreBytes [] = Unit {0}
AreBytes (b ∷ bs) = (b < 256) × AreBytes bs

hex_from-later :
    (i c : ℕ) (cs : List ℕ)
    → 0 < i
    → hex_from (48 ∷ 120 ∷ []) (32 ∷ []) i (c ∷ cs)
      ≡ (32 ∷ 48 ∷ 120 ∷ []) ++ (to_hex 1 c ++ hex_from (48 ∷ 120 ∷ []) (32 ∷ []) (i + 1) cs)
unfolding hex_from
hex_from-later i c cs h = rw not_first refl
  where
    not_first : (i == 0) ≡ false
    not_first = ground arith

read_row-from :
    (i b : ℕ) (bs : List ℕ)
    → 0 < i
    → AreBytes (b ∷ bs)
    → read_row ((48 ∷ 120 ∷ []) ++ (to_hex 1 b ++ hex_from (48 ∷ 120 ∷ []) (32 ∷ []) i bs)) ≡ b ∷ bs
unfolding to_hex hex_digits hex_from
read_row-from i b [] pos h = ap (λ x. x ∷ []) (read_hex-digits 2 b (omega (arith, h.0)))
read_row-from i b (c ∷ cs) pos h =
    ap (λ rest. read_row ((48 ∷ 120 ∷ []) ++ (to_hex 1 b ++ rest))) (hex_from-later i c cs pos)
    ∙ ap₂ (λ (x : ℕ) (xs : List ℕ). x ∷ xs) (read_hex-digits 2 b (omega (arith, h.0)))
        (read_row-from (i + 1) c cs (omega arith) h.1)

-- A row of `bytes_to_hex` is read back as its bytes.
pub bytes_to_hex-read : (bytes : List ℕ) → AreBytes bytes → read_row (bytes_to_hex bytes) ≡ bytes
unfolding bytes_to_hex hex_from
bytes_to_hex-read [] h = refl
bytes_to_hex-read (b ∷ bs) h = read_row-from 1 b bs (omega arith) h
