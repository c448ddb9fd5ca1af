-- ===== src/Prelude/Memory.antt =====
-- Loads and stores in a block of memory. An access that leaves the block is `none`: it is undefined
-- behaviour in the source. The chain of such accesses is a `do` block over `Option`.
use Prim.Native.Nat.{ℕ, ◌+◌, ◌-◌, ◌≤◌, ◌%◌}
use mathlib.Core.Path.{◌≡◌, refl, sym, ap, ◌∙◌}
use mathlib.Core.Bool.{true}
use mathlib.Core.List.{List, [], ◌++◌, append-nil}
use mathlib.Core.Option.{Option, none, some}
use native.Mathlib.Omega.{arith}
use distributed_computing_fr.Prelude.Tests.{leb, if◌then◌else◌}
use distributed_computing_fr.Prelude.Lists.{
  length, take, drop, length-append, length-take, length-drop,
}
use distributed_computing_fr.Prelude.Bytes.{u32_mod, drop-append, take-append, drop-drop}

infixl 5 ◌>>=◌
abbrev pub ◌>>=◌ {ℓ κ} : {A : Type ℓ} {B : Type κ} → Option A → (A → Option B) → Option B
none >>= f = none
some a >>= f = f a

-- `a - b` on `uint32_t`: the modulus is added first, since `-` on ℕ stops at 0.
abbrev pub sub32 : ℕ → ℕ → ℕ
sub32 a b = (a + u32_mod - b % u32_mod) % u32_mod

module _ {ℓ} {A : Type ℓ} where
  -- The bytes from `i` to `i + n`.
  unfoldable pub load : ℕ → ℕ → List A → Option (List A)
  load i n mem = if leb (i + n) (length mem) then some (take n (drop i mem)) else none

  -- Copy `src` to the bytes from `i` on.
  unfoldable pub store : ℕ → List A → List A → Option (List A)
  store i src mem =
      if leb (i + length src) (length mem)
      then some (take i mem ++ (src ++ drop (i + length src) mem))
      else none

  -- A store behind a prefix of known length.
  pub store-append :
      (i : ℕ) (pre src rest : List A)
      → length pre ≡ i
      → length src ≤ length rest
      → store i src (pre ++ rest) ≡ some (pre ++ (src ++ drop (length src) rest))
  unfolding store
  store-append i pre src rest e h = rw (← e) (
      rw
        (
          inside,
          take-append pre rest,
          drop-drop (length pre) (length src) (pre ++ rest),
          drop-append pre rest,
        )
        refl)
    where
      inside : leb (length pre + length src) (length (pre ++ rest)) ≡ true
      inside = ground (arith, length-append pre rest)

  -- A load of a part that is known.
  pub load-append :
      (i n : ℕ) (pre part rest : List A)
      → length pre ≡ i
      → length part ≡ n
      → load i n (pre ++ (part ++ rest)) ≡ some part
  unfolding load
  load-append i n pre part rest e h =
      rw (← e, ← h) (rw (inside, drop-append pre (part ++ rest), take-append part rest) refl)
    where
      inside : leb (length pre + length part) (length (pre ++ (part ++ rest))) ≡ true
      inside = ground (arith, length-append pre (part ++ rest), length-append part rest)

  -- A load of the whole block.
  pub load_all : (xs : List A) → load 0 (length xs) xs ≡ some xs
  load_all xs =
      ap (load 0 (length xs)) (sym (append-nil xs)) ∙ load-append 0 (length xs) [] xs [] refl refl

  -- A load inside the block succeeds, with as many bytes as asked for.
  pub load-some :
      (i n : ℕ) (mem : List A)
      → i + n ≤ length mem
      → (part : List A) × (load i n mem ≡ some part) × (length part ≡ n)
  unfolding load
  load-some i n mem h = (
    take n (drop i mem),
    ground arith,
    omega (arith, length-take n (drop i mem), length-drop i mem),
  )
