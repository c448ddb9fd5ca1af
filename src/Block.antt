-- ===== src/Block.antt =====
-- utils/src/Block.cpp, the writes of a range. A range of the FPGA's address space and a buffer are
-- lists of 32-bit words; an access outside of them is `none`. The assignment of an element of Boost's
-- `uint128_t` is the library's: the argument `assign128`, for the element of a number.
use distributed_computing_fr.Prelude.{
  ℕ, zero, suc, ◌+◌, ◌-◌, ◌*◌, ◌/◌, ◌%◌, ◌==◌, if◌then◌else◌, Option, none, some, List, [], ◌∷◌,
  ◌++◌, load, store, ◌>>=◌,
}
pub mod Range
pub mod Work
pub mod Stopping
pub mod Tests

-- `writeAddress`, for an access of `m` words at the word `k`.
-- `writeAddress<uint32_t>` is the case of one word.
unfoldable pub write_address : ℕ → ℕ → List ℕ → List ℕ → Option (List ℕ)
write_address m k words dest = do chunk ← load k m words; store k chunk dest

-- `n` rounds of the loop on 128 bits, and of that on 32 bits, from the index `i` on.
unfoldable pub write_loop128 :
    (ℕ → List ℕ → List ℕ → Option (List ℕ)) → ℕ → ℕ → List ℕ → List ℕ → Option (List ℕ)
write_loop128 assign128 zero i words dest = some dest
write_loop128 assign128 (suc n) i words dest = do
  dest' ← assign128 i words dest
  write_loop128 assign128 n (i + 1) words dest'

unfoldable pub write_loop32 : ℕ → ℕ → List ℕ → List ℕ → Option (List ℕ)
write_loop32 zero i words dest = some dest
write_loop32 (suc n) i words dest = do
  dest' ← write_address 1 i words dest
  write_loop32 n (i + 1) words dest'

unfoldable pub write_range128 :
    (ℕ → List ℕ → List ℕ → Option (List ℕ)) → List ℕ → List ℕ → ℕ → Option (List ℕ)
write_range128 assign128 dest words data_size =
    let rest = data_size % 4 in
    if rest == 0 then write_loop128 assign128 (data_size / 4) 0 words dest else (do
      dest' ← write_loop128 assign128 ((data_size - rest) / 4) 0 words dest
      write_loop32 rest (data_size - rest) words dest')

-- `memcpy` of the whole range, as `writeRange32` uses it on bytes.
abbrev pub copy_range : List ℕ → List ℕ → ℕ → Option (List ℕ)
copy_range dest words data_size = do chunk ← load 0 data_size words; store 0 chunk dest
