-- ===== src/Message/Text.antt =====
-- server/Message.hpp: hexadecimal text and the printing of messages. A text is the list of its bytes.
-- How a stream shows a number in decimal is the library's: the argument `decimal`. A read outside the
-- allocation is `none`, and so is a loop that does not end.
use Prim.Native.Char.{code}
use Prim.Native.String.{String}
use mathlib.Core.List.{reverse}
use distributed_computing_fr.Prelude.{
  ℕ, zero, suc, ◌+◌, ◌-◌, ◌*◌, ◌/◌, ◌%◌, ◌^◌, Option, none, some, List, [], ◌∷◌, ◌++◌, length,
  get_or, ltb, ◌==◌, if◌then◌else◌, load, ◌>>=◌, le32,
}
pub mod Hex
pub mod Loops
pub mod Rows
pub mod Shown

-- The bytes of a text.
abbrev pub codes : String → List ℕ
codes String.[] = []
codes (String.◌∷◌ c s) = code c ∷ codes s

abbrev pub newline : List ℕ
newline = 10 ∷ []

abbrev pub tab : List ℕ
tab = 9 ∷ []

abbrev pub hex_lut : List ℕ
hex_lut = 48 ∷ 49 ∷ 50 ∷ 51 ∷ 52 ∷ 53 ∷ 54 ∷ 55 ∷ 56 ∷ 57 ∷ 65 ∷ 66 ∷ 67 ∷ 68 ∷ 69 ∷ 70 ∷ []

-- The loop of `to_hex`, with the lowest digit first.
unfoldable pub hex_digits : ℕ → ℕ → List ℕ
hex_digits zero val = []
hex_digits (suc k) val = get_or hex_lut (val % 16) 0 ∷ hex_digits k (val / 16)

-- `to_hex` of a value of an unsigned type of `size` bytes.
unfoldable pub to_hex : ℕ → ℕ → List ℕ
to_hex size val = reverse (hex_digits (size * 2) val)

-- The loop of `bytes_to_hex` from the index `i` on.
unfoldable pub hex_from : List ℕ → List ℕ → ℕ → List ℕ → List ℕ
hex_from pre sep i [] = []
hex_from pre sep i (b ∷ bs) =
    (if i == 0 then [] else sep) ++ (pre ++ (to_hex 1 b ++ hex_from pre sep (i + 1) bs))

-- `bytes_to_hex` with its default prefix and separator.
unfoldable pub bytes_to_hex : List ℕ → List ℕ
bytes_to_hex bytes = hex_from (48 ∷ 120 ∷ []) (32 ∷ []) 0 bytes

-- An `int` is the number of its 32 bits; this is what it is as a `std::size_t` of 64 bits.
unfoldable pub as_size : ℕ → ℕ
as_size i = if ltb i (2 ^ 31) then i else i + (2 ^ 64 - 2 ^ 32)

-- A loop of `print_bytes` over `data`, `for (int i = first; i < stop; i += bytes_per_line)`, which
-- shows as many bytes from `i` on as `count` says, with the `int` as the 64 bits of a pointer or a
-- `std::size_t`. The fuel is a number of rounds.
unfoldable pub print_rows : ℕ → (ℕ → ℕ) → ℕ → List ℕ → List ℕ → ℕ → ℕ → Option (List ℕ)
print_rows zero count bytes_per_line pre data_bytes stop i = none
print_rows (suc fuel) count bytes_per_line pre data_bytes stop i =
    let next = (i + bytes_per_line) % 2 ^ 32 in
    let rest = print_rows fuel count bytes_per_line pre data_bytes stop next in
    if ltb (as_size i) stop
    then (do
      row ← load (as_size i) (count i) data_bytes
      text ← rest
      some (pre ++ (bytes_to_hex row ++ (newline ++ text))))
    else some []

-- How many bytes the last loop of `print_bytes` shows at `i`; `i + bytes_per_line` is an `uint`.
abbrev pub last_count : ℕ → ℕ → ℕ → ℕ
last_count bytes_per_line len i =
    if ltb ((i + bytes_per_line) % 2 ^ 32) len then bytes_per_line else len - as_size i

-- `print_bytes` of `len` bytes at the start of `data_bytes`, for lines below 2^28 bytes, at which the
-- products are no more than an `uint` holds. A loop over `len` bytes has fewer than `len + 1` rounds.
unfoldable pub print_bytes : List ℕ → ℕ → ℕ → List ℕ → Option (List ℕ)
print_bytes data_bytes len bytes_per_line pre =
    if ltb (8 * bytes_per_line) len
    then (do
      head ←
          print_rows (len + 1) (λ i. bytes_per_line) bytes_per_line pre data_bytes
            (4 * bytes_per_line) 0
      tail ←
          print_rows (len + 1) (λ i. bytes_per_line) bytes_per_line pre data_bytes len
            ((len - 4 * bytes_per_line) % 2 ^ 32)
      some (head ++ (pre ++ (codes "..." ++ (newline ++ tail)))))
    else print_rows (len + 1) (last_count bytes_per_line len) bytes_per_line pre data_bytes len 0
