-- ===== src/Message/Print/Tests.antt =====
-- The text of messages of server/Message.hpp on concrete messages.
use distributed_computing_fr.Prelude.{ℕ, ◌+◌, ◌%◌, ◌≡◌, refl, some, List, [], ◌∷◌, arith, load}
use distributed_computing_fr.Message.{Message, is_valid_message}
use distributed_computing_fr.Message.Text.{
  to_hex, bytes_to_hex, print_bytes, hex_digits, hex_from, print_rows, as_size,
}
use distributed_computing_fr.Message.Print.Reads.{IsPrinted, print-IsPrinted}

-- Only the last digit of a number.
abbrev last_digit : ℕ → List ℕ
last_digit n = (48 + n % 10) ∷ []

-- A configuration that counts a block and has none.
abbrev overcounting : Message
overcounting = record {
  alloc_size = 28;
  header = record { type = 1; reserved = 0 ∷ 0 ∷ 0 ∷ []; payload_size = 12 };
  payload = 2 ∷ 0 ∷ 0 ∷ 0 ∷ 2 ∷ 0 ∷ 0 ∷ 0 ∷ 1 ∷ 0 ∷ 0 ∷ 0 ∷ [];
}

abbrev response : Message
response = record {
  alloc_size = 17;
  header = record { type = 2; reserved = 0 ∷ 0 ∷ 0 ∷ []; payload_size = 1 };
  payload = 1 ∷ [];
}

abbrev nine_bytes : List ℕ
nine_bytes = 1 ∷ 2 ∷ 3 ∷ 4 ∷ 5 ∷ 6 ∷ 7 ∷ 8 ∷ 255 ∷ []

-- `0x07 0xFF`
shows_hex : bytes_to_hex (7 ∷ 255 ∷ []) ≡ 48 ∷ 120 ∷ 48 ∷ 55 ∷ 32 ∷ 48 ∷ 120 ∷ 70 ∷ 70 ∷ []
unfolding bytes_to_hex hex_from to_hex hex_digits
shows_hex = refl

-- A full row and a row of one byte.
shows_rows :
    print_bytes (1 ∷ 2 ∷ 3 ∷ []) 3 2 (9 ∷ [])
    ≡ some
        (9 ∷ 48 ∷ 120 ∷ 48 ∷ 49 ∷ 32 ∷ 48 ∷ 120 ∷ 48 ∷ 50 ∷ 10 ∷ 9 ∷ 48 ∷ 120 ∷ 48 ∷ 51 ∷ 10 ∷ [])
unfolding print_bytes print_rows as_size load bytes_to_hex hex_from to_hex hex_digits
shows_rows = refl

print-IsPrinted_example : IsPrinted last_digit [] overcounting
unfolding is_valid_message
print-IsPrinted_example =
    print-IsPrinted last_digit [] overcounting refl (omega arith) (omega arith) refl refl
