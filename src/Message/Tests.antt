-- ===== src/Message/Tests.antt =====
-- server/Message.hpp on concrete messages.
use distributed_computing_fr.Prelude.{ℕ, ◌≡◌, refl, some, [], ◌∷◌, arith}
use distributed_computing_fr.Message.{Message, BlockInfo, is_valid_message, is_valid_config}
use distributed_computing_fr.Message.Build.{new_config}
use distributed_computing_fr.Message.Bounds.{Accesses, valid_config-Accesses}
use distributed_computing_fr.Message.Roundtrip.{Configures, new_config-Configures}

abbrev zeros : ℕ → ℕ
zeros i = 0

abbrev sample_block : BlockInfo
sample_block = record { control_base = 0x1000; input_base = 0x2000; output_base = 0x3000 }

-- A configuration of one block, with a bit stream of two bytes.
abbrev sample_config : Message
sample_config = record {
  alloc_size = 42;
  header = record { type = 1; reserved = 0 ∷ 0 ∷ 0 ∷ []; payload_size = 26 };
  payload =
      4 ∷ 0 ∷ 0 ∷ 0 ∷ 8 ∷ 0 ∷ 0 ∷ 0 ∷ 1 ∷ 0 ∷ 0 ∷ 0 ∷ 0 ∷ 16 ∷ 0 ∷ 0 ∷ 0 ∷ 32 ∷ 0 ∷ 0 ∷ 0 ∷ 48 ∷ 0
      ∷ 0 ∷ 77 ∷ 78 ∷ [];
}

new_config-Configures_example :
    (m : Message) × (new_config zeros (sample_block ∷ []) 4 8 (some (77 ∷ 78 ∷ [])) 2 ≡ some m)
    × Configures m (sample_block ∷ []) 4 8 (77 ∷ 78 ∷ [])
new_config-Configures_example =
    new_config-Configures zeros (sample_block ∷ []) 4 8 (77 ∷ 78 ∷ []) (omega arith) (omega arith)
      (omega arith) (omega arith, omega arith, omega arith, tt)

valid_config-Accesses_example : (n : ℕ) × Accesses sample_config n
unfolding is_valid_config is_valid_message
valid_config-Accesses_example =
    valid_config-Accesses sample_config refl (omega arith) (omega arith) refl
