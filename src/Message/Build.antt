-- ===== src/Message/Build.antt =====
-- server/Message.hpp: the functions that allocate messages. Fresh memory holds arbitrary bytes, the
-- argument `junk` of a constructor. Allocation itself succeeds; `new_message` tries until it does.
pub mod Laws
use distributed_computing_fr.Prelude.{
  ℕ, zero, suc, ◌+◌, ◌*◌, ◌≡◌, Bool, true, false, Option, none, some, List, [], ◌∷◌, ◌++◌, length,
  take, u32, le32, store, load, ◌>>=◌,
}
use distributed_computing_fr.Message.{
  Message, Header, BlockInfo, MessageType, undefined, config, config_resp, data_input, type_code,
  ConfigRespStatus, status_code, sizeof_alloc_info, sizeof_header, sizeof_config, sizeof_block_info,
  sizeof_config_resp, sizeof_data, config_num_blocks, get_rbf_offset,
}

-- `n` bytes of fresh memory, from the offset `i` on.
unfoldable pub fresh : (ℕ → ℕ) → ℕ → ℕ → List ℕ
fresh junk i zero = []
fresh junk i (suc n) = junk i ∷ fresh junk (i + 1) n

-- The reserved bytes of a header are never written.
abbrev pub reserved_bytes : (ℕ → ℕ) → List ℕ
reserved_bytes junk = junk 9 ∷ junk 10 ∷ junk 11 ∷ []

-- The allocation with `type` and `payload_size` set: `payload_size` bytes are allocated for the
-- payload, and the header holds that number as a `uint32_t`.
abbrev pub allocate : (ℕ → ℕ) → MessageType → ℕ → Message
allocate junk type payload_size = record {
  alloc_size = sizeof_alloc_info + sizeof_header + payload_size;
  header = record {
    type = type_code type;
    reserved = reserved_bytes junk;
    payload_size = u32 payload_size;
  };
  payload = fresh junk 16 payload_size;
}

unfoldable pub new_message : (ℕ → ℕ) → ℕ → Message
unfolding fresh
new_message junk payload_size = allocate junk undefined payload_size

unfoldable pub block_bytes : BlockInfo → List ℕ
block_bytes b = le32 b.control_base ++ (le32 b.input_base ++ le32 b.output_base)

-- `for (i = 0; i < num_blocks; i++) *(config->get_block_info(i)) = blocks[i]`, from index `i` on.
unfoldable pub store_blocks : ℕ → List BlockInfo → List ℕ → Option (List ℕ)
store_blocks i [] mem = some mem
store_blocks i (b ∷ bs) mem = do
  mem' ← store (sizeof_config + i * sizeof_block_info) (block_bytes b) mem
  store_blocks (i + 1) bs mem'

-- The three assignments to `payload.as_config`.
unfoldable pub store_words : ℕ → ℕ → ℕ → List ℕ → Option (List ℕ)
store_words input_size output_size num_blocks mem = do
  mem1 ← store 0 (le32 input_size) mem
  mem2 ← store 4 (le32 output_size) mem1
  store 8 (le32 num_blocks) mem2

-- `memcpy(config->get_rbf_ptr(), rbf_data, rbf_size)`, if there is such data.
unfoldable pub store_rbf : Option (List ℕ) → ℕ → Message → Option Message
unfolding get_rbf_offset
store_rbf none rbf_size m = some m
store_rbf (some rbf_data) rbf_size m = do
  offset ← get_rbf_offset m
  src ← load 0 rbf_size rbf_data
  mem ← store (sizeof_config + offset) src m.payload
  some (record m { payload = mem })

unfoldable pub new_config : (ℕ → ℕ) → List BlockInfo → ℕ → ℕ → Option (List ℕ) → ℕ → Option Message
new_config junk blocks input_size output_size rbf_data rbf_size = do
  let num_blocks = length blocks
  let payload_size = sizeof_config + num_blocks * sizeof_block_info + rbf_size
  let m = allocate junk config payload_size
  mem ← store_words input_size output_size num_blocks m.payload
  mem' ← store_blocks 0 blocks mem
  store_rbf rbf_data rbf_size (record m { payload = mem' })

unfoldable pub new_config_resp : (ℕ → ℕ) → ConfigRespStatus → Option Message
unfolding fresh
new_config_resp junk status = do
  let m = allocate junk config_resp sizeof_config_resp
  mem ← store 0 (status_code status ∷ []) m.payload
  some (record m { payload = mem })

-- The payload's size is computed on `uint32_t`, and then the allocation's from it.
unfoldable pub new_data : (ℕ → ℕ) → ℕ → ℕ → ℕ → Option Message
unfolding fresh
new_data junk data_size data_count id = do
  let payload_size = u32 (sizeof_data + u32 (data_size * data_count))
  let m = allocate junk data_input payload_size
  mem ← store 0 (le32 id) m.payload
  some (record m { payload = mem })
