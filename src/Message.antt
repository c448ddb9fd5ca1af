-- ===== src/Message.antt =====
-- server/Message.hpp: the wire format of the framework, its validity tests and its accessors.
-- A `message_s` is the record of its allocation size, its header and the bytes that were allocated
-- for its payload. Structures are packed, sizes are those of LP64 (`unsigned long` is eight bytes),
-- and an access outside the allocation is `none`.
pub mod Build
pub mod Bounds
pub mod Roundtrip
pub mod Data
pub mod Text
pub mod Print
pub mod Tests
use distributed_computing_fr.Prelude.{
  ℕ, zero, suc, ◌+◌, ◌*◌, ◌/◌, ◌%◌, ◌≡◌, Bool, true, false, ◌&&◌, ◌||◌, Option, none, some, List,
  [], ◌∷◌, ◌++◌, length, arith, ltb, leb, ◌==◌, if◌then◌else◌, u32, le32, read32, load, sub32,
  ◌>>=◌,
}

pub data MessageType : Type 0 where
  undefined config config_resp data_input : MessageType

-- The byte that stands for a type; a received header may hold any byte.
abbrev pub type_code : MessageType → ℕ
type_code undefined = 0
type_code config = 1
type_code config_resp = 2
type_code data_input = 3

pub data ConfigRespStatus : Type 0 where
  success error : ConfigRespStatus

abbrev pub status_code : ConfigRespStatus → ℕ
status_code success = 0
status_code error = 1

pub record BlockInfo : Type 0 where
  pub control_base : ℕ
  pub input_base : ℕ
  pub output_base : ℕ

pub record Header : Type 0 where
  pub type : ℕ
  pub reserved : List ℕ
  pub payload_size : ℕ

pub record Message : Type 0 where
  pub alloc_size : ℕ
  pub header : Header
  pub payload : List ℕ

-- `sizeof` of the packed structures.
abbrev pub sizeof_alloc_info : ℕ
sizeof_alloc_info = 8

abbrev pub sizeof_header : ℕ
sizeof_header = 8

abbrev pub sizeof_config : ℕ
sizeof_config = 12

abbrev pub sizeof_block_info : ℕ
sizeof_block_info = 12

abbrev pub sizeof_config_resp : ℕ
sizeof_config_resp = 1

abbrev pub sizeof_data : ℕ
sizeof_data = 4

unfoldable pub header_is_valid : Header → Bool
header_is_valid h =
    (h.type == type_code config
      || (h.type == type_code config_resp || h.type == type_code data_input))
    && ltb 0 h.payload_size

unfoldable pub get_message_size : Message → ℕ
get_message_size m = u32 (sizeof_header + m.header.payload_size)

unfoldable pub has_valid_payload_size : Message → Bool
unfolding get_message_size
has_valid_payload_size m = m.alloc_size == sizeof_alloc_info + get_message_size m

unfoldable pub is_valid_message : Message → Bool
unfolding header_is_valid has_valid_payload_size
is_valid_message m = header_is_valid m.header && has_valid_payload_size m

-- The fields of `payload.as_config`, which are read from memory.
abbrev pub config_input_size : Message → Option ℕ
config_input_size m = read32 m.payload 0

abbrev pub config_output_size : Message → Option ℕ
config_output_size m = read32 m.payload 4

abbrev pub config_num_blocks : Message → Option ℕ
config_num_blocks m = read32 m.payload 8

-- The number of blocks is read only if the tests before it pass.
unfoldable pub is_valid_config : Message → Option Bool
unfolding is_valid_message
is_valid_config m =
    if is_valid_message m && m.header.type == type_code config
    then (do
      num_blocks ← config_num_blocks m
      some (leb (sizeof_config + num_blocks * sizeof_block_info) m.header.payload_size))
    else some false

-- The three words of a `block_info_s` in memory.
unfoldable pub read_block : List ℕ → ℕ → Option BlockInfo
read_block mem base = do
  control ← read32 mem base
  input ← read32 mem (base + 4)
  output ← read32 mem (base + 8)
  some (record { control_base = control; input_base = input; output_base = output })

-- The block description at an index of `as_config.data`.
abbrev pub get_block_info : Message → ℕ → Option BlockInfo
get_block_info m block_index =
    read_block m.payload (sizeof_config + block_index * sizeof_block_info)

unfoldable pub get_rbf_offset : Message → Option ℕ
get_rbf_offset m = do num_blocks ← config_num_blocks m; some (u32 (num_blocks * sizeof_block_info))

unfoldable pub get_rbf_size : Message → Option ℕ
get_rbf_size m = do
  offset ← get_rbf_offset m
  some (sub32 (sub32 m.header.payload_size sizeof_config) offset)

-- The `get_rbf_size` bytes at `get_rbf_ptr`.
unfoldable pub get_rbf : Message → Option (List ℕ)
get_rbf m = do
  offset ← get_rbf_offset m
  size ← get_rbf_size m
  load (sizeof_config + offset) size m.payload

abbrev pub resp_status : Message → Option ℕ
resp_status m = do bytes ← load 0 1 m.payload; elim bytes [ [] ↦ none | b ∷ _ ↦ some b ]

unfoldable pub is_valid_config_resp : Message → Option Bool
unfolding is_valid_message
is_valid_config_resp m =
    if is_valid_message m && (m.header.type == type_code config_resp && m.header.payload_size == 1)
    then (do
      status ← resp_status m
      some (status == status_code success || status == status_code error))
    else some false

unfoldable pub get_data_size : Message → ℕ
get_data_size m = sub32 m.header.payload_size sizeof_data

unfoldable pub is_valid_data : Message → Bool
unfolding is_valid_message
is_valid_data m = is_valid_message m && m.header.type == type_code data_input

-- `is_valid_data(data_block_size)`; a division by zero is undefined.
unfoldable pub is_valid_data_for : Message → ℕ → Option Bool
is_valid_data_for m data_block_size =
    if is_valid_data m
    then if data_block_size == 0 then none else some (get_data_size m % data_block_size == 0)
    else some false

unfoldable pub get_data_block_count : Message → ℕ → Option ℕ
get_data_block_count m data_block_size =
    if data_block_size == 0 then none else some (get_data_size m / data_block_size)

-- What the message is in memory after the allocation information, as it goes over the wire.
abbrev pub header_bytes : Header → List ℕ
header_bytes h = h.type ∷ (h.reserved ++ le32 h.payload_size)

unfoldable pub as_bytes : Message → List ℕ
as_bytes m = header_bytes m.header ++ m.payload
