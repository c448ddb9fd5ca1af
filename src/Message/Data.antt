-- ===== src/Message/Data.antt =====
-- server/Message.hpp: data messages and configuration responses, built and read back.
use native.Mathlib.Nat.{mul-div_right, mul-mod_right}
use distributed_computing_fr.Prelude.{
  ℕ, ◌+◌, ◌*◌, ◌<◌, ◌≡◌, refl, true, some, List, [], ◌++◌, length, length-drop, drop, arith, u32,
  u32_mod, le32, read32, first32-le32, store, store-append, load,
}
use distributed_computing_fr.Message.{
  Message, is_valid_data, is_valid_data_for, is_valid_config_resp, get_data_size,
  get_data_block_count, type_code, data_input, ConfigRespStatus, success, error, status_code,
  resp_status, sizeof_data,
}
use distributed_computing_fr.Message.Build.{fresh, allocate, new_data, new_config_resp}
use distributed_computing_fr.Message.Build.Laws.{length-fresh}

-- What a data message says, as the accessors read it: `count` blocks of `size` bytes.
pub record Carries (m : Message) (size count id : ℕ) : Type 0 where
  pub valid : is_valid_data_for m size ≡ some true
  pub data_size : get_data_size m ≡ size * count
  pub blocks : get_data_block_count m size ≡ some count
  pub identifier : read32 m.payload 0 ≡ some id
  pub room : length m.payload ≡ sizeof_data + size * count

valid_of_size :
    (m : Message) (size count : ℕ)
    → is_valid_data m ≡ true
    → get_data_size m ≡ size * count
    → 0 < size
    → is_valid_data_for m size ≡ some true
unfolding is_valid_data_for
valid_of_size m size count v e pos = rw (v, e, mul-mod_right size count) (ground arith)

count_of_size :
    (m : Message) (size count : ℕ)
    → get_data_size m ≡ size * count
    → 0 < size
    → get_data_block_count m size ≡ some count
unfolding get_data_block_count
count_of_size m size count e pos = rw (e, mul-div_right count pos) (ground arith)

data_size_of :
    (m : Message) (n : ℕ)
    → m.header.payload_size ≡ sizeof_data + n
    → 12 + n < u32_mod
    → get_data_size m ≡ n
unfolding get_data_size
data_size_of m n e small = omega arith

valid_data_of :
    (m : Message)
    → m.header.type ≡ type_code data_input
    → 0 < m.header.payload_size
    → m.alloc_size ≡ 16 + m.header.payload_size
    → 8 + m.header.payload_size < u32_mod
    → is_valid_data m ≡ true
unfolding is_valid_data
valid_data_of m t pos al small = ground arith

Carries-of :
    (m : Message) (size count id : ℕ)
    → m.header.type ≡ type_code data_input
    → m.header.payload_size ≡ sizeof_data + size * count
    → m.alloc_size ≡ 16 + m.header.payload_size
    → length m.payload ≡ m.header.payload_size
    → read32 m.payload 0 ≡ some id
    → 12 + size * count < u32_mod
    → 0 < size
    → Carries m size count id
Carries-of m size count id t ps al l e small pos = record {
  valid = valid_of_size m size count checked total pos;
  data_size = total;
  blocks = count_of_size m size count total pos;
  identifier = e;
  room = omega arith;
}
  where
    total : get_data_size m ≡ size * count
    total = data_size_of m (size * count) ps small

    checked : is_valid_data m ≡ true
    checked = valid_data_of m t (omega arith) al (omega arith)

-- The message that is built for `count` blocks of `size` bytes.
abbrev pub data_message : (ℕ → ℕ) → ℕ → ℕ → ℕ → Message
data_message junk size count id = record (allocate junk data_input (sizeof_data + size * count)) {
  payload = le32 id ++ drop 4 (fresh junk 16 (sizeof_data + size * count));
}

-- No store of the construction leaves the allocation.
pub new_data_lem :
    (junk : ℕ → ℕ) (size count id : ℕ)
    → 12 + size * count < u32_mod
    → new_data junk size count id ≡ some (data_message junk size count id)
unfolding new_data
new_data_lem junk size count id small = rw (fits, stored) refl
  where
    total : ℕ
    total = sizeof_data + size * count

    fits : u32 (sizeof_data + u32 (size * count)) ≡ total
    fits = omega arith

    memory : List ℕ
    memory = fresh junk 16 total

    stored : store 0 (le32 id) memory ≡ some (le32 id ++ drop 4 memory)
    stored = store-append 0 [] (le32 id) memory refl (omega (arith, length-fresh junk 16 total))

pub length-data_message :
    (junk : ℕ → ℕ) (size count id : ℕ)
    → length (data_message junk size count id).payload ≡ sizeof_data + size * count
length-data_message junk size count id = omega (
  arith,
  length-drop 4 (fresh junk 16 (sizeof_data + size * count)),
  length-fresh junk 16 (sizeof_data + size * count),
)

-- A data message that is built for `count` blocks of `size` bytes is valid for that block size, has
-- room for exactly those blocks behind its identifier, and gives back the count and the identifier,
-- if the whole message fits the 32-bit size field.
pub new_data-Carries :
    (junk : ℕ → ℕ) (size count id : ℕ)
    → 12 + size * count < u32_mod
    → 0 < size
    → id < u32_mod
    → (m : Message) × (new_data junk size count id ≡ some m) × Carries m size count id
new_data-Carries junk size count id small pos word = (
  data_message junk size count id,
  new_data_lem junk size count id small,
  Carries-of (data_message junk size count id) size count id refl sized (omega (arith, sized))
      (omega (arith, sized, length-data_message junk size count id))
      (first32-le32 id (drop 4 (fresh junk 16 (sizeof_data + size * count))) word) small pos,
)
  where
    sized : u32 (sizeof_data + size * count) ≡ sizeof_data + size * count
    sized = omega arith

-- A configuration response of either status passes its test and gives the status back.
new_config_resp-valid :
    (junk : ℕ → ℕ) (status : ConfigRespStatus)
    → (m : Message) × (new_config_resp junk status ≡ some m)
      × (is_valid_config_resp m ≡ some true)
      × (resp_status m ≡ some (status_code status))
unfolding new_config_resp is_valid_config_resp fresh store load
new_config_resp-valid junk success = (_, refl, refl, refl)
new_config_resp-valid junk error = (_, refl, refl, refl)
