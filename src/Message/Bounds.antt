-- ===== src/Message/Bounds.antt =====
-- server/Message.hpp: what the validity tests guarantee about the accesses that follow them, and
-- where they do not.
use distributed_computing_fr.Prelude.{
  ℕ, zero, suc, ◌+◌, ◌-◌, ◌*◌, ◌≤◌, ◌<◌, ◌≡◌, refl, ap, ◌∙◌, true, false, none, some, List, [], ◌∷◌,
  length, drop, arith, u32_mod, first32, read32-some, load, load-some, Bool-cases, Option-cases,
  inl, inr, ◌⊎◌,
}
use distributed_computing_fr.Message.{
  Message, BlockInfo, read_block, is_valid_message, is_valid_config, is_valid_data,
  is_valid_data_for, config_num_blocks, get_block_info, get_rbf, get_rbf_size, get_rbf_offset,
  get_data_size, sizeof_config, sizeof_block_info, sizeof_data, type_code, config,
}

-- The allocation has the size that its first word states.
abbrev pub IsAllocated : Message → Type 0
IsAllocated m = m.alloc_size ≡ 16 + length m.payload

-- A valid message has exactly the payload that its header announces.
pub valid-payload :
    (m : Message)
    → IsAllocated m
    → length m.payload + 8 < u32_mod
    → m.header.payload_size < u32_mod
    → is_valid_message m ≡ true
    → length m.payload ≡ m.header.payload_size
unfolding is_valid_message
valid-payload m al small small' v = ground arith

read_block-some :
    (mem : List ℕ) (base : ℕ)
    → base + 12 ≤ length mem
    → (b : BlockInfo) × (read_block mem base ≡ some b)
unfolding read_block
read_block-some mem base h =
    let (c, ec) = read32-some mem base (omega arith) in
    let (i, ei) = read32-some mem (base + 4) (omega arith) in
    let (o, eo) = read32-some mem (base + 8) (omega arith) in
    (record { control_base = c; input_base = i; output_base = o }, rw (ec, ei, eo) refl)

-- What a valid configuration gives.
valid_config_count :
    (m : Message)
    → is_valid_config m ≡ some true
    → (n : ℕ) × (config_num_blocks m ≡ some n)
      × (is_valid_message m ≡ true)
      × (sizeof_config + n * sizeof_block_info ≤ m.header.payload_size)
unfolding is_valid_config
valid_config_count m v = elim (Option-cases (config_num_blocks m)) [
  | inl e ↦ absurd (ground (arith, e))
  | inr (n, e) ↦ (n, e, ground (arith, e), ground (arith, e))
]

pub get_rbf_size_of :
    (m : Message) (offset n : ℕ)
    → get_rbf_offset m ≡ some offset
    → offset < u32_mod
    → m.header.payload_size ≡ sizeof_config + offset + n
    → m.header.payload_size < u32_mod
    → get_rbf_size m ≡ some n
unfolding get_rbf_size
get_rbf_size_of m offset n at_offset h e small = rw at_offset (ap some (omega arith))

get_rbf_offset_of :
    (m : Message) (n : ℕ)
    → config_num_blocks m ≡ some n
    → n * sizeof_block_info < u32_mod
    → get_rbf_offset m ≡ some (n * sizeof_block_info)
unfolding get_rbf_offset
get_rbf_offset_of m n e h = rw e (ap some (omega arith))

load_rbf :
    (m : Message) (offset n : ℕ)
    → get_rbf_offset m ≡ some offset
    → get_rbf_size m ≡ some n
    → get_rbf m ≡ load (sizeof_config + offset) n m.payload
unfolding get_rbf
load_rbf m offset n e f = rw (e, f)

-- The accesses that a message with `n` blocks allows: every block that is counted can be read, and
-- the bit stream is the rest of the payload, behind the last block and up to the allocation's end.
pub record Accesses (m : Message) (n : ℕ) : Type 0 where
  pub count : config_num_blocks m ≡ some n
  pub block : (i : ℕ) → i < n → (b : BlockInfo) × (get_block_info m i ≡ some b)
  pub offset : get_rbf_offset m ≡ some (n * sizeof_block_info)
  pub rbf : List ℕ
  pub stream : get_rbf m ≡ some rbf
  pub stream_size : get_rbf_size m ≡ some (length rbf)
  pub stream_end : sizeof_config + n * sizeof_block_info + length rbf ≡ length m.payload

Accesses-of_count :
    (m : Message) (n : ℕ)
    → config_num_blocks m ≡ some n
    → sizeof_config + n * sizeof_block_info ≤ length m.payload
    → length m.payload ≡ m.header.payload_size
    → m.header.payload_size < u32_mod
    → Accesses m n
Accesses-of_count m n counted fits exact small =
    let (bytes, loaded, sized) =
      load-some (12 + n * 12) (length m.payload - (12 + n * 12)) m.payload (omega arith) in
    record {
      count = counted;
      block = λ i h. read_block-some m.payload (12 + i * 12) (omega arith);
      offset = at_offset;
      rbf = bytes;
      stream =
          load_rbf m (n * 12) (length bytes) at_offset (measured bytes sized) ∙ rw sized loaded;
      stream_size = measured bytes sized;
      stream_end = omega arith;
    }
  where
    at_offset : get_rbf_offset m ≡ some (n * sizeof_block_info)
    at_offset = get_rbf_offset_of m n counted (omega arith)

    measured :
        (bytes : List ℕ)
        → length bytes ≡ length m.payload - (12 + n * 12)
        → get_rbf_size m ≡ some (length bytes)
    measured bytes sized =
        get_rbf_size_of m (n * 12) (length bytes) at_offset (omega arith) (omega arith) small

-- A configuration that passes the validity test, and whose allocation is as large as its first word
-- says and fits 32 bits, allows the accesses of as many blocks as it counts, and of its bit stream.
pub valid_config-Accesses :
    (m : Message)
    → IsAllocated m
    → length m.payload + 8 < u32_mod
    → m.header.payload_size < u32_mod
    → is_valid_config m ≡ some true
    → (n : ℕ) × Accesses m n
valid_config-Accesses m al small small' v =
    let (n, counted, valid, fits) = valid_config_count m v in
    let exact = valid-payload m al small small' valid in
    (n, Accesses-of_count m n counted (omega arith) exact small')

pub drop_short : (n : ℕ) (xs : List ℕ) → length xs < n + 4 → first32 (drop n xs) ≡ none
drop_short zero [] h = refl
drop_short zero (a ∷ []) h = refl
drop_short zero (a ∷ b ∷ []) h = refl
drop_short zero (a ∷ b ∷ c ∷ []) h = refl
drop_short zero (a ∷ b ∷ c ∷ d ∷ xs) h = absurd (omega arith)
drop_short (suc n) [] h = refl
drop_short (suc n) (x ∷ xs) h = drop_short n xs (omega arith)

-- The validity test of a configuration reads the block count before it knows that the payload holds
-- one: on a valid message of that type with a payload of less than twelve bytes it reads outside
-- the allocation.
pub is_valid_config-short :
    (m : Message)
    → is_valid_message m ≡ true
    → m.header.type ≡ type_code config
    → length m.payload < sizeof_config
    → is_valid_config m ≡ none
unfolding is_valid_config
is_valid_config-short m v t short = ground (arith, drop_short 8 m.payload)

-- A data message with less than the four bytes of its identifier is valid for blocks of one byte,
-- and its data size, computed on `uint32_t`, is larger than the payload.
get_data_size-short :
    (m : Message)
    → is_valid_data m ≡ true
    → m.header.payload_size < sizeof_data
    → (is_valid_data_for m 1 ≡ some true) × (m.header.payload_size < get_data_size m)
unfolding is_valid_data_for get_data_size
get_data_size-short m v short = (ground arith, omega arith)

-- With a block size of zero the test divides by zero on every data message, and on no other.
is_valid_data_for-zero :
    (m : Message)
    → ((is_valid_data_for m 0 ≡ none) × (is_valid_data m ≡ true))
      ⊎ ((is_valid_data_for m 0 ≡ some false) × (is_valid_data m ≡ false))
unfolding is_valid_data_for
is_valid_data_for-zero m = elim (Bool-cases (is_valid_data m)) [
  | inl e ↦ inl (rw (e, is_valid_data_for), e)
  | inr e ↦ inr (rw (e, is_valid_data_for), e)
]
