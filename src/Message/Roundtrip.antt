-- ===== src/Message/Roundtrip.antt =====
-- Reading back what the constructors of server/Message.hpp have written.
use mathlib.Core.List.{append_assoc, append-nil}
use native.Mathlib.Nat.{add_assoc}
use distributed_computing_fr.Prelude.{
  ℕ, zero, suc, ◌+◌, ◌*◌, ◌≤◌, ◌<◌, ◌≡◌, refl, sym, ap, ap₂, ◌∙◌, true, some, List, [], ◌∷◌, ◌++◌,
  length, length-append, get_elem?, arith, u32_mod, le32, first32-le32, le32_sum, read32-append,
  load, load-append,
}
use distributed_computing_fr.Message.{
  Message, BlockInfo, read_block, is_valid_config, config_input_size, config_output_size,
  config_num_blocks, get_block_info, get_rbf, get_rbf_size, get_rbf_offset, sizeof_config,
  sizeof_block_info, type_code, config,
}
use distributed_computing_fr.Message.Build.{block_bytes, new_config}
use distributed_computing_fr.Message.Bounds.{get_rbf_size_of}
use distributed_computing_fr.Message.Build.Laws.{
  blocks_bytes, config_image, new_config_lem, length-blocks_bytes, length-block_bytes,
  get_rbf_offset-image,
}

-- The fields of every block are `uint32_t`.
abbrev pub AreWords : List BlockInfo → Type 0
AreWords [] = Unit
AreWords (b ∷ bs) =
    (b.control_base < u32_mod) × (b.input_base < u32_mod) × (b.output_base < u32_mod) × AreWords bs

-- What a configuration message says, as the accessors read it.
pub record Configures (m : Message) (blocks : List BlockInfo) (input_size output_size : ℕ)
    (rbf : List ℕ) : Type 0 where
  pub valid : is_valid_config m ≡ some true
  pub input : config_input_size m ≡ some input_size
  pub output : config_output_size m ≡ some output_size
  pub count : config_num_blocks m ≡ some (length blocks)
  pub block : (i : ℕ) → i < length blocks → get_block_info m i ≡ get_elem? blocks i
  pub stream_size : get_rbf_size m ≡ some (length rbf)
  pub stream : get_rbf m ≡ some rbf

read_block-append :
    (pre rest : List ℕ) (i : ℕ) → read_block (pre ++ rest) (length pre + i) ≡ read_block rest i
unfolding read_block
read_block-append pre rest i = rw (
  add_assoc (length pre) i 4,
  add_assoc (length pre) i 8,
  read32-append pre rest i,
  read32-append pre rest (i + 4),
  read32-append pre rest (i + 8),
)

read_block-block_bytes :
    (b : BlockInfo) (rest : List ℕ)
    → b.control_base < u32_mod
    → b.input_base < u32_mod
    → b.output_base < u32_mod
    → read_block (block_bytes b ++ rest) 0 ≡ some b
unfolding read_block block_bytes
read_block-block_bytes b rest hc hi ho = ap some (λ i. record {
  control_base = le32_sum b.control_base hc i;
  input_base = le32_sum b.input_base hi i;
  output_base = le32_sum b.output_base ho i;
})

-- The blocks, read by index.
read_block-blocks_bytes :
    (i : ℕ) (bs : List BlockInfo) (rest : List ℕ)
    → AreWords bs
    → i < length bs
    → read_block (blocks_bytes bs ++ rest) (i * 12) ≡ get_elem? bs i
read_block-blocks_bytes i [] rest w h = absurd (omega arith)
read_block-blocks_bytes zero (b ∷ bs) rest w h =
    rw append_assoc (read_block-block_bytes b (blocks_bytes bs ++ rest) w.0 w.1 w.2)
read_block-blocks_bytes (suc i) (b ∷ bs) rest w h =
    ap₂ read_block (append_assoc (block_bytes b) (blocks_bytes bs) rest) shift
    ∙ read_block-append (block_bytes b) (blocks_bytes bs ++ rest) (i * 12)
    ∙ read_block-blocks_bytes i bs rest w.3 (omega arith)
  where
    shift : suc i * 12 ≡ length (block_bytes b) + i * 12
    shift = rw (length-block_bytes b) (omega arith)

valid_of_count :
    (m : Message) (n : ℕ)
    → m.header.type ≡ type_code config
    → config_num_blocks m ≡ some n
    → sizeof_config + n * sizeof_block_info ≤ m.header.payload_size
    → m.alloc_size ≡ 16 + m.header.payload_size
    → 8 + m.header.payload_size < u32_mod
    → is_valid_config m ≡ some true
unfolding is_valid_config
valid_of_count m n t c fits al small = ground arith

get_rbf_of :
    (m : Message) (pre rbf : List ℕ) (offset : ℕ)
    → get_rbf_offset m ≡ some offset
    → get_rbf_size m ≡ some (length rbf)
    → length pre ≡ sizeof_config + offset
    → m.payload ≡ pre ++ rbf
    → get_rbf m ≡ some rbf
unfolding get_rbf
get_rbf_of m pre rbf offset at_offset sized l e =
    rw (at_offset, sized)
      (ap (load (12 + offset) (length rbf)) (e ∙ ap (◌++◌ pre) (sym (append-nil rbf)))
        ∙ load-append (12 + offset) (length rbf) pre rbf [] l refl)

-- A message whose payload is the image of a configuration, and whose allocation is right.
image-Configures :
    (m : Message) (blocks : List BlockInfo) (i o : ℕ) (rbf : List ℕ)
    → m.header.type ≡ type_code config
    → m.header.payload_size ≡ sizeof_config + length blocks * sizeof_block_info + length rbf
    → m.alloc_size ≡ 16 + m.header.payload_size
    → m.payload ≡ config_image i o blocks rbf
    → 20 + length blocks * sizeof_block_info + length rbf < u32_mod
    → i < u32_mod
    → o < u32_mod
    → AreWords blocks
    → Configures m blocks i o rbf
image-Configures m blocks i o rbf t ps al e small hi ho ws = record {
  valid = valid_of_count m (length blocks) t counted (omega arith) al (omega arith);
  input = rw e (first32-le32 i (le32 o ++ (le32 (length blocks) ++ rest)) hi);
  output = rw e (first32-le32 o (le32 (length blocks) ++ rest) ho);
  count = counted;
  block = λ k h.
      rw e (read_block-append words rest (k * 12) ∙ read_block-blocks_bytes k blocks rbf ws h);
  stream_size = sized;
  stream =
      get_rbf_of m (words ++ blocks_bytes blocks) rbf (length blocks * 12) offset sized laid
        (e ∙ sym (append_assoc words (blocks_bytes blocks) rbf));
}
  where
    rest : List ℕ
    rest = blocks_bytes blocks ++ rbf

    words : List ℕ
    words = le32 i ++ (le32 o ++ le32 (length blocks))

    counted : config_num_blocks m ≡ some (length blocks)
    counted = rw e (first32-le32 (length blocks) rest (omega arith))

    offset : get_rbf_offset m ≡ some (length blocks * 12)
    offset = get_rbf_offset-image m i o blocks rbf e (omega arith)

    sized : get_rbf_size m ≡ some (length rbf)
    sized =
        get_rbf_size_of m (length blocks * 12) (length rbf) offset (omega arith) ps (omega arith)

    laid : length (words ++ blocks_bytes blocks) ≡ 12 + length blocks * 12
    laid = omega (arith, length-append words (blocks_bytes blocks), length-blocks_bytes blocks)

-- A configuration message that the server or a client builds is valid, and its accessors give back
-- the sizes, every block and the bit stream that it was built from, if all of it fits a message.
-- No store of the construction leaves the allocation.
pub new_config-Configures :
    (junk : ℕ → ℕ) (blocks : List BlockInfo) (input_size output_size : ℕ) (rbf : List ℕ)
    → 20 + length blocks * sizeof_block_info + length rbf < u32_mod
    → input_size < u32_mod
    → output_size < u32_mod
    → AreWords blocks
    → (m : Message) × (new_config junk blocks input_size output_size (some rbf) (length rbf)
        ≡ some m)
      × Configures m blocks input_size output_size rbf
new_config-Configures junk blocks i o rbf small hi ho ws = (
  _,
  new_config_lem junk blocks i o rbf (omega arith),
  image-Configures _ blocks i o rbf refl refl (omega arith) refl small hi ho ws,
)
