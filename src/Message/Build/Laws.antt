-- ===== src/Message/Build/Laws.antt =====
-- What the memory of a freshly built message holds (server/Message.hpp, `new_config`, `new_data`,
-- `new_config_resp`).
use mathlib.Core.List.{append_assoc, append-nil}
use distributed_computing_fr.Prelude.{
  ℕ, zero, suc, ◌+◌, ◌*◌, ◌≤◌, ◌<◌, ◌≡◌, refl, sym, ap, ◌∙◌, some, List, [], ◌∷◌, ◌++◌, length,
  drop, length-append, length-drop, arith, u32, u32_mod, le32, store, store-append, load_all,
  drop-drop,
}
use distributed_computing_fr.Message.{
  Message, BlockInfo, config, sizeof_config, sizeof_block_info, type_code, get_rbf_offset,
}
use distributed_computing_fr.Message.Build.{
  fresh, allocate, reserved_bytes, block_bytes, store_blocks, store_words, store_rbf, new_config,
}

abbrev pub blocks_bytes : List BlockInfo → List ℕ
blocks_bytes [] = []
blocks_bytes (b ∷ bs) = block_bytes b ++ blocks_bytes bs

-- The payload of a configuration: its three words, the blocks and the bit stream.
abbrev pub config_image : ℕ → ℕ → List BlockInfo → List ℕ → List ℕ
config_image input_size output_size blocks rest =
    le32 input_size ++ (le32 output_size ++ (le32 (length blocks) ++ (blocks_bytes blocks ++ rest)))

pub length-fresh : (junk : ℕ → ℕ) (i n : ℕ) → length (fresh junk i n) ≡ n
unfolding fresh
length-fresh junk i zero = refl
length-fresh junk i (suc n) = ap suc (length-fresh junk (i + 1) n)

pub length-block_bytes : (b : BlockInfo) → length (block_bytes b) ≡ 12
unfolding block_bytes
length-block_bytes b = refl

pub length-blocks_bytes : (bs : List BlockInfo) → length (blocks_bytes bs) ≡ length bs * 12
length-blocks_bytes [] = refl
length-blocks_bytes (b ∷ bs) = omega (
  arith,
  length-blocks_bytes bs,
  length-append (block_bytes b) (blocks_bytes bs),
  length-block_bytes b,
)

-- The loop over the blocks writes them one after the other.
pub store_blocks_lem :
    (i : ℕ) (bs : List BlockInfo) (pre rest : List ℕ)
    → length pre ≡ sizeof_config + i * sizeof_block_info
    → length bs * 12 ≤ length rest
    → store_blocks i bs (pre ++ rest)
      ≡ some (pre ++ (blocks_bytes bs ++ drop (length bs * 12) rest))
unfolding store_blocks
store_blocks_lem i [] pre rest e h = refl
store_blocks_lem i (b ∷ bs) pre rest e h =
    rw
      (store-append (sizeof_config + i * sizeof_block_info) pre (block_bytes b) rest e
        (omega (arith, length-block_bytes b)))
      (rw (length-block_bytes b) (
        ap (store_blocks (i + 1) bs) (sym (append_assoc pre (block_bytes b) (drop 12 rest)))
        ∙ store_blocks_lem (i + 1) bs (pre ++ block_bytes b) (drop 12 rest)
            (omega (arith, length-append pre (block_bytes b), length-block_bytes b))
            (omega (arith, length-drop 12 rest))
        ∙ ap some (append_assoc pre (block_bytes b) _ ∙ ap (◌++◌ pre) regroup)))
  where
    skip : drop (length bs * 12) (drop 12 rest) ≡ drop (suc (length bs) * 12) rest
    skip = sym (drop-drop 12 (length bs * 12) rest) ∙ ap (λ (k : ℕ). drop k rest) (omega arith)

    regroup :
        block_bytes b ++ (blocks_bytes bs ++ drop (length bs * 12) (drop 12 rest))
        ≡ (block_bytes b ++ blocks_bytes bs) ++ drop (suc (length bs) * 12) rest
    regroup = rw (skip, append_assoc) refl

-- get_rbf_offset of the image
pub get_rbf_offset-image :
    (m : Message) (input_size output_size : ℕ) (bs : List BlockInfo) (rest : List ℕ)
    → m.payload ≡ config_image input_size output_size bs rest
    → length bs * 12 < u32_mod
    → get_rbf_offset m ≡ some (length bs * 12)
unfolding get_rbf_offset
get_rbf_offset-image m i o bs rest e h = rw e (ap some (omega arith))

-- The three words at the start of the payload.
store_words_lem :
    (a b c : ℕ) (mem : List ℕ)
    → 12 ≤ length mem
    → store_words a b c mem ≡ some ((le32 a ++ (le32 b ++ le32 c)) ++ drop 12 mem)
unfolding store_words
store_words_lem a b c mem h = rw (store-append 0 [] (le32 a) mem refl (omega arith)) (
    rw (store-append 4 (le32 a) (le32 b) (drop 4 mem) refl (omega (arith, length-drop 4 mem))) (
      rw (drop-drop 4 8 mem, drop-drop 4 4 (drop 4 mem))
        (store-append 8 (le32 a ++ le32 b) (le32 c) (drop 4 (drop 4 mem)) refl
          (omega (arith, length-drop 4 mem, length-drop 4 (drop 4 mem))))))

drop_all : (n : ℕ) (xs : List ℕ) → length xs ≤ n → drop n xs ≡ []
drop_all zero [] h = refl
drop_all zero (x ∷ xs) h = absurd (omega arith)
drop_all (suc n) [] h = refl
drop_all (suc n) (x ∷ xs) h = drop_all n xs (omega arith)

-- The copy of the bit stream fills the rest of the payload.
store_rbf_lem :
    (m : Message) (input_size output_size : ℕ) (bs : List BlockInfo) (rest rbf : List ℕ)
    → m.payload ≡ config_image input_size output_size bs rest
    → length bs * 12 < u32_mod
    → length rest ≡ length rbf
    → store_rbf (some rbf) (length rbf) m
      ≡ some (record m { payload = config_image input_size output_size bs rbf })
unfolding store_rbf
store_rbf_lem m i o bs rest rbf e small same =
    rw (get_rbf_offset-image m i o bs rest e small) (rw (load_all rbf) (rw stored refl))
  where
    words : List ℕ
    words = le32 i ++ (le32 o ++ le32 (length bs))

    stored : store (12 + length bs * 12) rbf m.payload ≡ some (config_image i o bs rbf)
    stored =
        ap (store (12 + length bs * 12) rbf) (e ∙ sym (append_assoc words (blocks_bytes bs) rest))
        ∙ store-append (12 + length bs * 12) (words ++ blocks_bytes bs) rbf rest
            (omega (arith, length-append words (blocks_bytes bs), length-blocks_bytes bs))
            (omega arith)
        ∙ ap some (
            append_assoc words (blocks_bytes bs) _
            ∙ ap (λ (x : List ℕ). words ++ (blocks_bytes bs ++ x))
                (ap (◌++◌ rbf) (drop_all (length rbf) rest (omega arith)) ∙ append-nil rbf))

-- A configuration is laid out as the header says, and no store of its construction leaves the
-- allocation.
pub new_config_lem :
    (junk : ℕ → ℕ) (blocks : List BlockInfo) (input_size output_size : ℕ) (rbf : List ℕ)
    → sizeof_config + length blocks * sizeof_block_info + length rbf < u32_mod
    → new_config junk blocks input_size output_size (some rbf) (length rbf)
      ≡ some (record {
        alloc_size = 16 + (sizeof_config + length blocks * sizeof_block_info + length rbf);
        header = record {
          type = type_code config;
          reserved = reserved_bytes junk;
          payload_size = sizeof_config + length blocks * sizeof_block_info + length rbf;
        };
        payload = config_image input_size output_size blocks rbf;
      })
unfolding new_config
new_config_lem junk blocks i o rbf small =
    rw (store_words_lem i o (length blocks) memory (omega (arith, sized))) (
      rw
        (store_blocks_lem 0 blocks words (drop 12 memory) refl
          (omega (arith, sized, length-drop 12 memory)))
        (rw
          (store_rbf_lem built i o blocks rest rbf refl (omega arith) (
            omega (
              arith,
              sized,
              length-drop 12 memory,
              length-drop (length blocks * 12) (drop 12 memory),
            )))
          (rw fits refl)))
  where
    size : ℕ
    size = sizeof_config + length blocks * sizeof_block_info + length rbf

    memory : List ℕ
    memory = fresh junk 16 size

    words : List ℕ
    words = le32 i ++ (le32 o ++ le32 (length blocks))

    rest : List ℕ
    rest = drop (length blocks * 12) (drop 12 memory)

    built : Message
    built = record (allocate junk config size) { payload = config_image i o blocks rest }

    sized : length memory ≡ size
    sized = length-fresh junk 16 size

    fits : u32 size ≡ size
    fits = omega arith
