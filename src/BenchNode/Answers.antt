-- ===== src/BenchNode/Answers.antt =====
-- server/test_node.cpp, `processing_loop`: what an answer carries, and when its copy leaves the output.
use native.Mathlib.Nat.{mul-le-mul_right}
use distributed_computing_fr.Prelude.{
  ℕ, ◌+◌, ◌*◌, ◌<◌, ◌≤◌, ◌≡◌, refl, sym, ap, subst, ◌∙◌, none, some, List, [], ◌∷◌, ◌++◌, length,
  length-append, length-take, length-drop, take, drop, arith, leb, read32, first32, load, store,
  load-some, load-append, u32_mod, Bool-cases, Option-cases, inl, inr, leb→le, some_injective,
}
use distributed_computing_fr.Message.{
  Message, is_valid_data_for, is_valid_data, is_valid_message, get_data_size, get_data_block_count,
}
use distributed_computing_fr.Message.Build.{new_data}
use distributed_computing_fr.Message.Data.{
  Carries, new_data-Carries, data_message, new_data_lem, length-data_message,
}
use distributed_computing_fr.Connection.Framing.{IsWhole}
use distributed_computing_fr.BenchNode.{answer}

-- The memory of a message after eight bytes were copied behind its identifier.
abbrev pub overlaid : List ℕ → List ℕ → List ℕ
overlaid bytes mem = take 4 mem ++ (bytes ++ drop 12 mem)

pub store-overlaid :
    (bytes mem : List ℕ)
    → length bytes ≡ 8
    → 12 ≤ length mem
    → store 4 bytes mem ≡ some (overlaid bytes mem)
unfolding store
store-overlaid bytes mem l h = rw l (ground arith)

pub length-overlaid :
    (bytes mem : List ℕ)
    → length bytes ≡ 8
    → 12 ≤ length mem
    → length (overlaid bytes mem) ≡ length mem
length-overlaid bytes mem l h = omega (
  arith,
  l,
  length-append (take 4 mem) (bytes ++ drop 12 mem),
  length-append bytes (drop 12 mem),
  length-take 4 mem,
  length-drop 12 mem,
)

load-length : (i n : ℕ) (mem part : List ℕ) → load i n mem ≡ some part → length part ≡ n
unfolding load
load-length i n mem part e = elim (Bool-cases (leb (i + n) (length mem))) [
  | inl inside ↦
      ap length (sym (some_injective (rw (inside, load) at e)))
      ∙ omega
          (arith, leb→le (i + n) (length mem) inside, length-take n (drop i mem), length-drop i mem)
  | inr outside ↦ absurd (ground (arith, e, outside))
]

store-outside : (i : ℕ) (src mem : List ℕ) → length mem < i + length src → store i src mem ≡ none
unfolding store
store-outside i src mem h = ground arith

-- The first word is read from the first four bytes alone.
pub first32-take : (mem rest : List ℕ) → 4 ≤ length mem → first32 (take 4 mem ++ rest) ≡ first32 mem
first32-take [] rest h = absurd (omega arith)
first32-take (a ∷ []) rest h = absurd (omega arith)
first32-take (a ∷ b ∷ []) rest h = absurd (omega arith)
first32-take (a ∷ b ∷ c ∷ []) rest h = absurd (omega arith)
first32-take (a ∷ b ∷ c ∷ d ∷ mem) rest h = refl

-- Other data behind the identifier leaves what a message carries.
pub Carries-payload :
    (m : Message) (payload : List ℕ) (size count id : ℕ)
    → Carries m size count id
    → read32 payload 0 ≡ read32 m.payload 0
    → length payload ≡ length m.payload
    → Carries (record m { payload = payload }) size count id
unfolding is_valid_data_for is_valid_data is_valid_message get_data_size get_data_block_count
Carries-payload m payload size count id h same_id same_length = record {
  valid = h.valid;
  data_size = h.data_size;
  blocks = h.blocks;
  identifier = same_id ∙ h.identifier;
  room = same_length ∙ h.room;
}

pub IsWhole-payload :
    (m : Message) (payload : List ℕ)
    → IsWhole m
    → length payload ≡ length m.payload
    → IsWhole (record m { payload = payload })
unfolding is_valid_message
IsWhole-payload m payload h same = record {
  valid = h.valid;
  allocated = h.allocated;
  word = h.word;
  three = h.three;
  filled = same ∙ h.filled;
}

data_message-IsWhole :
    (junk : ℕ → ℕ) (size count id : ℕ)
    → 12 + size * count < u32_mod
    → IsWhole (data_message junk size count id)
unfolding is_valid_message
data_message-IsWhole junk size count id small = record {
  valid = ground arith;
  allocated = omega arith;
  word = omega arith;
  three = refl;
  filled = omega (arith, length-data_message junk size count id);
}

pub new_data-IsWhole :
    (junk : ℕ → ℕ) (size count id : ℕ)
    → 12 + size * count < u32_mod
    → 0 < size
    → id < u32_mod
    → (m : Message) × (new_data junk size count id ≡ some m) × Carries m size count id × IsWhole m
new_data-IsWhole junk size count id small pos word =
    let (m, built, kept) = new_data-Carries junk size count id small pos word in
    (
      m,
      built,
      kept,
      subst IsWhole (some_injective (sym (new_data_lem junk size count id small) ∙ built))
          (data_message-IsWhole junk size count id small),
    )

answer_of :
    (junk : ℕ → ℕ) (input_size output_size count id : ℕ) (input output : Message)
    (bytes payload : List ℕ)
    → get_data_block_count input input_size ≡ some count
    → read32 input.payload 0 ≡ some id
    → new_data junk output_size count id ≡ some output
    → load 4 8 input.payload ≡ some bytes
    → store 4 bytes output.payload ≡ some payload
    → answer junk input_size output_size input ≡ some (record output { payload = payload })
unfolding answer
answer_of junk input_size output_size count id input output bytes payload e f g h k =
    rw (e, f, g, h, k) refl

-- The node's answer to an input of `count` blocks carries `count` blocks of the output size, with the
-- input's identifier and the first eight bytes of its data, if those fit the output: so it passes the
-- test of the server's receiver loop. No access of the node leaves a message.
pub answer-Carries :
    (junk : ℕ → ℕ) (input_size output_size count id : ℕ) (input : Message)
    → Carries input input_size count id
    → id < u32_mod
    → 12 + input_size * count < u32_mod
    → output_size ≤ input_size
    → 0 < output_size
    → 8 ≤ output_size * count
    → (m : Message) × (answer junk input_size output_size input ≡ some m)
      × Carries m output_size count id
      × (load 4 8 m.payload ≡ load 4 8 input.payload)
      × IsWhole m
answer-Carries junk input_size output_size count id input carries word small le pos eight =
    let smaller : output_size * count ≤ input_size * count = mul-le-mul_right count le in
    let (output, built, kept, whole) =
      new_data-IsWhole junk output_size count id (omega (arith, smaller)) pos word in
    let (bytes, loaded, sized) =
      load-some 4 8 input.payload (omega (arith, carries.room, smaller)) in
    (
      record output { payload = overlaid bytes output.payload },
      answer_of junk input_size output_size count id input output bytes
          (overlaid bytes output.payload) carries.blocks carries.identifier built loaded
          (store-overlaid bytes output.payload sized (omega (arith, kept.room))),
      Carries-payload output (overlaid bytes output.payload) output_size count id kept
          (first32-take output.payload (bytes ++ drop 12 output.payload) (omega (arith, kept.room)))
          (length-overlaid bytes output.payload sized (omega (arith, kept.room))),
      load-append 4 8 (take 4 output.payload) bytes (drop 12 output.payload)
            (omega (arith, kept.room, length-take 4 output.payload)) sized
          ∙ sym loaded,
      IsWhole-payload output (overlaid bytes output.payload) whole
          (length-overlaid bytes output.payload sized (omega (arith, kept.room))),
    )

answer_of_short :
    (junk : ℕ → ℕ) (input_size output_size count id : ℕ) (input output : Message)
    → get_data_block_count input input_size ≡ some count
    → read32 input.payload 0 ≡ some id
    → new_data junk output_size count id ≡ some output
    → length output.payload < 12
    → answer junk input_size output_size input ≡ none
unfolding answer
answer_of_short junk input_size output_size count id input output e f g short =
    elim (Option-cases (load 4 8 input.payload)) [
      | inl outside ↦ rw (e, f, g, outside) refl
      | inr (bytes, loaded) ↦
          rw (e, f, g, loaded)
            (rw
              (store-outside 4 bytes output.payload
                (omega (arith, load-length 4 8 input.payload bytes loaded, short)))
              refl)
    ]

-- When the blocks of the output have fewer than eight bytes together, the copy of the first eight bytes
-- leaves the output's allocation, or the input's.
answer-overflow :
    (junk : ℕ → ℕ) (input_size output_size count id : ℕ) (input : Message)
    → Carries input input_size count id
    → id < u32_mod
    → 0 < output_size
    → output_size * count < 8
    → answer junk input_size output_size input ≡ none
answer-overflow junk input_size output_size count id input carries word pos few =
    let (output, built, kept) =
      new_data-Carries junk output_size count id (omega (arith, few)) pos word in
    answer_of_short junk input_size output_size count id input output carries.blocks
      carries.identifier built (omega (arith, kept.room, few))
