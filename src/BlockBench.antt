-- ===== src/BlockBench.antt =====
-- test/main.cpp: the program that measures eleven blocks of one FPGA. Its two threads are the one that
-- pushes the chunks and the one that sets the blocks going and pops the results; the times that they
-- measure are left out.
use distributed_computing_fr.Prelude.{
  ℕ, zero, suc, ◌+◌, ◌-◌, ◌*◌, ◌==◌, if◌then◌else◌, Option, none, some, List, [], ◌∷◌,
}
use distributed_computing_fr.Message.Build.{fresh}
use distributed_computing_fr.Container.{enqueue}
use distributed_computing_fr.Block.Work.{BlockPorts, DataChunk, set_inputs, set_outputs}
pub mod Layout
pub mod Sweep
pub mod Tests

-- `inputSize` and `outputSize`: two matrices, and one, of 64 times 64 words.
abbrev pub input_size : ℕ
input_size = 64 * 64 * 2 * 4

abbrev pub output_size : ℕ
output_size = 64 * 64 * 4

-- `DSize`, the number of inputs in a chunk.
abbrev pub d_size : ℕ
d_size = 4

-- `H2F_RANGE`, the size of the mapping at `h2f_virtual_base`.
abbrev pub h2f_range : ℕ
h2f_range = 0xFBFFFFFF - 0xC0000000

-- A block that was constructed; its ports have no first value, and are set before they are read.
abbrev pub new_block : ℕ → BlockPorts
new_block cra = record {
  cr_addr = cra;
  input_port = record { address = 0; size = 0 };
  output_port = record { address = 0; size = 0 };
}

-- The block at an index of `blocks`; that it is also stopped is the matter of Block/Stopping.
unfoldable pub block_ports : ℕ → ℕ → BlockPorts
unfolding set_inputs set_outputs
block_ports h2f_virtual_base i = set_outputs (h2f_virtual_base + i * 0xc000 + 0x8000) output_size (
    set_inputs (h2f_virtual_base + i * 0xc000) input_size
      (new_block (h2f_virtual_base + 0x84140 - i * 0x20)))

-- The loop of `initEveryting`, for so many blocks from the index `i` on.
unfoldable pub init_loop : ℕ → ℕ → ℕ → List BlockPorts
init_loop h2f_virtual_base zero i = []
init_loop h2f_virtual_base (suc k) i =
    block_ports h2f_virtual_base i ∷ init_loop h2f_virtual_base k (i + 1)

unfoldable pub init_everything : ℕ → List BlockPorts
init_everything h2f_virtual_base = init_loop h2f_virtual_base 11 0

-- A chunk of `receivingThread`; its data is what the allocation holds.
unfoldable pub test_chunk : (ℕ → ℕ) → ℕ → DataChunk
test_chunk junk i = record { id = i; size = d_size; bytes = fresh junk 0 (d_size * input_size) }

-- The inner loop of `receivingThread`, for so many chunks from the index `i` on.
unfoldable pub push_chunks : (ℕ → ℕ) → ℕ → ℕ → List DataChunk → List DataChunk
push_chunks junk zero i send_q = send_q
push_chunks junk (suc k) i send_q = push_chunks junk k (i + 1) (enqueue (test_chunk junk i) send_q)

-- The inner loop of `sendingT`, over what it finds in the queue of the results: `none` in the list is a
-- look at an empty queue. It ends with the `in_size`-th result; otherwise it goes on looking.
unfoldable pub collect : ℕ → ℕ → List (Option DataChunk) → Option (List (Option DataChunk))
collect in_size count2 [] = none
collect in_size count2 (none ∷ looks) =
    let rest = collect in_size count2 looks in if count2 == in_size then some looks else rest
collect in_size count2 (some chunk ∷ looks) =
    let rest = collect in_size (count2 + 1) looks in
    if count2 + 1 == in_size then some looks else rest
