-- ===== src/Block/Work.antt =====
-- utils/src/Block.cpp, `Block::work`, and utils/include/utils.hpp: a block of the FPGA computes the data
-- of an input queue into an output queue. The address space of the FPGA is a parameter, a state with
-- reads and writes of bytes; `none` is an access outside a buffer, or a wait that does not end.
use Prim.Native.Nat.{bit_and}
use distributed_computing_fr.Prelude.{
  ℕ, zero, suc, ◌+◌, ◌*◌, ◌/◌, ◌≡◌, ◌==◌, if◌then◌else◌, Bool, Option, none, some, List, [], ◌∷◌,
  ◌++◌, load, store, ◌>>=◌, u32,
}
use distributed_computing_fr.Message.Build.{fresh}
use distributed_computing_fr.Container.{enqueue}
pub mod Laws
pub mod Served
pub mod Refines
pub mod Tests

pub record AddressSpace : Type 1 where
  pub State : Type 0
  pub write_bytes : ℕ → List ℕ → State → State
  pub read_bytes : ℕ → ℕ → State → List ℕ × State

pub record Port : Type 0 where
  pub address : ℕ
  pub size : ℕ

-- The addresses of a `Block`.
pub record BlockPorts : Type 0 where
  pub cr_addr : ℕ
  pub input_port : Port
  pub output_port : Port

unfoldable pub set_inputs : ℕ → ℕ → BlockPorts → BlockPorts
set_inputs address len ports = record ports {
  input_port = record { address = address; size = len };
}

unfoldable pub set_outputs : ℕ → ℕ → BlockPorts → BlockPorts
set_outputs address len ports = record ports {
  output_port = record { address = address; size = len };
}

pub record DataChunk : Type 0 where
  pub id : ℕ
  pub size : ℕ
  pub bytes : List ℕ

module _ (space : AddressSpace) (ports : BlockPorts) where
  open space use {State, write_bytes, read_bytes}

  abbrev pub start : State → State
  start s = write_bytes (ports.cr_addr + 0x8) (1 ∷ []) s

  -- `isDone`, of the byte at the address.
  abbrev pub done_bit : List ℕ → Bool
  done_bit [] = bit_and 0 0x02 / 2 == 1
  done_bit (b ∷ bs) = bit_and b 0x02 / 2 == 1

  -- `while (!isDone())`, of at most this many rounds.
  unfoldable pub wait_done : ℕ → State → Option State
  wait_done zero s = none
  wait_done (suc polls) s =
      let (bytes, s') = read_bytes (ports.cr_addr + 0x18) 1 s in
      let rest = wait_done polls s' in if done_bit bytes then some s' else rest

  -- The input is written, the block started and awaited, and its output read.
  unfoldable pub compute_one : ℕ → List ℕ → State → Option (List ℕ × State)
  compute_one polls input s = do
    finished ← wait_done polls (start (write_bytes ports.input_port.address input s))
    some (read_bytes ports.output_port.address ports.output_port.size finished)

  -- The loop over the data of a chunk, for `n` more from `a` on. The products are `uint32_t`.
  unfoldable pub compute_loop : ℕ → ℕ → ℕ → List ℕ → List ℕ → State → Option (List ℕ × State)
  compute_loop polls zero a coming going s = some (going, s)
  compute_loop polls (suc n) a coming going s = do
    input ← load (u32 (a * ports.input_port.size)) ports.input_port.size coming
    r ← compute_one polls input s
    going' ← store (u32 (a * ports.output_port.size)) r.0 going
    compute_loop polls n (a + 1) coming going' r.1

  -- From a chunk that was popped to the chunk that is pushed.
  unfoldable pub compute_chunk : ℕ → (ℕ → ℕ) → DataChunk → State → Option (DataChunk × State)
  compute_chunk polls junk coming s = do
    let going = fresh junk 0 (u32 (coming.size * ports.output_port.size))
    r ← compute_loop polls coming.size 0 coming.bytes going s
    some (record { id = coming.id; size = coming.size; bytes = r.0 }, r.1)

  -- A round of `work` on the two queues: nothing, if the input queue is empty.
  unfoldable pub work_round :
      ℕ
      → (ℕ → ℕ)
      → List DataChunk
      → List DataChunk
      → State
      → Option (List DataChunk × (List DataChunk × State))
  work_round polls junk [] output_q s = some ([], (output_q, s))
  work_round polls junk (coming ∷ input_q) output_q s = do
    r ← compute_chunk polls junk coming s
    some (input_q, (enqueue r.0 output_q, r.1))

  -- So many rounds of `work`.
  unfoldable pub work :
      ℕ
      → (ℕ → ℕ)
      → ℕ
      → List DataChunk
      → List DataChunk
      → State
      → Option (List DataChunk × (List DataChunk × State))
  work polls junk zero input_q output_q s = some (input_q, (output_q, s))
  work polls junk (suc rounds) input_q output_q s = do
    r ← work_round polls junk input_q output_q s
    work polls junk rounds r.0 r.1.0 r.1.1
