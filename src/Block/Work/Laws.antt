-- ===== src/Block/Work/Laws.antt =====
-- utils/src/Block.cpp: what is assumed of a block on the FPGA, and that `Block::work` waits for it.
use distributed_computing_fr.Prelude.{
  true, false, ℕ, zero, suc, ◌+◌, ◌<◌, ◌≡◌, ap, some, List, [], ◌∷◌, length, arith,
}
use distributed_computing_fr.Block.Work.{AddressSpace, BlockPorts, done_bit, wait_done, compute_one}

-- The status register of a block says that it is busy this many times, and then that it is done.
abbrev pub FinishesIn : (space : AddressSpace) → BlockPorts → ℕ → space.State → space.State → Type 0
FinishesIn space ports zero s s' =
    let status = space.read_bytes (ports.cr_addr + 0x18) 1 s in
    (done_bit space ports status.0 ≡ true) × (status.1 ≡ s')
FinishesIn space ports (suc n) s s' =
    let status = space.read_bytes (ports.cr_addr + 0x18) 1 s in
    (done_bit space ports status.0 ≡ false) × FinishesIn space ports n status.1 s'

-- What the documentation of a block on the FPGA says: after an input of the right size was written to
-- its input port and then the start bit, it is done within a number of polls, and its output port
-- then holds a function of the input, of the right size.
pub record BlockLaws (space : AddressSpace) (ports : BlockPorts) (polls : ℕ)
    (compute : List ℕ → List ℕ) : Type 0 where
  pub computes :
      (input : List ℕ) (s : space.State)
      → length input ≡ ports.input_port.size
      → (n : ℕ) × (finished : space.State) × (s' : space.State) × (n < polls)
        × FinishesIn space ports n
            (space.write_bytes
              (ports.cr_addr + 0x8)
              (1 ∷ [])
              (space.write_bytes ports.input_port.address input s))
            finished
        × (space.read_bytes ports.output_port.address ports.output_port.size finished
            ≡ (compute input, s'))
  pub sized :
      (input : List ℕ)
      → length input ≡ ports.input_port.size
      → length (compute input) ≡ ports.output_port.size

wait_done-FinishesIn :
    (space : AddressSpace) (ports : BlockPorts) (n polls : ℕ) (s s' : space.State)
    → n < polls
    → FinishesIn space ports n s s'
    → wait_done space ports polls s ≡ some s'
unfolding wait_done
wait_done-FinishesIn space ports n zero s s' h finishes = elim h [ ]
wait_done-FinishesIn space ports zero (suc polls) s s' h (is_done, same) = rw is_done (ap some same)
wait_done-FinishesIn space ports (suc n) (suc polls) s s' h (busy, later) = rw busy (
    wait_done-FinishesIn space ports n polls (space.read_bytes (ports.cr_addr + 0x18) 1 s).1 s'
      (omega (arith, h)) later)

pub compute_one-computes :
    {space : AddressSpace} {ports : BlockPorts} {polls : ℕ} {compute : List ℕ → List ℕ}
    (laws : BlockLaws space ports polls compute) (input : List ℕ) (s : space.State)
    → length input ≡ ports.input_port.size
    → (s' : space.State) × (compute_one space ports polls input s ≡ some (compute input, s'))
unfolding compute_one
compute_one-computes {space = space} {ports = ports} {polls = polls} laws input s size =
    let (n, finished, s', soon, finishes, output) = laws.computes input s size in
    (s', rw (wait_done-FinishesIn space ports n polls _ finished soon finishes) (ap some output))
