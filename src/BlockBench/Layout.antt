-- ===== src/BlockBench/Layout.antt =====
-- test/main.cpp, `initEveryting`: where the blocks lie in the address space of the FPGA.
use distributed_computing_fr.Prelude.{
  ℕ, zero, suc, ◌+◌, ◌≤◌, ◌<◌, ◌≡◌, ap, ◌∙◌, subst, some, some_injective, get_elem?, arith,
}
use distributed_computing_fr.Block.Work.{BlockPorts}
use distributed_computing_fr.BlockBench.{h2f_range, block_ports, init_loop, init_everything}

get_elem?-init_loop :
    (base k i n : ℕ) (p : BlockPorts)
    → get_elem? (init_loop base k i) n ≡ some p
    → (n < k) × (block_ports base (i + n) ≡ p)
unfolding init_loop
get_elem?-init_loop base zero i n p e = absurd (ground (arith, e))
get_elem?-init_loop base (suc k) i zero p e =
    (omega arith, ap (block_ports base) (omega arith) ∙ some_injective e)
get_elem?-init_loop base (suc k) i (suc n) p e =
    let (small, same) = get_elem?-init_loop base k (i + 1) n p e in
    (omega (arith, small), ap (block_ports base) (omega arith) ∙ same)

-- The areas of two blocks in the order of their addresses, each before the next: input and output of
-- the first, input and output of the second, the registers of the second and those of the first.
abbrev pub IsLaidOut : ℕ → BlockPorts → BlockPorts → Type 0
IsLaidOut base p q =
    (base ≤ p.input_port.address)
    × (p.input_port.address + p.input_port.size ≤ p.output_port.address)
    × (p.output_port.address + p.output_port.size ≤ q.input_port.address)
    × (q.input_port.address + q.input_port.size ≤ q.output_port.address)
    × (q.output_port.address + q.output_port.size ≤ q.cr_addr)
    × (q.cr_addr + 0x20 ≤ p.cr_addr)
    × (p.cr_addr + 0x20 ≤ base + h2f_range)

block_ports-IsLaidOut :
    (base i j : ℕ) → i < j → j < 11 → IsLaidOut base (block_ports base i) (block_ports base j)
unfolding block_ports
block_ports-IsLaidOut base i j h small =
    (omega arith, omega arith, omega arith, omega arith, omega arith, omega arith, omega arith)

-- No two areas of the test program's blocks overlap, inputs, outputs or registers, and all lie in the
-- range that it maps: for any two of its blocks the six areas follow one another.
pub init_everything-IsLaidOut :
    (base i j : ℕ) (p q : BlockPorts)
    → get_elem? (init_everything base) i ≡ some p
    → get_elem? (init_everything base) j ≡ some q
    → i < j
    → IsLaidOut base p q
unfolding init_everything
init_everything-IsLaidOut base i j p q ep eq h =
    let (small, same) = get_elem?-init_loop base 11 0 j q eq in
    let (_, same') = get_elem?-init_loop base 11 0 i p ep in
    subst (λ q. IsLaidOut base p q) same
      (subst (λ p. IsLaidOut base p (block_ports base (0 + j))) same'
        (block_ports-IsLaidOut base (0 + i) (0 + j) (omega arith) (omega arith)))
