-- ===== src/BlockBench/Tests.antt =====
-- The blocks and the sweeps of test/main.cpp, on a block that gives its input's first half back.
use distributed_computing_fr.Prelude.{
  ℕ, ◌+◌, ◌≡◌, refl, Option, none, some, List, [], ◌∷◌, length, length-take, take, ◌==◌,
  if◌then◌else◌, arith,
}
use distributed_computing_fr.Block.Work.{AddressSpace, DataChunk, work}
use distributed_computing_fr.Block.Work.Laws.{BlockLaws}
use distributed_computing_fr.BlockBench.{
  output_size, block_ports, init_loop, init_everything, push_chunks,
}
use distributed_computing_fr.BlockBench.Layout.{IsLaidOut, init_everything-IsLaidOut}
use distributed_computing_fr.BlockBench.Sweep.{AreResults, work-AreResults}

init_everything-IsLaidOut_example : IsLaidOut 0 (block_ports 0 3) (block_ports 0 5)
unfolding init_everything init_loop
init_everything-IsLaidOut_example =
    init_everything-IsLaidOut 0 3 5 (block_ports 0 3) (block_ports 0 5) refl refl (omega arith)

-- The state is what was written to the input port of the block 0.
abbrev halving : AddressSpace
halving = record {
  State = List ℕ;
  write_bytes = λ address bytes s. if address == 0 then bytes else s;
  read_bytes = λ address n s. if address == 0x84158 then (2 ∷ [], s) else (take n s, s);
}

abbrev first_half : List ℕ → List ℕ
first_half bytes = take output_size bytes

halving_laws : BlockLaws halving (block_ports 0 0) 1 first_half
unfolding block_ports
halving_laws = record {
  computes = λ input s h. (0, input, input, omega arith, (refl, refl), refl);
  sized = λ input h. omega (arith, length-take output_size input, h);
}

work-AreResults_example :
    (outputs : List DataChunk) × (s' : List ℕ) × (work halving
        (block_ports 0 0)
        1
        (λ i. i)
        (2 + 1)
        (push_chunks (λ i. i) 2 0 [])
        []
        []
      ≡ some ([], (outputs, s')))
    × (length outputs ≡ 2)
    × AreResults 0 outputs
work-AreResults_example = work-AreResults halving 0 0 1 first_half (λ i. i) 2 1 [] halving_laws

abbrev result : DataChunk
result = record { id = 0; size = 0; bytes = [] }

abbrev four_looks : List (Option DataChunk)
four_looks = none ∷ some result ∷ some result ∷ none ∷ []
