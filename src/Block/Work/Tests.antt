-- ===== src/Block/Work/Tests.antt =====
-- utils/src/Block.cpp, `Block::work`, on a block that adds one to a byte.
use distributed_computing_fr.Prelude.{
  ℕ, ◌+◌, ◌≡◌, refl, some, List, [], ◌∷◌, map, ◌==◌, if◌then◌else◌, arith,
}
use distributed_computing_fr.Block.Work.{AddressSpace, BlockPorts, wait_done, compute_one, work}
use distributed_computing_fr.Block.Work.Laws.{BlockLaws}
use distributed_computing_fr.Block.Work.Served.{Batch, chunk}
use distributed_computing_fr.Block.Work.Refines.{serve_all, AllBatches, work-Refines}

abbrev first_byte : List ℕ → ℕ
first_byte [] = 0
first_byte (b ∷ bs) = b

-- The state is the byte at the input port.
abbrev adder : AddressSpace
adder = record {
  State = ℕ;
  write_bytes = λ address bytes s. if address == 100 then first_byte bytes else s;
  read_bytes = λ address n s. if address == 24 then (2 ∷ [], s) else ((s + 1) ∷ [], s);
}

abbrev adder_ports : BlockPorts
adder_ports = record {
  cr_addr = 0;
  input_port = record { address = 100; size = 1 };
  output_port = record { address = 200; size = 1 };
}

abbrev add_one : List ℕ → List ℕ
add_one bytes = (first_byte bytes + 1) ∷ []

adder_laws : BlockLaws adder adder_ports 1 add_one
unfolding compute_one wait_done
adder_laws = record {
  computes = λ input s h. (0, first_byte input, first_byte input, omega arith, (refl, refl), refl);
  sized = λ input h. refl;
}

abbrev two_batches : List Batch
two_batches =
    record { id = 5; data_sets = (10 ∷ []) ∷ (20 ∷ []) ∷ [] }
    ∷ record { id = 6; data_sets = [] }
    ∷ []

two_batches-AllBatches : AllBatches adder_ports two_batches
two_batches-AllBatches =
    (((refl, (refl, tt)), omega arith, omega arith), ((tt, omega arith, omega arith), tt))

work-Refines_example :
    (s' : ℕ) × (work adder adder_ports 1 (λ i. 0) 1 (map chunk two_batches) [] 0
      ≡ some (
        map chunk (serve_all add_one 1 two_batches []).0,
        (map chunk (serve_all add_one 1 two_batches []).1, s'),
      ))
work-Refines_example =
    work-Refines adder adder_ports 1 add_one (λ i. 0) 1 two_batches [] 0 adder_laws
      two_batches-AllBatches
