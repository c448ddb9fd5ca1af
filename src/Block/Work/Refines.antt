-- ===== src/Block/Work/Refines.antt =====
-- utils/src/Block.cpp, `Block::work`: the thread of a block, seen from its two queues, is a function
-- that is applied to each chunk.
use mathlib.Core.List.{append_assoc, append-nil, map-append}
use native.Mathlib.Nat.{suc-add}
use distributed_computing_fr.Prelude.{
  ℕ, zero, suc, ◌+◌, ◌≡◌, refl, sym, ap, ◌∙◌, some, List, [], ◌∷◌, ◌++◌, map, length,
}
use distributed_computing_fr.Container.Order.{enqueue_lem}
use distributed_computing_fr.Block.Work.{AddressSpace, BlockPorts, work, work_round}
use distributed_computing_fr.Block.Work.Laws.{BlockLaws}
use distributed_computing_fr.Block.Work.Served.{Batch, chunk, IsBatch, served, compute_chunk-served}

-- What the thread does to the queues: in each round the first batch goes from the one to the end of
-- the other, served.
abbrev pub serve_all : (List ℕ → List ℕ) → ℕ → List Batch → List Batch → List Batch × List Batch
serve_all compute zero inputs outputs = (inputs, outputs)
serve_all compute (suc rounds) [] outputs = serve_all compute rounds [] outputs
serve_all compute (suc rounds) (b ∷ inputs) outputs =
    serve_all compute rounds inputs (outputs ++ (served compute b ∷ []))

abbrev pub AllBatches : BlockPorts → List Batch → Type 0
AllBatches ports [] = Unit
AllBatches ports (b ∷ bs) = IsBatch ports b × AllBatches ports bs

-- If the block on the FPGA computes a function within a number of polls, and the chunks in the input
-- queue hold data of the size of its input port, in buffers smaller than 2^32, then any number of
-- rounds of `Block::work` runs through without an access outside a buffer, and the two queues hold
-- what serving the first batch of the input in each round gives.
pub work-Refines :
    (space : AddressSpace) (ports : BlockPorts) (polls : ℕ) (compute : List ℕ → List ℕ)
    (junk : ℕ → ℕ) (rounds : ℕ) (inputs outputs : List Batch) (s : space.State)
    → BlockLaws space ports polls compute
    → AllBatches ports inputs
    → (s' : space.State) × (work space ports polls junk rounds
          (map chunk inputs)
          (map chunk outputs)
          s
        ≡ some (
          map chunk (serve_all compute rounds inputs outputs).0,
          (map chunk (serve_all compute rounds inputs outputs).1, s'),
        ))
unfolding work work_round
work-Refines space ports polls compute junk zero inputs outputs s laws all = (s, refl)
work-Refines space ports polls compute junk (suc rounds) [] outputs s laws all =
    work-Refines space ports polls compute junk rounds [] outputs s laws all
work-Refines space ports polls compute junk (suc rounds) (b ∷ inputs) outputs s laws all =
    let (s₁, round) = compute_chunk-served laws junk b s all.0 in
    let (s₂, others) =
      work-Refines space ports polls compute junk rounds inputs (outputs ++ (served compute b ∷ []))
        s₁ laws all.1 in
    let queued =
      enqueue_lem (chunk (served compute b)) (map chunk outputs)
      ∙ sym (map-append chunk outputs (served compute b ∷ [])) in
    (s₂, rw (round, queued) others)

serve_none :
    (compute : List ℕ → List ℕ) (rounds : ℕ) (outputs : List Batch)
    → serve_all compute rounds [] outputs ≡ ([], outputs)
serve_none compute zero outputs = refl
serve_none compute (suc rounds) outputs = serve_none compute rounds outputs

serve_all_lem :
    (compute : List ℕ → List ℕ) (idle : ℕ) (inputs outputs : List Batch)
    → serve_all compute (length inputs + idle) inputs outputs
      ≡ ([], outputs ++ map (served compute) inputs)
serve_all_lem compute idle [] outputs =
    serve_none compute (0 + idle) outputs ∙ ap (λ l. ([], l)) (sym (append-nil outputs))
serve_all_lem compute idle (b ∷ inputs) outputs = rw (suc-add (length inputs) idle) (
    serve_all_lem compute idle inputs (outputs ++ (served compute b ∷ []))
    ∙ ap (λ l. ([], l))
        (append_assoc outputs (served compute b ∷ []) (map (served compute) inputs)))

-- Under the conditions of `work-Refines`, as many rounds as there are chunks in the input queue, or
-- more, empty it, and append each chunk's results to the output queue, in the order of the input.
pub work-Drains :
    (space : AddressSpace) (ports : BlockPorts) (polls : ℕ) (compute : List ℕ → List ℕ)
    (junk : ℕ → ℕ) (idle : ℕ) (inputs outputs : List Batch) (s : space.State)
    → BlockLaws space ports polls compute
    → AllBatches ports inputs
    → (s' : space.State) × (work space ports polls junk
          (length inputs + idle)
          (map chunk inputs)
          (map chunk outputs)
          s
        ≡ some ([], (map chunk (outputs ++ map (served compute) inputs), s')))
work-Drains space ports polls compute junk idle inputs outputs s laws all =
    let (s', ran) =
      work-Refines space ports polls compute junk (length inputs + idle) inputs outputs s laws
        all in
    (s', rw (serve_all_lem compute idle inputs outputs) at ran)
