-- ===== src/BlockBench/Sweep.antt =====
-- test/main.cpp, `receivingThread` and `sendingT`: a sweep of chunks through a block.
use mathlib.Core.List.{append_assoc, append-nil}
use distributed_computing_fr.Prelude.{
  ℕ, zero, suc, ◌+◌, ◌*◌, ◌≤◌, ◌<◌, ◌≡◌, refl, sym, ap, ◌∙◌, Bool, true, false, Option, none, some,
  List, [], ◌∷◌, ◌++◌, map, length, length-map, length-take, length-drop, take, drop,
  take-append-drop, count, ◌==◌, Bool-cases, inl, inr, arith,
}
use distributed_computing_fr.Message.Build.{fresh}
use distributed_computing_fr.Message.Build.Laws.{length-fresh}
use distributed_computing_fr.Container.{enqueue}
use distributed_computing_fr.Container.Order.{enqueue_lem}
use distributed_computing_fr.Block.Work.{AddressSpace, DataChunk, work}
use distributed_computing_fr.Block.Work.Laws.{BlockLaws}
use distributed_computing_fr.Block.Work.Served.{
  join, AllSized, Batch, chunk, served, length-join-map,
}
use distributed_computing_fr.Block.Work.Refines.{AllBatches, work-Drains}
use distributed_computing_fr.BlockBench.{
  input_size, output_size, d_size, block_ports, test_chunk, push_chunks, collect,
}

-- Bytes as `n` sets of the same size.
abbrev split_sets : ℕ → ℕ → List ℕ → List (List ℕ)
split_sets zero size bytes = []
split_sets (suc n) size bytes = take size bytes ∷ split_sets n size (drop size bytes)

join-split_sets :
    (n size : ℕ) (bytes : List ℕ)
    → length bytes ≡ n * size
    → (join (split_sets n size bytes) ≡ bytes)
      × AllSized size (split_sets n size bytes)
      × (length (split_sets n size bytes) ≡ n)
join-split_sets zero size [] h = (refl, tt, refl)
join-split_sets zero size (b ∷ bs) h = absurd (omega arith)
join-split_sets (suc n) size bytes h =
    let (whole, sized, counted) =
      join-split_sets n size (drop size bytes) (omega (arith, length-drop size bytes)) in
    (
      ap (λ x. take size bytes ++ x) whole ∙ take-append-drop size bytes,
      (omega (arith, length-take size bytes), sized),
      ap suc counted,
    )

-- The chunk at an index as a batch of inputs.
test_bytes : (ℕ → ℕ) → List ℕ
test_bytes junk = fresh junk 0 (d_size * input_size)

test_batch : (ℕ → ℕ) → ℕ → Batch
test_batch junk i = record { id = i; data_sets = split_sets d_size input_size (test_bytes junk) }

test_batches : (ℕ → ℕ) → ℕ → ℕ → List Batch
test_batches junk zero i = []
test_batches junk (suc k) i = test_batch junk i ∷ test_batches junk k (i + 1)

split_test :
    (junk : ℕ → ℕ)
    → (join (split_sets d_size input_size (test_bytes junk)) ≡ test_bytes junk)
      × AllSized input_size (split_sets d_size input_size (test_bytes junk))
      × (length (split_sets d_size input_size (test_bytes junk)) ≡ d_size)
unfolding test_bytes
split_test junk =
    join-split_sets d_size input_size (fresh junk 0 (d_size * input_size))
      (length-fresh junk 0 (d_size * input_size))

chunk-test_batch : (junk : ℕ → ℕ) (i : ℕ) → chunk (test_batch junk i) ≡ test_chunk junk i
unfolding test_batch test_bytes test_chunk
chunk-test_batch junk i =
    let (whole, sized, counted) = split_test junk in
    λ j. record { id = i; size = counted j; bytes = whole j }

push_chunks-map :
    (junk : ℕ → ℕ) (k i : ℕ) (q : List DataChunk)
    → push_chunks junk k i q ≡ q ++ map chunk (test_batches junk k i)
unfolding push_chunks test_batches
push_chunks-map junk zero i q = sym (append-nil q)
push_chunks-map junk (suc k) i q =
    push_chunks-map junk k (i + 1) (enqueue (test_chunk junk i) q)
    ∙ ap (λ l. l ++ map chunk (test_batches junk k (i + 1))) (enqueue_lem (test_chunk junk i) q)
    ∙ append_assoc q (test_chunk junk i ∷ []) (map chunk (test_batches junk k (i + 1)))
    ∙ ap (λ c. q ++ (c ∷ map chunk (test_batches junk k (i + 1)))) (sym (chunk-test_batch junk i))

length-test_batches : (junk : ℕ → ℕ) (k i : ℕ) → length (test_batches junk k i) ≡ k
unfolding test_batches
length-test_batches junk zero i = refl
length-test_batches junk (suc k) i = ap suc (length-test_batches junk k (i + 1))

test_batches-AllBatches :
    (junk : ℕ → ℕ) (base n k i : ℕ) → AllBatches (block_ports base n) (test_batches junk k i)
unfolding test_batches test_batch block_ports
test_batches-AllBatches junk base n zero i = tt
test_batches-AllBatches junk base n (suc k) i =
    let (whole, sized, counted) = split_test junk in
    (
      (sized, omega (arith, counted), omega (arith, counted)),
      test_batches-AllBatches junk base n k (i + 1),
    )

-- The results of chunks that are numbered from `i` on: each has its chunk's number and as many outputs
-- as the chunk has inputs.
abbrev pub AreResults : ℕ → List DataChunk → Type 0
AreResults i [] = Unit {0}
AreResults i (c ∷ cs) =
    ((c.id ≡ i) × (c.size ≡ d_size) × (length c.bytes ≡ d_size * output_size))
    × AreResults (i + 1) cs

served-AreResults :
    {space : AddressSpace} {polls : ℕ} {compute : List ℕ → List ℕ} (junk : ℕ → ℕ) (base n k i : ℕ)
    → BlockLaws space (block_ports base n) polls compute
    → AreResults i (map chunk (map (served compute) (test_batches junk k i)))
unfolding test_batches test_batch block_ports
served-AreResults junk base n zero i laws = tt
served-AreResults {compute = compute} junk base n (suc k) i laws =
    let (whole, sized, counted) = split_test junk in
    let sets = split_sets d_size input_size (test_bytes junk) in
    (
      (
        refl,
        length-map sets compute ∙ counted,
        length-join-map laws sets sized ∙ ap (λ (m : ℕ). m * output_size) counted,
      ),
      served-AreResults junk base n k (i + 1) laws,
    )

-- If the block at an index of the test program computes a function, then in `k` rounds of its thread,
-- or more, the `k` chunks of a sweep go through it without an access outside a buffer, and come back
-- in order, with their numbers and as many outputs as they have inputs.
pub work-AreResults :
    (space : AddressSpace) (base n polls : ℕ) (compute : List ℕ → List ℕ) (junk : ℕ → ℕ)
    (k idle : ℕ) (s : space.State)
    → BlockLaws space (block_ports base n) polls compute
    → (outputs : List DataChunk) × (s' : space.State) × (work space
          (block_ports base n)
          polls
          junk
          (k + idle)
          (push_chunks junk k 0 [])
          []
          s
        ≡ some ([], (outputs, s')))
      × (length outputs ≡ k)
      × AreResults 0 outputs
work-AreResults space base n polls compute junk k idle s laws =
    let batches = test_batches junk k 0 in
    let (s', ran) =
      work-Drains space (block_ports base n) polls compute junk idle batches [] s laws
        (test_batches-AllBatches junk base n k 0) in
    (
      map chunk (map (served compute) batches),
      s',
      ap (λ q. work space (block_ports base n) polls junk (k + idle) q [] s)
            (push_chunks-map junk k 0 [])
          ∙ ap
              (λ (m : ℕ).
                work space (block_ports base n) polls junk (m + idle) (map chunk batches) [] s)
              (sym (length-test_batches junk k 0))
          ∙ ran,
      length-map (map (served compute) batches) chunk
          ∙ length-map batches (served compute)
          ∙ length-test_batches junk k 0,
      served-AreResults junk base n k 0 laws,
    )

abbrev pub found : Option DataChunk → Bool
found none = false
found (some c) = true

-- The loop that collects results returns with the last of the results it waits for, if so many are to
-- come, and leaves what comes after it.
collect-Counts :
    (in_size count2 : ℕ) (looks : List (Option DataChunk))
    → count2 < in_size
    → in_size ≤ count2 + count found looks
    → (seen rest : List (Option DataChunk)) × (looks ≡ seen ++ rest)
      × (collect in_size count2 looks ≡ some rest)
      × (count2 + count found seen ≡ in_size)
unfolding collect
collect-Counts n k [] h enough = absurd (omega arith)
collect-Counts n k (none ∷ looks) h enough =
    let (seen, rest, split, ran, counted) = collect-Counts n k looks h (omega arith) in
    (none ∷ seen, rest, ap (λ l. none ∷ l) split, rw (going_on) ran, omega (arith, counted))
  where
    going_on : (k == n) ≡ false
    going_on = ground arith
collect-Counts n k (some c ∷ looks) h enough = elim (Bool-cases (k + 1 == n)) [
  | inl last ↦ (some c ∷ [], looks, refl, rw last refl, ground arith)
  | inr more ↦
      let (seen, rest, split, ran, counted) =
        collect-Counts n (k + 1) looks (ground arith) (omega arith) in
      (some c ∷ seen, rest, ap (λ l. some c ∷ l) split, rw more ran, omega (arith, counted))
]
