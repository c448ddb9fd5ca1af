-- ===== src/Block/Work/Served.antt =====
-- utils/src/Block.cpp, `Block::work`: a chunk comes back with the results of its data, in order.
use mathlib.Core.List.{append_assoc}
use distributed_computing_fr.Prelude.{
  ℕ, suc, ◌+◌, ◌*◌, ◌<◌, ◌≡◌, refl, ap, ◌∙◌, some, List, [], ◌∷◌, ◌++◌, length, map, length-append,
  length-drop, length-map, drop, arith, load, load-append, store, store-append, u32, u32_mod,
}
use distributed_computing_fr.Message.Build.{fresh}
use distributed_computing_fr.Message.Build.Laws.{length-fresh}
use distributed_computing_fr.Block.Work.Laws.{BlockLaws, compute_one-computes}
use distributed_computing_fr.Block.Work.{
  AddressSpace, BlockPorts, DataChunk, compute_loop, compute_chunk,
}

abbrev pub join : List (List ℕ) → List ℕ
join [] = []
join (x ∷ xs) = x ++ join xs

abbrev pub AllSized : ℕ → List (List ℕ) → Type 0
AllSized n [] = Unit
AllSized n (x ∷ xs) = (length x ≡ n) × AllSized n xs

-- The data of a chunk, apart from their place in memory.
pub record Batch : Type 0 where
  pub id : ℕ
  pub data_sets : List (List ℕ)

abbrev pub chunk : Batch → DataChunk
chunk b = record { id = b.id; size = length b.data_sets; bytes = join b.data_sets }

-- The input sets have the size of the input port, and neither buffer is larger than a `uint32_t`.
abbrev pub IsBatch : BlockPorts → Batch → Type 0
IsBatch ports b =
    AllSized ports.input_port.size b.data_sets
    × (length b.data_sets * ports.input_port.size < u32_mod)
    × (length b.data_sets * ports.output_port.size < u32_mod)

abbrev pub served : (List ℕ → List ℕ) → Batch → Batch
served compute b = record { id = b.id; data_sets = map compute b.data_sets }

at_suc : (a m p : ℕ) → p ≡ a * m → p + m ≡ (a + 1) * m
at_suc a m p h = omega (arith, h)

split_suc : (n m : ℕ) → suc n * m ≡ m + n * m
split_suc n m = omega arith

u32_small : (n : ℕ) → n < u32_mod → u32 n ≡ n
u32_small n h = omega arith

module _ {space : AddressSpace} {ports : BlockPorts} {polls : ℕ} {compute : List ℕ → List ℕ}
    (laws : BlockLaws space ports polls compute) where
  open laws use {sized}

  pub length-join-map :
      (xs : List (List ℕ))
      → AllSized ports.input_port.size xs
      → length (join (map compute xs)) ≡ length xs * ports.output_port.size
  length-join-map [] all = omega arith
  length-join-map (x ∷ xs) all = omega (
    arith,
    length-append (compute x) (join (map compute xs)),
    sized x all.0,
    length-join-map xs all.1,
    split_suc (length xs) ports.output_port.size,
  )

  -- The loop, in the midst of the two buffers.
  compute_loop-join :
      (a : ℕ) (before after rest : List ℕ) (xs : List (List ℕ)) (s : space.State)
      → AllSized ports.input_port.size xs
      → length before ≡ a * ports.input_port.size
      → length before + length xs * ports.input_port.size < u32_mod
      → length after ≡ a * ports.output_port.size
      → length rest ≡ length xs * ports.output_port.size
      → length after + length rest < u32_mod
      → (s' : space.State) × (compute_loop space ports polls
            (length xs)
            a
            (before ++ join xs)
            (after ++ rest)
            s
          ≡ some (after ++ join (map compute xs), s'))
  unfolding compute_loop
  compute_loop-join a before after [] [] s all at_in in_fits at_out room out_fits = (s, refl)
  compute_loop-join a before after (_ ∷ _) [] s all at_in in_fits at_out room out_fits =
      absurd (omega (arith, room))
  compute_loop-join a before after rest (x ∷ xs) s all at_in in_fits at_out room out_fits =
      let (s₁, one) = compute_one-computes laws x s all.0 in
      let size_in = all.0 in
      let size_out = sized x all.0 in
      let whole = split_suc (length xs) ports.output_port.size in
      let rest' = drop (length (compute x)) rest in
      let (s₂, others) =
        compute_loop-join (a + 1) (before ++ x) (after ++ compute x) rest' xs s₁ all.1
          (omega (
            arith,
            length-append before x,
            size_in,
            at_suc a ports.input_port.size (length before) at_in,
          ))
          (omega (
            arith,
            length-append before x,
            size_in,
            in_fits,
            split_suc (length xs) ports.input_port.size,
          ))
          (omega (
            arith,
            length-append after (compute x),
            size_out,
            at_suc a ports.output_port.size (length after) at_out,
          ))
          (omega (arith, length-drop (length (compute x)) rest, room, whole, size_out))
          (omega (
            arith,
            length-append after (compute x),
            length-drop (length (compute x)) rest,
            out_fits,
            room,
            whole,
            size_out,
          )) in
      let loaded =
        ap (λ i. load i ports.input_port.size (before ++ (x ++ join xs)))
          (u32_small (a * ports.input_port.size) (omega (arith, at_in, in_fits)))
        ∙ load-append (a * ports.input_port.size) ports.input_port.size before x (join xs) at_in
            size_in in
      let stored =
        ap (λ i. store i (compute x) (after ++ rest))
          (u32_small (a * ports.output_port.size) (omega (arith, at_out, out_fits)))
        ∙ store-append (a * ports.output_port.size) after (compute x) rest at_out
            (omega (arith, room, whole, size_out)) in
      (
        s₂,
        rw (loaded, one, stored)
            (rw
              (
                ← append_assoc before x (join xs),
                ← append_assoc after (compute x) rest',
                ← append_assoc after (compute x) (join (map compute xs)),
              )
              others),
      )

  length-join :
      (xs : List (List ℕ))
      → AllSized ports.input_port.size xs
      → length (join xs) ≡ length xs * ports.input_port.size
  length-join [] all = omega arith
  length-join (x ∷ xs) all = omega (
    arith,
    length-append x (join xs),
    all.0,
    length-join xs all.1,
    split_suc (length xs) ports.input_port.size,
  )

  -- A popped chunk gives the chunk of the results.
  pub compute_chunk-served :
      (junk : ℕ → ℕ) (b : Batch) (s : space.State)
      → IsBatch ports b
      → (s' : space.State) × (compute_chunk space ports polls junk (chunk b) s
          ≡ some (chunk (served compute b), s'))
  unfolding compute_chunk
  compute_chunk-served junk b s (all, in_fits, out_fits) =
      let going = fresh junk 0 (length b.data_sets * ports.output_port.size) in
      let going_length = length-fresh junk 0 (length b.data_sets * ports.output_port.size) in
      let (s', looped) =
        compute_loop-join 0 [] [] going b.data_sets s all (omega arith) (omega (arith, in_fits))
          (omega arith) going_length (omega (arith, going_length, out_fits)) in
      (
        s',
        rw
            (
              u32_small (length b.data_sets * ports.output_port.size) out_fits,
              looped,
              length-map b.data_sets compute,
            )
            refl,
      )
