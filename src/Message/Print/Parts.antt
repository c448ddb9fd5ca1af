-- ===== src/Message/Print/Parts.antt =====
-- server/Message.hpp, `message_s::print`: the reads of its parts.
use distributed_computing_fr.Prelude.{
  ℕ, zero, suc, ◌+◌, ◌*◌, ◌^◌, ◌≤◌, ◌<◌, ◌≡◌, refl, none, some, List, [], ◌∷◌, ◌++◌, length,
  length-drop, drop, arith, read32, read32-some, Option-cases, inl, inr, load, load-some,
}
use distributed_computing_fr.Message.{
  Message, BlockInfo, read_block, config_input_size, config_output_size, config_num_blocks,
  get_block_info, get_data_size, resp_status, sizeof_config, sizeof_block_info, sizeof_data,
}
use distributed_computing_fr.Message.Bounds.{Accesses, drop_short}
use distributed_computing_fr.Message.Text.{tab}
use distributed_computing_fr.Message.Text.Rows.{print_bytes-returns}
use distributed_computing_fr.Message.Print.{
  print_block, print_blocks, config_text, status_text, data_text, print_config, print_config_resp,
  print_data,
}

resp_status-some : (m : Message) → 1 ≤ length m.payload → (s : ℕ) × (resp_status m ≡ some s)
resp_status-some m h =
    let (bytes, loaded, sized) = load-some 0 1 m.payload (omega arith) in go bytes loaded sized
  where
    go :
        (bytes : List ℕ)
        → load 0 1 m.payload ≡ some bytes
        → length bytes ≡ 1
        → (s : ℕ) × (resp_status m ≡ some s)
    go [] e l = absurd (omega arith)
    go (b ∷ bs) e l = (b, rw e refl)

read_block-outside : (mem : List ℕ) (base : ℕ) → length mem < base + 12 → read_block mem base ≡ none
unfolding read_block
read_block-outside mem base h = elim (Option-cases (read32 mem base)) [
  | inl e ↦ rw e refl
  | inr (a, ea) ↦ elim (Option-cases (read32 mem (base + 4))) [
    | inl e ↦ rw (ea, e) refl
    | inr (b, eb) ↦ rw (ea, eb, drop_short (base + 8) mem (omega arith)) refl
  ]
]

module _ (decimal : ℕ → List ℕ) (prefix : List ℕ) where
  -- The loop over blocks that can all be read.
  print_blocks-some :
      (m : Message) (k i : ℕ)
      → ((j : ℕ) → j < i + k → (b : BlockInfo) × (get_block_info m j ≡ some b))
      → (text : List ℕ) × (print_blocks decimal prefix m k i ≡ some text)
  unfolding print_blocks
  print_blocks-some m zero i h = ([], refl)
  print_blocks-some m (suc k) i h =
      let (b, e) = h i (omega arith) in
      let (rest, ran) = print_blocks-some m k (i + 1) (λ j lt. h j (omega arith)) in
      (print_block decimal prefix i b ++ rest, rw (e, ran) refl)

  pub print_config-some :
      (m : Message) (n : ℕ)
      → Accesses m n
      → length m.payload < 2 ^ 32
      → (text : List ℕ) × (print_config decimal prefix m ≡ some text)
  unfolding print_config
  print_config-some m n h small =
      let (i, at_input) = read32-some m.payload 0 (omega (arith, h.stream_end)) in
      let (o, at_output) = read32-some m.payload 4 (omega (arith, h.stream_end)) in
      let (blocks, ran) = print_blocks-some m n 0 (λ j lt. h.block j (omega arith)) in
      let (rows, shown, _) =
        print_bytes-returns (drop (12 + n * 12) m.payload) (length h.rbf) 16 (prefix ++ tab)
          (omega (arith, h.stream_end, length-drop (12 + n * 12) m.payload))
          (omega (arith, h.stream_end, small)) (omega arith) (omega arith) in
      (
        config_text decimal prefix i o n blocks rows,
        rw (at_input, at_output, h.count, ran, h.offset, h.stream_size, shown) refl,
      )

  pub print_config_resp-some :
      (m : Message)
      → 1 ≤ length m.payload
      → (text : List ℕ) × (print_config_resp decimal prefix m ≡ some text)
  unfolding print_config_resp
  print_config_resp-some m h =
      let (s, e) = resp_status-some m h in (status_text decimal prefix s, rw e refl)

  pub print_data-some :
      (m : Message)
      → length m.payload ≡ sizeof_data + get_data_size m
      → length m.payload < 2 ^ 32
      → (text : List ℕ) × (print_data decimal prefix m ≡ some text)
  unfolding print_data
  print_data-some m h small =
      let (id, e) = read32-some m.payload 0 (omega (arith, h)) in
      let (rows, shown, _) =
        print_bytes-returns (drop 4 m.payload) (get_data_size m) 4 (prefix ++ tab)
          (omega (arith, h, length-drop 4 m.payload)) (omega (arith, h, small)) (omega arith)
          (omega arith) in
      (data_text decimal prefix id rows, rw (e, shown) refl)

  -- The loop over blocks of which the last ends behind the payload.
  print_blocks-none :
      (m : Message) (k i : ℕ)
      → length m.payload < sizeof_config + (i + suc k) * sizeof_block_info
      → print_blocks decimal prefix m (suc k) i ≡ none
  unfolding print_blocks
  print_blocks-none m zero i h = rw (read_block-outside m.payload (12 + i * 12) (omega arith)) refl
  print_blocks-none m (suc k) i h = elim (Option-cases (get_block_info m i)) [
    | inl e ↦ rw e refl
    | inr (b, e) ↦ rw (e, print_blocks-none m k (i + 1) (omega arith)) refl
  ]

  pub print_config-uncounted :
      (m : Message) → config_num_blocks m ≡ none → print_config decimal prefix m ≡ none
  unfolding print_config
  print_config-uncounted m e = elim (Option-cases (config_input_size m)) [
    | inl ei ↦ rw ei refl
    | inr (i, ei) ↦ elim (Option-cases (config_output_size m)) [
      | inl eo ↦ rw (ei, eo) refl
      | inr (o, eo) ↦ rw (ei, eo, e) refl
    ]
  ]

  print_config-unread :
      (m : Message) (n : ℕ)
      → config_num_blocks m ≡ some n
      → print_blocks decimal prefix m n 0 ≡ none
      → print_config decimal prefix m ≡ none
  unfolding print_config
  print_config-unread m n e missing = elim (Option-cases (config_input_size m)) [
    | inl ei ↦ rw ei refl
    | inr (i, ei) ↦ elim (Option-cases (config_output_size m)) [
      | inl eo ↦ rw (ei, eo) refl
      | inr (o, eo) ↦ rw (ei, eo, e, missing) refl
    ]
  ]

  pub print_config-none :
      (m : Message) (n : ℕ)
      → config_num_blocks m ≡ some n
      → length m.payload < sizeof_config + n * sizeof_block_info
      → print_config decimal prefix m ≡ none
  print_config-none m zero e h = absurd (ground (arith, e, drop_short 8 m.payload (omega arith)))
  print_config-none m (suc n) e h =
      print_config-unread m (suc n) e (print_blocks-none m n 0 (omega arith))
