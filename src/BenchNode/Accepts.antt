-- ===== src/BenchNode/Accepts.antt =====
-- server/test_node.cpp and server/test_user.cpp: which benchmark configurations the node accepts.
use distributed_computing_fr.Prelude.{
  ℕ, ◌<◌, ◌≡◌, refl, ap, ◌∙◌, ◌&&◌, true, not, ◌||◌, some, [], ltb, ◌==◌, le32, u32_mod, arith,
}
use distributed_computing_fr.Message.{
  Message, is_valid_config, config_input_size, config_output_size, config_num_blocks, get_rbf_size,
}
use distributed_computing_fr.Message.Roundtrip.{new_config-Configures}
use distributed_computing_fr.BenchNode.{accepts, benchmarking_config}

accepts-fields :
    (m : Message) (i o n r : ℕ)
    → config_input_size m ≡ some i
    → config_output_size m ≡ some o
    → config_num_blocks m ≡ some n
    → get_rbf_size m ≡ some r
    → accepts m ≡ some (not (ltb i o || (ltb i 16 || (not (n == 0) || not (r == 4)))))
unfolding accepts
accepts-fields m i o n r ei eo en er = rw (ei, eo, en, er) refl

-- The configuration that the benchmark's user builds is valid for the server, and the benchmark's node
-- accepts it exactly if its input is at least as large as its output and has sixteen bytes.
benchmarking_config-accepted :
    (junk : ℕ → ℕ) (input_size output_size processing_delay : ℕ)
    → input_size < u32_mod
    → output_size < u32_mod
    → (m : Message) × (benchmarking_config junk input_size output_size processing_delay ≡ some m)
      × (is_valid_config m ≡ some true)
      × (accepts m ≡ some (not (ltb input_size output_size) && not (ltb input_size 16)))
unfolding benchmarking_config
benchmarking_config-accepted junk i o delay hi ho =
    let (m, built, configures) =
      new_config-Configures junk [] i o (le32 delay) (omega arith) hi ho tt in
    (
      m,
      built,
      configures.valid,
      accepts-fields m i o 0 4 configures.input configures.output configures.count
            configures.stream_size
          ∙ ap some (ground arith),
    )
