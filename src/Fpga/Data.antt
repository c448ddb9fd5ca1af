-- ===== src/Fpga/Data.antt =====
-- node/FPGAconfig/alt_fpga_manager.c: the configuration data, from a buffer or from a stream, to the
-- AXI data register, and the wait for its verdict (steps 9 and 10).
use Prim.Native.Nat.{bit_and}
use distributed_computing_fr.Prelude.{
  ℕ, zero, suc, ◌+◌, ◌-◌, ◌*◌, ◌%◌, Option, none, some, List, ltb, leb, ◌==◌, if◌then◌else◌, read32,
}
use distributed_computing_fr.Fpga.Bus.{
  Status, success, fpga_cfg, fpga_crc, fpga_cfg_stm, Device, img_data, M, ◌>>=◌, ◌>>◌, pure, write,
}
use distributed_computing_fr.Fpga.Manager.{wait_for_config_done}

-- A signed value; `negsuc n` is -(n + 1).
pub data ℤ : Type 0 where
  pos : ℕ → ℤ
  negsuc : ℕ → ℤ

-- The limits of the source: 32 MiB of data, and 512 bytes from a stream at a time.
abbrev pub data_limit : ℕ
data_limit = 32 * 1024 * 1024

abbrev pub istream_chunk_size : ℕ
istream_chunk_size = 512

abbrev pub tmo_config : ℕ
tmo_config = 8192

-- What the callback of a stream gives: its status, and the buffer that it was to fill.
pub record Chunk : Type 0 where
  pub status : ℤ
  pub buffer : List ℕ

-- `FPGA_DATA_t`. A stream is a callback with effects of its own.
pub data FpgaData (S : Type 0) : Type 0 where
  full : List ℕ → ℕ → FpgaData S
  istream : (S → Option (Chunk × S)) → FpgaData S

-- A value that a memory access may fail to give.
abbrev pub lift : {S A : Type 0} → Option A → M S A
lift none s = none
lift (some a) s = some (a, s)

-- The verdict of step 10 as the function returns it.
abbrev pub config_status : Status → Status
config_status success = success
config_status fpga_crc = fpga_crc
config_status _ = fpga_cfg

module _ (dev : Device) where
  -- `while (cfg_buf_len >= sizeof(uint32_t))`, from the word `i` on. What is left of the length is
  -- the result. The first argument bounds the rounds; the length itself is enough.
  unfoldable pub write_words : ℕ → List ℕ → ℕ → ℕ → M dev.State ℕ
  write_words zero buf i len = pure len
  write_words (suc fuel) buf i len =
      if leb 4 len
      then (do
        w ← lift (read32 buf (4 * i))
        write dev img_data w
        write_words fuel buf (i + 1) (len - 4))
      else pure len

  -- The one to three bytes that are left. The source computes their place from the length that the
  -- loop has counted down, which is less than four by then.
  unfoldable pub write_rest : List ℕ → ℕ → M dev.State Status
  write_rest buf len =
      let rest = len % 4 in
      if rest == 0 then pure success else (do
        w ← lift (read32 buf (len - len % 4))
        write dev img_data (
            if rest == 3
            then bit_and w 0x00ff_ffff
            else if rest == 2
            then bit_and w 0x0000_ffff
            else bit_and w 0x0000_00ff)
        pure success)

  -- `alt_fpga_internal_writeaxi`, without DMA.
  unfoldable pub alt_fpga_internal_writeaxi : List ℕ → ℕ → M dev.State Status
  alt_fpga_internal_writeaxi buf len = do left ← write_words len buf 0 len; write_rest buf left

  -- One round of the stream's loop, with the limit that is left: the data status, and the limit for
  -- the next round if there is one.
  unfoldable pub stream_round : Chunk → ℕ → M dev.State (Status × Option ℕ)
  stream_round c limit = elim c.status [
    | negsuc n ↦ pure (fpga_cfg_stm, none)
    | pos n ↦
        if ltb istream_chunk_size n
        then pure (fpga_cfg_stm, none)
        else if n == 0
        then pure (success, none)
        else if ltb limit n
        then pure (fpga_cfg_stm, none)
        else (do
          status ← alt_fpga_internal_writeaxi c.buffer n
          pure (status, elim status [ success ↦ some (limit - n) | _ ↦ none ]))
  ]

  -- The loop over a stream. Each round that goes on takes a byte at least from the limit, so one
  -- round more than the limit is enough.
  unfoldable pub stream_loop : ℕ → M dev.State Chunk → ℕ → M dev.State Status
  stream_loop zero stream limit = λ s. none
  stream_loop (suc fuel) stream limit = do
    c ← stream
    r ← stream_round c limit
    elim r.1 [ none ↦ pure r.0 | some limit' ↦ stream_loop fuel stream limit' ]

  -- Step 9.
  unfoldable pub write_data : FpgaData dev.State → M dev.State Status
  write_data (full buffer len) =
      if ltb data_limit len then pure fpga_cfg else alt_fpga_internal_writeaxi buffer len
  write_data (istream stream) = stream_loop (suc data_limit) stream data_limit

  unfoldable pub alt_fpga_internal_configure_idata : FpgaData dev.State → M dev.State Status
  alt_fpga_internal_configure_idata fpga_data = do
    status ← write_data fpga_data
    elim status [
      | success ↦ do verdict ← wait_for_config_done dev tmo_config; pure (config_status verdict)
      | failure ↦ pure failure
    ]
