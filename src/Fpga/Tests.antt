-- ===== src/Fpga/Tests.antt =====
-- node/FPGAconfig/alt_fpga_manager.c on a concrete device, which answers from a script.

use mathlib.Core.Bool.{xor}
use distributed_computing_fr.Prelude.{
  ℕ, Bool, zero, suc, ◌≡◌, refl, Option, some, List, [], ◌∷◌, length, arith,
}
use distributed_computing_fr.Fpga.Bus.{
  Status, success, Device, Register, stat, ctl, dclkstat, mon_ext_porta,
}
use distributed_computing_fr.Fpga.Manager.{
  with_control, alt_fpga_control_is_enabled, alt_fpga_state_get, alt_fpga_mon_status_get,
  alt_fpga_cfg_mode_get, wait_for_fpga_state, wait_for_config_done, config_verdict, poll_dclk,
  dclk_set_and_wait_clear, user_mode,
}
use distributed_computing_fr.Fpga.Data.{
  Chunk, pos, negsuc, istream, write_words, write_rest, alt_fpga_internal_configure_idata,
  alt_fpga_internal_writeaxi, write_data,
}
use distributed_computing_fr.Fpga.Configure.{
  mode_params, mode_steps, reset_steps, data_steps, finish_steps, alt_fpga_internal_configure,
  alt_fpga_configure, write_fpga_config,
}
use distributed_computing_fr.Fpga.Axi.{bytes_of, write_all, writeaxi-bytes}
use distributed_computing_fr.Fpga.Polling.{Waits, wait_for_fpga_state-Waits}
use distributed_computing_fr.Fpga.Stream.{write_data-istream_total}
use distributed_computing_fr.Fpga.Steps.{watched, last_ctl}
use distributed_computing_fr.Fpga.Released.{IsReleased, configure-IsReleased}
use distributed_computing_fr.Fpga.Entry.{GivesBack, write_fpga_config-GivesBack}

-- The answers to come of the status register and of the clock's, and the control register. The
-- monitor says: powered, CONF_DONE and nSTATUS.
abbrev Board : Type 0
Board = List ℕ × List ℕ × ℕ

abbrev board_read : Register → Board → ℕ × Board
board_read stat (w ∷ ws, clocks, c) = (w, (ws, clocks, c))
board_read dclkstat (states, w ∷ ws, c) = (w, (states, ws, c))
board_read ctl (states, clocks, c) = (c, (states, clocks, c))
board_read mon_ext_porta s = (0x0803, s)
board_read r s = (0, s)

abbrev board_write : Register → ℕ → Board → Board
board_write ctl w (states, clocks, c) = (states, clocks, w)
board_write r w s = s

abbrev board : Device
board = record { State = Board; read_word = board_read; write_word = board_write }

-- The FPGA answers as it is asked: user mode, the mode's pins, reset, configuration, user mode.
abbrev good_board : Board
good_board = (4 ∷ 4 ∷ 1 ∷ 2 ∷ 4 ∷ [], 0 ∷ 0 ∷ 1 ∷ [], 1)

abbrev sample_buffer : List ℕ
sample_buffer = 1 ∷ 2 ∷ 3 ∷ 4 ∷ 5 ∷ 6 ∷ 7 ∷ 8 ∷ []

configure-IsReleased_example :
    (a : Status) × (s' : Board × List (Register × ℕ)) × (alt_fpga_configure
        (watched board)
        sample_buffer
        8
        (good_board, [])
      ≡ some (a, s'))
    × IsReleased (last_ctl s'.1)
configure-IsReleased_example =
    configure-IsReleased board sample_buffer 8 (good_board, []) (omega arith) (omega arith) tt

writeaxi-bytes_example :
    (ws : List ℕ) × (alt_fpga_internal_writeaxi board sample_buffer 8 good_board
      ≡ some (success, write_all board ws good_board))
    × (bytes_of ws ≡ sample_buffer)
writeaxi-bytes_example =
    writeaxi-bytes board sample_buffer good_board
      (
        omega arith,
        (
          omega arith,
          (
            omega arith,
            (omega arith, (omega arith, (omega arith, (omega arith, (omega arith, tt))))),
          ),
        ),
      )
      (omega arith)

wait_for_fpga_state-Waits_example : Waits board user_mode 3 good_board
wait_for_fpga_state-Waits_example = wait_for_fpga_state-Waits board user_mode 3 good_board

-- A stream that fails after its first word.
zero_bytes : ℕ → List ℕ
zero_bytes zero = []
zero_bytes (suc n) = 0 ∷ zero_bytes n

abbrev failing_stream : Board → Option (Chunk × Board)
failing_stream (states, clocks, zero) =
    some (record { status = negsuc 0; buffer = zero_bytes 512 }, (states, clocks, zero))
failing_stream (states, clocks, suc c) =
    some (record { status = pos 4; buffer = zero_bytes 512 }, (states, clocks, c))

length-zero_bytes : (n : ℕ) → length (zero_bytes n) ≡ n
unfolding zero_bytes
length-zero_bytes zero = refl
length-zero_bytes (suc n) = omega (arith, length-zero_bytes n)

write_data-istream_total_example :
    (r : Status) × (s' : Board) × (write_data board (istream failing_stream) good_board
      ≡ some (r, s'))
write_data-istream_total_example = write_data-istream_total board failing_stream good_board returns
  where
    returns :
        (s : Board)
        → (c : Chunk) × (s' : Board) × (failing_stream s ≡ some (c, s')) × (length c.buffer ≡ 512)
    returns (states, clocks, zero) = (_, _, refl, length-zero_bytes 512)
    returns (states, clocks, suc c) = (_, _, refl, length-zero_bytes 512)

-- No bit of the control register is set.
abbrev other_board : Board
other_board = (4 ∷ [], [], 0)

-- A device that answers as it should is configured: the data goes out, and control and reset are as
-- they were.
good_board_runs : alt_fpga_configure board sample_buffer 8 good_board ≡ some (success, ([], [], 1))
unfolding alt_fpga_configure alt_fpga_internal_configure with_control alt_fpga_control_is_enabled
    alt_fpga_state_get alt_fpga_mon_status_get alt_fpga_cfg_mode_get mode_steps reset_steps
    data_steps finish_steps wait_for_fpga_state wait_for_config_done config_verdict poll_dclk
    dclk_set_and_wait_clear alt_fpga_internal_configure_idata write_data alt_fpga_internal_writeaxi
    write_words write_rest mode_params xor
good_board_runs = refl

write_fpga_config-GivesBack_example :
    (ok : Bool) × (s' : Board × List (Register × ℕ)) × (w : ℕ) × (write_fpga_config
        (watched board)
        sample_buffer
        8
        (good_board, [])
      ≡ some (ok, s'))
    × (last_ctl s'.1 ≡ some w)
    × GivesBack w
write_fpga_config-GivesBack_example =
    write_fpga_config-GivesBack board sample_buffer 8 (good_board, []) (omega arith) (omega arith)
