-- ===== src/Fpga/Configure.antt =====
-- node/FPGAconfig/alt_fpga_manager.c, `alt_fpga_internal_configure` and its callers, and
-- node/FPGAconfig/writeConfig.hpp.
use Prim.Native.Nat.{bit_and, bit_or}
use distributed_computing_fr.Prelude.{
  ℕ, ◌+◌, ◌*◌, Bool, true, false, Option, none, some, List, ◌==◌, if◌then◌else◌,
}
use distributed_computing_fr.Fpga.Bus.{
  Status, success, error, fpga_cfg, tmo, Device, ctl, mon_porta_eoi, M, ◌>>=◌, ◌>>◌, pure, read,
  write,
}
use distributed_computing_fr.Fpga.Manager.{
  reset, cfg, user_mode, with_control, alt_fpga_init, alt_fpga_control_enable,
  alt_fpga_control_disable, alt_fpga_state_get, alt_fpga_cfg_mode_get, wait_for_fpga_state,
  dclk_set_and_wait_clear, ctl_ncfgpull,
}
use distributed_computing_fr.Fpga.Data.{
  FpgaData, full, istream, Chunk, alt_fpga_internal_configure_idata,
}

-- The ratio of the clock, as the source and its register name it.
pub data CdRatio : Type 0 where
  x1 x2 x4 x8 : CdRatio

pub data CfgWidth : Type 0 where
  width16 width32 : CfgWidth

-- Step 1: the width and the ratio of a configuration mode.
unfoldable pub mode_params : ℕ → Option (CfgWidth × CdRatio)
mode_params m =
    if m == 0x0
    then some (width16, x1)
    else if m == 0x1
    then some (width16, x2)
    else if m == 0x2
    then some (width16, x4)
    else if m == 0x4
    then some (width16, x1)
    else if m == 0x5
    then some (width16, x2)
    else if m == 0x6
    then some (width16, x4)
    else if m == 0x8
    then some (width32, x1)
    else if m == 0x9
    then some (width32, x4)
    else if m == 0xa
    then some (width32, x8)
    else if m == 0xc
    then some (width32, x1)
    else if m == 0xd
    then some (width32, x4)
    else if m == 0xe
    then some (width32, x8)
    else none

-- `ALT_FPGAMGR_CTL_CDRATIO_SET` of the field's value.
abbrev pub cdratio_bits : CdRatio → ℕ
cdratio_bits x1 = 0x0000_0000
cdratio_bits x2 = 0x0000_0040
cdratio_bits x4 = 0x0000_0080
cdratio_bits x8 = 0x0000_00c0

abbrev pub set_width : CfgWidth → ℕ → ℕ
set_width width16 w = bit_and w 0xffff_fdff
set_width width32 w = bit_or w 0x0000_0200

-- The control register after step 1: ratio, width, and NCE clear.
abbrev pub step1_ctl : CfgWidth → CdRatio → ℕ → ℕ
step1_ctl width ratio w =
    bit_and (set_width width (bit_or (bit_and w 0xffff_ff3f) (cdratio_bits ratio))) 0xffff_fffd

abbrev pub set_ncfgpull : ℕ → ℕ
set_ncfgpull w = bit_or w ctl_ncfgpull

abbrev pub clr_ncfgpull : ℕ → ℕ
clr_ncfgpull w = bit_and w 0xffff_fffb

abbrev pub set_axicfgen : ℕ → ℕ
set_axicfgen w = bit_or w 0x0000_0100

abbrev pub clr_axicfgen : ℕ → ℕ
clr_axicfgen w = bit_and w 0xffff_feff

abbrev pub tmo_state : ℕ
tmo_state = 2048

abbrev pub tmo_dclk : ℕ
tmo_dclk = 2048 + 4 * 2

-- An error of the set-up is reported as the data's error, if there was one.
abbrev pub data_or_cfg : Status → Status
data_or_cfg success = fpga_cfg
data_or_cfg failure = failure

module _ (dev : Device) where
  -- Steps 12 and 13, after the data was written with this status.
  unfoldable pub finish_steps : Status → M dev.State Status
  finish_steps data_status = do
    status ← dclk_set_and_wait_clear dev 4 tmo_dclk
    elim status [
      | success ↦ do
        state ← wait_for_fpga_state dev user_mode tmo_state
        pure (elim state [ tmo ↦ data_or_cfg data_status | _ ↦ data_status ])
      | _ ↦ pure (data_or_cfg data_status)
    ]

  -- Steps 7 to 11, in the configuration phase.
  unfoldable pub data_steps : FpgaData dev.State → ℕ → M dev.State Status
  data_steps fpga_data ctrl_reg = do
    write dev mon_porta_eoi 0x1
    write dev ctl (set_axicfgen ctrl_reg)
    data_status ← alt_fpga_internal_configure_idata dev fpga_data
    write dev ctl (clr_axicfgen (set_axicfgen ctrl_reg))
    finish_steps data_status

  -- Steps 3 to 6: reset, and wait for the configuration phase.
  unfoldable pub reset_steps : FpgaData dev.State → ℕ → M dev.State Status
  reset_steps fpga_data ctrl_reg = do
    write dev ctl (set_ncfgpull ctrl_reg)
    status ← wait_for_fpga_state dev reset tmo_state
    let released = clr_ncfgpull (set_ncfgpull ctrl_reg)
    write dev ctl released
    elim status [
      | success ↦ do
        status' ← wait_for_fpga_state dev cfg tmo_state
        elim status' [ success ↦ data_steps fpga_data released | _ ↦ pure fpga_cfg ]
      | _ ↦ pure fpga_cfg
    ]

  -- Step 1, with the mode's parameters.
  unfoldable pub mode_steps :
      FpgaData dev.State → ℕ → Option (CfgWidth × CdRatio) → M dev.State Status
  mode_steps fpga_data ctrl_reg none = pure error
  mode_steps fpga_data ctrl_reg (some (width, ratio)) = do
    let prepared = step1_ctl width ratio ctrl_reg
    write dev ctl prepared
    reset_steps fpga_data prepared

  unfoldable pub alt_fpga_internal_configure : FpgaData dev.State → M dev.State Status
  alt_fpga_internal_configure fpga_data =
      with_control dev (λ e. e)
        (do
          ctrl_reg ← read dev ctl
          mode ← alt_fpga_cfg_mode_get dev
          mode_steps fpga_data ctrl_reg (mode_params mode))

  unfoldable pub alt_fpga_configure : List ℕ → ℕ → M dev.State Status
  alt_fpga_configure cfg_buf cfg_buf_len = alt_fpga_internal_configure (full cfg_buf cfg_buf_len)

  unfoldable pub alt_fpga_istream_configure :
      (dev.State → Option (Chunk × dev.State)) → M dev.State Status
  alt_fpga_istream_configure cfg_stream = alt_fpga_internal_configure (istream cfg_stream)

  -- `writeFPGAconfig`, between the mapping and the unmapping of the registers.
  unfoldable pub write_fpga_config : List ℕ → ℕ → M dev.State Bool
  write_fpga_config buf fsize = do
    ignored ← alt_fpga_init dev
    ignored' ← alt_fpga_control_enable dev
    state ← alt_fpga_state_get dev
    status ← alt_fpga_configure buf fsize
    ignored'' ← alt_fpga_control_disable dev
    pure (elim status [ success ↦ true | _ ↦ false ])
