-- ===== src/Fpga/Manager.antt =====
-- node/FPGAconfig/alt_fpga_manager.c: control of the FPGA block, its state, its reset, the general
-- purpose signals and the monitor's interrupts.
use Prim.Native.Nat.{bit_and, bit_or}
use distributed_computing_fr.Prelude.{
  ℕ, zero, suc, ◌/◌, Bool, not, ◌&&◌, ◌||◌, Option, none, some, ltb, ◌==◌, if◌then◌else◌,
}
use mathlib.Core.Bool.{xor}
use distributed_computing_fr.Fpga.Bus.{
  Status, success, error, fpga_no_soc_ctrl, fpga_pwr_off, bad_arg, fpga_cfg, fpga_crc, tmo, Device,
  stat, ctl, dclkcnt, dclkstat, gpo, gpi, mon_inten, mon_inttype_level, mon_int_pol, mon_ext_porta,
  M, ◌>>=◌, ◌>>◌, pure, not32, read, write, setbits, clrbits, replbits,
}

-- `ALT_FPGA_STATE_t`.
pub data FpgaState : Type 0 where
  power_up reset cfg init user_mode unknown power_off : FpgaState

abbrev pub state_code : FpgaState → ℕ
state_code power_up = 0x0
state_code reset = 0x1
state_code cfg = 0x2
state_code init = 0x3
state_code user_mode = 0x4
state_code unknown = 0x5
state_code power_off = 0xf

-- `ALT_FPGA_MON_STATUS_t`, the bits that the driver tests.
abbrev pub mon_nstatus : ℕ
mon_nstatus = 0x0001

abbrev pub mon_conf_done : ℕ
mon_conf_done = 0x0002

abbrev pub mon_crc_error : ℕ
mon_crc_error = 0x0008

abbrev pub mon_fpga_power_on : ℕ
mon_fpga_power_on = 0x0800

-- Fields of the control register.
abbrev pub ctl_en : ℕ
ctl_en = 0x0000_0001

abbrev pub ctl_ncfgpull : ℕ
ctl_ncfgpull = 0x0000_0004

-- `ALT_FPGAMGR_STAT_MOD_GET` and `ALT_FPGAMGR_STAT_MSEL_GET`.
abbrev pub stat_mod_get : ℕ → ℕ
stat_mod_get w = bit_and w 0x0000_0007

abbrev pub stat_msel_get : ℕ → ℕ
stat_msel_get w = bit_and w 0x0000_00f8 / 8

-- `ALT_FPGA_CFG_MODE_UNKNOWN`.
abbrev pub cfg_mode_unknown : ℕ
cfg_mode_unknown = 0x20

-- The values of MSEL that stand for a configuration mode.
abbrev pub is_cfg_mode : ℕ → Bool
is_cfg_mode m = ltb m 15 && not (m == 0x3 || (m == 0x7 || m == 0xb))

-- Only the bits 11:0 of a monitor mask may be set.
abbrev pub is_bad_mask : ℕ → Bool
is_bad_mask mask = not (bit_and mask 0xffff_f000 == 0)

-- What one poll of the monitor says: a verdict, or nothing yet.
unfoldable pub config_verdict : ℕ → Option Status
config_verdict status =
    let conf_done = not (bit_and status mon_conf_done == 0) in
    let nstatus = not (bit_and status mon_nstatus == 0) in
    if not (bit_and status mon_crc_error == 0)
    then some fpga_crc
    else if xor conf_done nstatus
    then none
    else some (if conf_done then success else fpga_cfg)

-- `ALT_FPGAMGR_DCLKSTAT_DCNTDONE_E_DONE`.
abbrev pub dcntdone : ℕ
dcntdone = 0x1

module _ (dev : Device) where
  abbrev pub alt_fpga_init : M dev.State Status
  alt_fpga_init = pure success

  abbrev pub alt_fpga_uninit : M dev.State Status
  alt_fpga_uninit = pure success

  abbrev pub alt_fpga_control_enable : M dev.State Status
  alt_fpga_control_enable = do setbits dev ctl ctl_en; pure success

  abbrev pub alt_fpga_control_disable : M dev.State Status
  alt_fpga_control_disable = do clrbits dev ctl ctl_en; pure success

  unfoldable pub alt_fpga_control_is_enabled : M dev.State Bool
  alt_fpga_control_is_enabled = do w ← read dev ctl; pure (not (bit_and w ctl_en == 0))

  unfoldable pub alt_fpga_mon_status_get : M dev.State ℕ
  alt_fpga_mon_status_get = do w ← read dev mon_ext_porta; pure (bit_and w 0xfff)

  -- The value of the enumeration; the mode bits are cast to it unchecked.
  unfoldable pub alt_fpga_state_get : M dev.State ℕ
  unfolding alt_fpga_mon_status_get
  alt_fpga_state_get = do
    status ← alt_fpga_mon_status_get
    if bit_and status mon_fpga_power_on == 0
        then pure (state_code power_off)
        else (do w ← read dev stat; pure (stat_mod_get w))

  -- The two tests before an operation on the FPGA: control, then power.
  unfoldable pub with_control : {A : Type 0} → (Status → A) → M dev.State A → M dev.State A
  with_control fail body = do
    enabled ← alt_fpga_control_is_enabled
    if not enabled then pure (fail fpga_no_soc_ctrl) else (do
      state ← alt_fpga_state_get
      if state == state_code power_off then pure (fail fpga_pwr_off) else body)

  unfoldable pub alt_fpga_reset_assert : M dev.State Status
  alt_fpga_reset_assert = with_control (λ e. e) (do setbits dev ctl ctl_ncfgpull; pure success)

  unfoldable pub alt_fpga_reset_deassert : M dev.State Status
  alt_fpga_reset_deassert = with_control (λ e. e) (do clrbits dev ctl ctl_ncfgpull; pure success)

  unfoldable pub alt_fpga_cfg_mode_get : M dev.State ℕ
  alt_fpga_cfg_mode_get = do
    w ← read dev stat
    let msel = stat_msel_get w
    pure (if is_cfg_mode msel then msel else cfg_mode_unknown)

  abbrev pub alt_fpga_cfg_mode_set : ℕ → M dev.State Status
  alt_fpga_cfg_mode_set mode = pure error

  unfoldable pub alt_fpga_gpi_read : ℕ → M dev.State ℕ
  alt_fpga_gpi_read mask =
      if mask == 0 then pure 0 else (do w ← read dev gpi; pure (bit_and w mask))

  unfoldable pub alt_fpga_gpo_write : ℕ → ℕ → M dev.State Status
  alt_fpga_gpo_write mask value = if mask == 0 then pure success else (do
    w ← read dev gpo
    write dev gpo (bit_or (bit_and w (not32 mask)) (bit_and value mask))
    pure success)

  unfoldable pub alt_fpga_man_irq_disable : ℕ → M dev.State Status
  alt_fpga_man_irq_disable mask = if is_bad_mask mask then pure bad_arg else (do
    current ← read dev mon_inten
    write dev mon_inten (bit_and current (bit_and (not32 mask) 0xfff))
    pure success)

  unfoldable pub alt_fpga_man_irq_enable : ℕ → M dev.State Status
  alt_fpga_man_irq_enable mask =
      if is_bad_mask mask then pure bad_arg else (do setbits dev mon_inten mask; pure success)

  abbrev pub alt_fpga_man_irq_type_get : ℕ → M dev.State ℕ
  alt_fpga_man_irq_type_get mask = do w ← read dev mon_inttype_level; pure (bit_and w mask)

  unfoldable pub alt_fpga_man_irq_type_set : ℕ → ℕ → M dev.State Status
  alt_fpga_man_irq_type_set mask config =
      if is_bad_mask mask
      then pure bad_arg
      else (do replbits dev mon_inttype_level mask config; pure success)

  abbrev pub alt_fpga_man_irq_pol_get : ℕ → M dev.State ℕ
  alt_fpga_man_irq_pol_get mask = do w ← read dev mon_int_pol; pure (bit_and w mask)

  unfoldable pub alt_fpga_man_irq_pol_set : ℕ → ℕ → M dev.State Status
  alt_fpga_man_irq_pol_set mask config =
      if is_bad_mask mask
      then pure bad_arg
      else (do replbits dev mon_int_pol mask config; pure success)

  -- The polling loops: `do … while (timeout--)`.
  unfoldable pub wait_for_fpga_state : FpgaState → ℕ → M dev.State Status
  wait_for_fpga_state target zero = do
    current ← alt_fpga_state_get
    pure (if current == state_code target then success else tmo)
  wait_for_fpga_state target (suc timeout) = do
    current ← alt_fpga_state_get
    if current == state_code target then pure success else wait_for_fpga_state target timeout

  unfoldable pub wait_for_config_done : ℕ → M dev.State Status
  wait_for_config_done zero = do
    status ← alt_fpga_mon_status_get
    elim (config_verdict status) [ some v ↦ pure v | none ↦ pure tmo ]
  wait_for_config_done (suc timeout) = do
    status ← alt_fpga_mon_status_get
    elim (config_verdict status) [ some v ↦ pure v | none ↦ wait_for_config_done timeout ]

  unfoldable pub poll_dclk : ℕ → M dev.State Status
  poll_dclk zero = do
    done ← read dev dclkstat
    if done == dcntdone then (do write dev dclkstat dcntdone; pure success) else pure tmo
  poll_dclk (suc timeout) = do
    done ← read dev dclkstat
    if done == dcntdone then (do write dev dclkstat dcntdone; pure success) else poll_dclk timeout

  unfoldable pub dclk_set_and_wait_clear : ℕ → ℕ → M dev.State Status
  dclk_set_and_wait_clear count timeout = do
    old ← read dev dclkstat
    if old == 0 then pure tt else write dev dclkstat dcntdone
    write dev dclkcnt count
    poll_dclk timeout
