-- ===== src/Fpga/Control.antt =====
-- node/FPGAconfig/alt_fpga_manager.c: the operations on the FPGA refuse without control of it or
-- without power, before they write anything.
use Prim.Native.Nat.{bit_and}
use distributed_computing_fr.Prelude.{◌≡◌, refl, ◌∙◌, Bool, true, false, some, ◌==◌, not}
use distributed_computing_fr.Fpga.Bus.{
  Status, fpga_no_soc_ctrl, fpga_pwr_off, Device, ctl, M, >>=-some,
}
use distributed_computing_fr.Fpga.Manager.{
  power_off, state_code, ctl_en, with_control, alt_fpga_control_is_enabled, alt_fpga_state_get,
  alt_fpga_reset_assert, alt_fpga_reset_deassert,
}
use distributed_computing_fr.Fpga.Polling.{look, state_get-look}
use distributed_computing_fr.Fpga.Data.{FpgaData}
use distributed_computing_fr.Fpga.Configure.{alt_fpga_internal_configure}

module _ (dev : Device) where
  -- The device after its control register was read, and whether that says that CTL.EN is clear.
  abbrev pub asked : dev.State → dev.State
  asked s = (dev.read_word ctl s).1

  abbrev pub has_no_control : dev.State → Bool
  has_no_control s = bit_and (dev.read_word ctl s).0 ctl_en == 0

  abbrev pub is_off : dev.State → Bool
  is_off s = (look dev (asked s)).0 == state_code power_off

  is_enabled_lem :
      (s : dev.State) → alt_fpga_control_is_enabled dev s ≡ some (not (has_no_control s), asked s)
  unfolding alt_fpga_control_is_enabled
  is_enabled_lem s = refl

  module _ {A : Type 0} (fail : Status → A) (body : M dev.State A) (s : dev.State) where
    pub with_control-disabled :
        has_no_control s ≡ true
        → with_control dev fail body s ≡ some (fail fpga_no_soc_ctrl, asked s)
    unfolding with_control
    with_control-disabled no_control =
        >>=-some (alt_fpga_control_is_enabled dev) _ (is_enabled_lem s) ∙ rw no_control refl

    pub with_control-off :
        has_no_control s ≡ false
        → is_off s ≡ true
        → with_control dev fail body s ≡ some (fail fpga_pwr_off, (look dev (asked s)).1)
    unfolding with_control
    with_control-off control off =
        >>=-some (alt_fpga_control_is_enabled dev) _ (is_enabled_lem s)
        ∙ rw control
            (>>=-some (alt_fpga_state_get dev) _ (state_get-look dev (asked s)) ∙ rw off refl)

    pub with_control-on :
        has_no_control s ≡ false
        → is_off s ≡ false
        → with_control dev fail body s ≡ body (look dev (asked s)).1
    unfolding with_control
    with_control-on control on =
        >>=-some (alt_fpga_control_is_enabled dev) _ (is_enabled_lem s)
        ∙ rw control
            (>>=-some (alt_fpga_state_get dev) _ (state_get-look dev (asked s)) ∙ rw on refl)

  -- Without control of the FPGA a reset and a configuration report just that, and they have done
  -- nothing but read the control register.
  no_control_refuses :
      (fpga_data : FpgaData dev.State) (s : dev.State)
      → has_no_control s ≡ true
      → (alt_fpga_internal_configure dev fpga_data s ≡ some (fpga_no_soc_ctrl, asked s))
        × (alt_fpga_reset_assert dev s ≡ some (fpga_no_soc_ctrl, asked s))
        × (alt_fpga_reset_deassert dev s ≡ some (fpga_no_soc_ctrl, asked s))
  unfolding alt_fpga_internal_configure alt_fpga_reset_assert alt_fpga_reset_deassert
  no_control_refuses fpga_data s h = (
    with_control-disabled (λ e. e) _ s h,
    with_control-disabled (λ e. e) _ s h,
    with_control-disabled (λ e. e) _ s h,
  )
