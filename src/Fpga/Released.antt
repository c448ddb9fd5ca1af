-- ===== src/Fpga/Released.antt =====
-- node/FPGAconfig/alt_fpga_manager.c, `alt_fpga_internal_configure`: on every path the FPGA is left
-- released from reset.
use Prim.Native.Nat.{bit_or}
use distributed_computing_fr.Prelude.{
  ℕ, ◌≡◌, refl, sym, ◌∙◌, subst, Option, none, some, List, ◌∷◌, arith, Bool-cases, inl, inr, ◌≤◌,
  ltb, length,
}
use distributed_computing_fr.Fpga.Bus.{
  Status, success, error, fpga_cfg, tmo, Device, Register, ctl, stat, mon_porta_eoi, M, ◌>>=◌, pure,
  >>=-some, read,
}
use distributed_computing_fr.Fpga.Bits.{bit2, bit2-and, bit2-or}
use distributed_computing_fr.Fpga.Manager.{
  reset, cfg, user_mode, alt_fpga_cfg_mode_get, wait_for_fpga_state, dclk_set_and_wait_clear,
}
use distributed_computing_fr.Fpga.Polling.{look}
use distributed_computing_fr.Fpga.Control.{
  has_no_control, is_off, asked, with_control-disabled, with_control-off, with_control-on,
}
use distributed_computing_fr.Fpga.Stream.{writeaxi_total}
use distributed_computing_fr.Fpga.Data.{
  FpgaData, full, write_data, data_limit, alt_fpga_internal_configure_idata,
}
use distributed_computing_fr.Fpga.Configure.{
  finish_steps, data_steps, reset_steps, mode_steps, alt_fpga_internal_configure,
  alt_fpga_configure, mode_params, CfgWidth, CdRatio, data_or_cfg, set_ncfgpull, clr_ncfgpull,
  set_axicfgen, clr_axicfgen, step1_ctl, tmo_state, tmo_dclk,
}
use distributed_computing_fr.Fpga.Steps.{
  watched, last_ctl, S, Quiet, IsSafe, Quiet-wait, Quiet-dclk, Quiet-idata, look_log,
}

-- The bit NCONFIGPULL, which holds the FPGA in reset, is clear in the word written last, if any.
abbrev pub IsReleased : Option ℕ → Type 0
IsReleased none = Unit
IsReleased (some w) = bit2 w ≡ 0

clr_released : (w : ℕ) → bit2 (clr_ncfgpull w) ≡ 0
clr_released w = omega (arith, bit2-and w 0xffff_fffb)

data_released : (w : ℕ) → bit2 w ≡ 0 → bit2 (clr_axicfgen (set_axicfgen w)) ≡ 0
data_released w h =
    omega (arith, bit2-and (bit_or w 0x0000_0100) 0xffff_feff, bit2-or w 0x0000_0100)

module _ (dev : Device) where
  -- A step that returns, and leaves the FPGA released if it found it so.
  abbrev pub Ends : {A : Type 0} → M (S dev) A → Type 0
  Ends {A} m =
      (s : S dev)
      → (a : A) × (s' : S dev) × (m s ≡ some (a, s'))
        × (IsReleased (last_ctl s.1) → IsReleased (last_ctl s'.1))

  Quiet-finish : (d : Status) → Quiet dev (finish_steps (watched dev) d)
  unfolding finish_steps
  Quiet-finish d s =
      let (r, s', e, same) = Quiet-dclk dev 4 tmo_dclk s in
      let (v, s'', e', same') = rest r s' in
      (v, s'', >>=-some (dclk_set_and_wait_clear (watched dev) 4 tmo_dclk) _ e ∙ e', same' ∙ same)
    where
      rest :
          (r : Status)
          → Quiet dev (elim r [
            | success ↦ do
              state ← wait_for_fpga_state (watched dev) user_mode tmo_state
              pure (elim state [ tmo ↦ data_or_cfg d | _ ↦ d ])
            | _ ↦ pure (data_or_cfg d)
          ])
      rest success t =
          let (v, t', e, same) = Quiet-wait dev user_mode tmo_state t in
          (
            elim v [ tmo ↦ data_or_cfg d | _ ↦ d ],
            t',
            >>=-some (wait_for_fpga_state (watched dev) user_mode tmo_state) _ e,
            same,
          )
      rest _ t = (_, t, refl, refl)

  -- After a write of a word to the control register, that word is the last.
  abbrev controlled : ℕ → S dev → S dev
  controlled w s = (dev.write_word ctl w s.0, (ctl, w) ∷ s.1)

  Ends-data :
      (fpga_data : FpgaData (S dev)) (w : ℕ)
      → IsSafe dev fpga_data
      → bit2 w ≡ 0
      → Ends (data_steps (watched dev) fpga_data w)
  unfolding data_steps
  Ends-data fpga_data w safe h s =
      let opened =
        controlled (set_axicfgen w)
          (dev.write_word mon_porta_eoi 1 s.0, (mon_porta_eoi, 1) ∷ s.1) in
      let (d, s', e, same) = Quiet-idata dev fpga_data safe opened in
      let closed = controlled (clr_axicfgen (set_axicfgen w)) s' in
      let (v, s'', e', same') = Quiet-finish d closed in
      (
        v,
        s'',
        >>=-some (alt_fpga_internal_configure_idata (watched dev) fpga_data) _ e ∙ e',
        λ _. subst IsReleased (sym same') (data_released w h),
      )

  Ends-reset :
      (fpga_data : FpgaData (S dev)) (w : ℕ)
      → IsSafe dev fpga_data
      → (s : S dev)
      → (a : Status) × (s' : S dev) × (reset_steps (watched dev) fpga_data w s ≡ some (a, s'))
        × IsReleased (last_ctl s'.1)
  unfolding reset_steps
  Ends-reset fpga_data w safe s =
      let (r, s', e, same) = Quiet-wait dev reset tmo_state (controlled (set_ncfgpull w) s) in
      let (v, s'', e', ends) = configured r (controlled released s') in
      (
        v,
        s'',
        >>=-some (wait_for_fpga_state (watched dev) reset tmo_state) _ e ∙ e',
        ends (clr_released (set_ncfgpull w)),
      )
    where
      released : ℕ
      released = clr_ncfgpull (set_ncfgpull w)

      phase :
          (r : Status)
          → Ends
              (elim r [ success ↦ data_steps (watched dev) fpga_data released | _ ↦ pure fpga_cfg ])
      phase success t = Ends-data fpga_data released safe (clr_released (set_ncfgpull w)) t
      phase _ t = (fpga_cfg, t, refl, λ ok. ok)

      configured :
          (r : Status)
          → Ends (elim r [
            | success ↦ do
              status' ← wait_for_fpga_state (watched dev) cfg tmo_state
              elim status' [
                | success ↦ data_steps (watched dev) fpga_data released
                | _ ↦ pure fpga_cfg
              ]
            | _ ↦ pure fpga_cfg
          ])
      configured success t =
          let (q, t', e, same) = Quiet-wait dev cfg tmo_state t in
          let (v, t'', e', ends) = phase q t' in
          (
            v,
            t'',
            >>=-some (wait_for_fpga_state (watched dev) cfg tmo_state) _ e ∙ e',
            λ ok. ends (subst IsReleased (sym same) ok),
          )
      configured _ t = (fpga_cfg, t, refl, λ ok. ok)

  Ends-mode :
      (fpga_data : FpgaData (S dev)) (w : ℕ) (o : Option (CfgWidth × CdRatio))
      → IsSafe dev fpga_data
      → Ends (mode_steps (watched dev) fpga_data w o)
  unfolding mode_steps
  Ends-mode fpga_data w none safe s = (error, s, refl, λ h. h)
  Ends-mode fpga_data w (some (width, ratio)) safe s =
      let (v, s', e, ends) =
        Ends-reset fpga_data (step1_ctl width ratio w) safe
          (controlled (step1_ctl width ratio w) s) in
      (v, s', e, λ _. ends)

  -- The device after its control register and its configuration mode were read.
  abbrev moded : S dev → S dev
  moded s = ((dev.read_word stat (dev.read_word ctl s.0).1).1, s.1)

  Ends-body :
      (fpga_data : FpgaData (S dev))
      → IsSafe dev fpga_data
      → Ends (do
        ctrl_reg ← read (watched dev) ctl
        mode ← alt_fpga_cfg_mode_get (watched dev)
        mode_steps (watched dev) fpga_data ctrl_reg (mode_params mode))
  unfolding alt_fpga_cfg_mode_get
  Ends-body fpga_data safe s = Ends-mode fpga_data _ (mode_params _) safe (moded s)

  Ends-configure :
      (fpga_data : FpgaData (S dev))
      → IsSafe dev fpga_data
      → Ends (alt_fpga_internal_configure (watched dev) fpga_data)
  unfolding alt_fpga_internal_configure
  Ends-configure fpga_data safe s = elim (Bool-cases (has_no_control (watched dev) s)) [
    | inl no_control ↦ (_, _, with_control-disabled (watched dev) (λ e. e) _ s no_control, λ h. h)
    | inr control ↦ elim (Bool-cases (is_off (watched dev) s)) [
      | inl off ↦ (
        _,
        _,
        with_control-off (watched dev) (λ e. e) _ s control off,
        λ h. subst IsReleased (sym (look_log dev (asked (watched dev) s))) h,
      )
      | inr on ↦
          let looked = (look (watched dev) (asked (watched dev) s)).1 in
          let (v, s', e, ends) = Ends-body fpga_data safe looked in
          (
            v,
            s',
            with_control-on (watched dev) (λ e. e) _ s control on ∙ e,
            λ h. ends (subst IsReleased (sym (look_log dev (asked (watched dev) s))) h),
          )
    ]
  ]

  full-IsSafe :
      (buf : List ℕ) (len : ℕ) → len ≤ length buf → 4 ≤ length buf → IsSafe dev (full buf len)
  unfolding write_data
  full-IsSafe buf len fits long s = elim (Bool-cases (ltb data_limit len)) [
    | inl over ↦ (fpga_cfg, s, rw over refl, refl)
    | inr within ↦
        let (s', e, same) =
          writeaxi_total (watched dev) (λ t. last_ctl t.1) (λ w t. refl) buf len s fits long in
        (success, s', rw within e, same)
  ]

  pub configure-Ends :
      (buf : List ℕ) (len : ℕ)
      → len ≤ length buf
      → 4 ≤ length buf
      → Ends (alt_fpga_configure (watched dev) buf len)
  unfolding alt_fpga_configure
  configure-Ends buf len fits long s =
      Ends-configure (full buf len) (full-IsSafe buf len fits long) s

  -- A configuration from a buffer of a word at least, which holds the length that is given, ends on
  -- every device, with some status. On every path, the failures and the timeouts included, the last
  -- word written to the control register leaves the FPGA released from reset, if it was not held in
  -- reset by a word written before.
  pub configure-IsReleased :
      (buf : List ℕ) (len : ℕ) (s : dev.State × List (Register × ℕ))
      → len ≤ length buf
      → 4 ≤ length buf
      → IsReleased (last_ctl s.1)
      → (a : Status) × (s' : dev.State × List (Register × ℕ)) × (alt_fpga_configure
            (watched dev)
            buf
            len
            s
          ≡ some (a, s'))
        × IsReleased (last_ctl s'.1)
  configure-IsReleased buf len s fits long h =
      let (v, s', e, ends) = configure-Ends buf len fits long s in (v, s', e, ends h)
