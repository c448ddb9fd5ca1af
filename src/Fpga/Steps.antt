-- ===== src/Fpga/Steps.antt =====
-- node/FPGAconfig/alt_fpga_manager.c, `alt_fpga_internal_configure`: on every path the FPGA is left
-- released from reset. The device is watched: it keeps a log of the words that are written to it.

use distributed_computing_fr.Prelude.{
  ℕ, zero, suc, ◌≡◌, refl, ◌∙◌, Option, none, some, List, [], ◌∷◌, ◌==◌, Bool-cases, inl, inr,
  Option-cases,
}
use distributed_computing_fr.Fpga.Bus.{
  Status, success, tmo, Device, Register, ctl, dclkcnt, dclkstat, M, ◌>>=◌, pure, >>=-some,
}
use distributed_computing_fr.Fpga.Manager.{
  FpgaState, state_code, alt_fpga_mon_status_get, wait_for_fpga_state, config_verdict,
  wait_for_config_done, poll_dclk, dclk_set_and_wait_clear,
}
use distributed_computing_fr.Fpga.Polling.{look, look_keeps, wait_zero, wait_suc}
use distributed_computing_fr.Fpga.Data.{
  FpgaData, write_data, tmo_config, alt_fpga_internal_configure_idata, config_status,
}

-- A device that logs the words written to it, the newest first.
abbrev pub watched : Device → Device
watched dev = record {
  State = dev.State × List (Register × ℕ);
  read_word = λ r s. let (w, s') = dev.read_word r s.0 in (w, (s', s.1));
  write_word = λ r w s. (dev.write_word r w s.0, (r, w) ∷ s.1);
}

-- The word that was written last to the control register.
abbrev pub last_ctl : List (Register × ℕ) → Option ℕ
last_ctl [] = none
last_ctl ((ctl, w) ∷ log) = some w
last_ctl ((r, w) ∷ log) = last_ctl log

module _ (dev : Device) where
  abbrev pub S : Type 0
  S = dev.State × List (Register × ℕ)

  -- A step that returns, and writes nothing to the control register.
  abbrev pub Quiet : {A : Type 0} → M S A → Type 0
  Quiet {A} m = (s : S) → (a : A) × (s' : S) × (m s ≡ some (a, s')) × (last_ctl s'.1 ≡ last_ctl s.1)

  pub Quiet-mon_status : Quiet (alt_fpga_mon_status_get (watched dev))
  unfolding alt_fpga_mon_status_get
  Quiet-mon_status s = (_, _, refl, refl)

  pub look_log : (s : S) → last_ctl (look (watched dev) s).1.1 ≡ last_ctl s.1
  look_log = look_keeps (watched dev) (λ s. last_ctl s.1) (λ r s. refl)

  pub Quiet-wait : (t : FpgaState) (n : ℕ) → Quiet (wait_for_fpga_state (watched dev) t n)
  Quiet-wait t zero s = (_, _, wait_zero (watched dev) t s, look_log s)
  Quiet-wait t (suc n) s = elim (Bool-cases ((look (watched dev) s).0 == state_code t)) [
    | inl hit ↦
        (success, (look (watched dev) s).1, wait_suc (watched dev) t n s ∙ rw hit refl, look_log s)
    | inr miss ↦
        let (a, s', e, same) = Quiet-wait t n (look (watched dev) s).1 in
        (a, s', wait_suc (watched dev) t n s ∙ rw miss e, same ∙ look_log s)
  ]

  pub Quiet-config_done : (n : ℕ) → Quiet (wait_for_config_done (watched dev) n)
  unfolding wait_for_config_done
  Quiet-config_done zero s =
      let (m, s', e, same) = Quiet-mon_status s in
      elim (Option-cases (config_verdict m)) [
        | inl none_yet ↦
            (tmo, s', >>=-some (alt_fpga_mon_status_get (watched dev)) _ e ∙ rw none_yet refl, same)
        | inr (v, said) ↦
            (v, s', >>=-some (alt_fpga_mon_status_get (watched dev)) _ e ∙ rw said refl, same)
      ]
  Quiet-config_done (suc n) s =
      let (m, s', e, same) = Quiet-mon_status s in
      elim (Option-cases (config_verdict m)) [
        | inl none_yet ↦
            let (a, s'', e', same') = Quiet-config_done n s' in
            (
              a,
              s'',
              >>=-some (alt_fpga_mon_status_get (watched dev)) _ e ∙ rw none_yet e',
              same' ∙ same,
            )
        | inr (v, said) ↦
            (v, s', >>=-some (alt_fpga_mon_status_get (watched dev)) _ e ∙ rw said refl, same)
      ]

  -- The device after the status of the clock was read, and after it was cleared as well.
  abbrev polled : S → S
  polled s = ((dev.read_word dclkstat s.0).1, s.1)

  abbrev cleared : S → S
  cleared s = (dev.write_word dclkstat 1 s.0, (dclkstat, 1) ∷ s.1)

  abbrev counting : ℕ → S → S
  counting count s = (dev.write_word dclkcnt count s.0, (dclkcnt, count) ∷ s.1)

  pub Quiet-poll_dclk : (n : ℕ) → Quiet (poll_dclk (watched dev) n)
  unfolding poll_dclk
  Quiet-poll_dclk zero s = elim (Bool-cases ((dev.read_word dclkstat s.0).0 == 1)) [
    | inl done ↦ (success, cleared (polled s), rw done refl, refl)
    | inr busy ↦ (tmo, polled s, rw busy refl, refl)
  ]
  Quiet-poll_dclk (suc n) s = elim (Bool-cases ((dev.read_word dclkstat s.0).0 == 1)) [
    | inl done ↦ (success, cleared (polled s), rw done refl, refl)
    | inr busy ↦ let (a, s', e, same) = Quiet-poll_dclk n (polled s) in (a, s', rw busy e, same)
  ]

  pub Quiet-dclk : (count n : ℕ) → Quiet (dclk_set_and_wait_clear (watched dev) count n)
  unfolding dclk_set_and_wait_clear
  Quiet-dclk count n s = elim (Bool-cases ((dev.read_word dclkstat s.0).0 == 0)) [
    | inl clear ↦
        let (a, s', e, same) = Quiet-poll_dclk n (counting count (polled s)) in
        (a, s', rw clear e, same)
    | inr done ↦
        let (a, s', e, same) = Quiet-poll_dclk n (counting count (cleared (polled s))) in
        (a, s', rw done e, same)
  ]

  -- Data whose transfer returns and keeps to the data register.
  abbrev pub IsSafe : FpgaData S → Type 0
  IsSafe fpga_data = Quiet (write_data (watched dev) fpga_data)

  pub Quiet-idata :
      (fpga_data : FpgaData S)
      → IsSafe fpga_data
      → Quiet (alt_fpga_internal_configure_idata (watched dev) fpga_data)
  unfolding alt_fpga_internal_configure_idata
  Quiet-idata fpga_data safe s =
      let (r, s', e, same) = safe s in
      let (v, s'', e', same') = verdict r s' in
      (v, s'', >>=-some (write_data (watched dev) fpga_data) _ e ∙ e', same' ∙ same)
    where
      verdict :
          (r : Status)
          → Quiet (elim r [
            | success ↦ do v ← wait_for_config_done (watched dev) tmo_config; pure (config_status v)
            | failure ↦ pure failure
          ])
      verdict success t =
          let (v, t', e, same) = Quiet-config_done tmo_config t in
          (
            config_status v,
            t',
            >>=-some (wait_for_config_done (watched dev) tmo_config) (λ v. pure (config_status v))
                e,
            same,
          )
      verdict _ t = (_, t, refl, refl)
