-- ===== src/Fpga/Polling.antt =====
-- node/FPGAconfig/alt_fpga_manager.c: the polling loops poll at most once more than their timeout
-- says, and report the first poll that answers.
use Prim.Native.Nat.{bit_and}
use distributed_computing_fr.Prelude.{
  ℕ, zero, suc, ◌≤◌, ◌<◌, ◌≡◌, ◌≢◌, refl, ◌∙◌, false, some, arith, ◌==◌, if◌then◌else◌, Bool-cases,
  inl, inr, ◌⊎◌,
}
use distributed_computing_fr.Fpga.Bus.{
  success, tmo, Device, Register, pure, >>=-some, stat, mon_ext_porta,
}
use distributed_computing_fr.Fpga.Manager.{
  FpgaState, state_code, alt_fpga_state_get, wait_for_fpga_state, power_off, stat_mod_get,
  mon_fpga_power_on,
}

ne_of_miss : (a b : ℕ) → (a == b) ≡ false → a ≢ b
ne_of_miss a b h = ground arith

module _ (dev : Device) where
  -- One look at the state of the FPGA: its value, and the device after it.
  pub look : dev.State → ℕ × dev.State
  look s =
      let (m, s') = dev.read_word mon_ext_porta s in
      if bit_and (bit_and m 0xfff) mon_fpga_power_on == 0
      then (state_code power_off, s')
      else (let (w, s'') = dev.read_word stat s' in (stat_mod_get w, s''))

  pub state_get-look : (s : dev.State) → alt_fpga_state_get dev s ≡ some (look s)
  unfolding alt_fpga_state_get look
  state_get-look s = ground arith

  -- A look only reads: what every read keeps, a look keeps.
  pub look_keeps :
      {A : Type 0} (view : dev.State → A)
      → ((r : Register) (s : dev.State) → view (dev.read_word r s).1 ≡ view s)
      → (s : dev.State) → view (look s).1 ≡ view s
  unfolding look
  look_keeps view keep s =
      elim (Bool-cases
        (bit_and (bit_and (dev.read_word mon_ext_porta s).0 0xfff) mon_fpga_power_on == 0)) [
          | inl off ↦ rw (off, look) (keep mon_ext_porta s)
          | inr on ↦ rw (on, look) (keep stat _ ∙ keep mon_ext_porta s)
        ]

  -- The device after `k` looks, and what the next one sees.
  pub after : ℕ → dev.State → dev.State
  after zero s = s
  after (suc k) s = after k (look s).1

  abbrev pub seen : ℕ → dev.State → ℕ
  seen k s = (look (after k s)).0

  pub wait_zero :
      (t : FpgaState) (s : dev.State)
      → wait_for_fpga_state dev t zero s
        ≡ some (if (look s).0 == state_code t then success else tmo, (look s).1)
  unfolding wait_for_fpga_state
  wait_zero t s = >>=-some (alt_fpga_state_get dev) _ (state_get-look s)

  pub wait_suc :
      (t : FpgaState) (n : ℕ) (s : dev.State)
      → wait_for_fpga_state dev t (suc n) s
        ≡ (if (look s).0 == state_code t then pure success else wait_for_fpga_state dev t n)
            (look s).1
  unfolding wait_for_fpga_state
  wait_suc t n s = >>=-some (alt_fpga_state_get dev) _ (state_get-look s)

  -- What a wait of at most `n + 1` looks gives.
  abbrev pub Waits : FpgaState → ℕ → dev.State → Type 0
  Waits t n s =
      ((k : ℕ) × (k ≤ n)
        × (seen k s ≡ state_code t)
        × ((j : ℕ) → j < k → seen j s ≢ state_code t)
        × (wait_for_fpga_state dev t n s ≡ some (success, after (suc k) s)))
      ⊎ (((j : ℕ) → j ≤ n → seen j s ≢ state_code t)
          × (wait_for_fpga_state dev t n s ≡ some (tmo, after (suc n) s)))

  later_miss :
      (t : FpgaState) (s : dev.State) (n : ℕ)
      → (look s).0 ≢ state_code t
      → ((j : ℕ) → j < n → seen j (look s).1 ≢ state_code t)
      → (j : ℕ) → j < suc n
      → seen j s ≢ state_code t
  unfolding after
  later_miss t s n miss h zero lt = miss
  later_miss t s n miss h (suc j) lt = h j (omega arith)

  -- The wait for a state of the FPGA ends on every device. It succeeds exactly at the first of its
  -- `timeout + 1` looks that sees the state, and times out after all of them if none does.
  pub wait_for_fpga_state-Waits : (t : FpgaState) (timeout : ℕ) (s : dev.State) → Waits t timeout s
  unfolding after
  wait_for_fpga_state-Waits t zero s = elim (Bool-cases ((look s).0 == state_code t)) [
    | inl hit ↦ inl (
      0,
      omega arith,
      ground (arith, hit),
      (λ j lt. absurd (omega arith)),
      wait_zero t s ∙ rw hit refl,
    )
    | inr miss ↦ inr (
      (λ j le.
          later_miss t s 0 (ne_of_miss _ _ miss) (λ i lt. absurd (omega arith)) j (omega arith)),
      wait_zero t s ∙ rw miss refl,
    )
  ]
  wait_for_fpga_state-Waits t (suc n) s = elim (Bool-cases ((look s).0 == state_code t)) [
    | inl hit ↦ inl (
      0,
      omega arith,
      ground (arith, hit),
      (λ j lt. absurd (omega arith)),
      wait_suc t n s ∙ rw hit refl,
    )
    | inr miss ↦ elim (wait_for_fpga_state-Waits t n (look s).1) [
      | inl (k, le, at, before, e) ↦ inl (
        suc k,
        omega arith,
        at,
        later_miss t s k (ne_of_miss _ _ miss) before,
        wait_suc t n s ∙ rw miss e,
      )
      | inr (none_seen, e) ↦ inr (
        (λ j le.
            later_miss t s (suc n) (ne_of_miss _ _ miss) (λ i lt. none_seen i (omega arith)) j
              (omega arith)),
        wait_suc t n s ∙ rw miss e,
      )
    ]
  ]
