-- ===== src/Fpga/Entry.antt =====
-- node/FPGAconfig/writeConfig.hpp, `writeFPGAconfig`: the driver gives the control of the FPGA back.
use Prim.Native.Nat.{bit_and, bit_or}
use distributed_computing_fr.Prelude.{
  ℕ, ◌%◌, ◌≤◌, ◌≡◌, refl, ◌∙◌, Bool, true, false, some, List, ◌∷◌, length, arith,
}
use distributed_computing_fr.Fpga.Bus.{success, Device, Register, ctl, >>=-some, not32}
use distributed_computing_fr.Fpga.Bits.{and_lowest}
use distributed_computing_fr.Fpga.Manager.{ctl_en, alt_fpga_state_get}
use distributed_computing_fr.Fpga.Polling.{look, state_get-look}
use distributed_computing_fr.Fpga.Configure.{alt_fpga_configure, write_fpga_config}
use distributed_computing_fr.Fpga.Steps.{watched, last_ctl, S}
use distributed_computing_fr.Fpga.Released.{configure-Ends}

-- The bit EN, with which the processor controls the FPGA, is clear.
abbrev pub GivesBack : ℕ → Type 0
GivesBack w = w % 2 ≡ 0

disabled-GivesBack : (w : ℕ) → GivesBack (bit_and w (not32 ctl_en))
disabled-GivesBack w = omega (arith, and_lowest w (not32 ctl_en))

-- `writeFPGAconfig` returns on every device, for a buffer of a word at least which holds the length
-- that is given. On every path, whatever becomes of the configuration, the last word that it writes
-- to the control register gives the control of the FPGA back.
pub write_fpga_config-GivesBack :
    (dev : Device) (buf : List ℕ) (len : ℕ) (s : dev.State × List (Register × ℕ))
    → len ≤ length buf
    → 4 ≤ length buf
    → (ok : Bool) × (s' : dev.State × List (Register × ℕ)) × (w : ℕ) × (write_fpga_config
          (watched dev)
          buf
          len
          s
        ≡ some (ok, s'))
      × (last_ctl s'.1 ≡ some w)
      × GivesBack w
unfolding write_fpga_config
write_fpga_config-GivesBack dev buf len s fits long =
    let asked = dev.read_word ctl s.0 in
    let taken : ℕ = bit_or asked.0 ctl_en in
    let enabled : S dev = (dev.write_word ctl taken asked.1, (ctl, taken) ∷ s.1) in
    let looked = look (watched dev) enabled in
    let (status, s₁, e, ends) = configure-Ends dev buf len fits long looked.1 in
    let last = dev.read_word ctl s₁.0 in
    let given : ℕ = bit_and last.0 (not32 ctl_en) in
    (
      elim status [ success ↦ true | _ ↦ false ],
      (dev.write_word ctl given last.1, (ctl, given) ∷ s₁.1),
      given,
      >>=-some (alt_fpga_state_get (watched dev)) _ (state_get-look (watched dev) enabled)
          ∙ >>=-some (alt_fpga_configure (watched dev) buf len) _ e,
      refl,
      disabled-GivesBack last.0,
    )
