-- ===== src/Fpga/Bus.antt =====
-- The register bus: node/FPGAconfig/socal.h and the registers of alt_fpgamgr.h that the driver uses.
-- The hardware is a parameter, a state with a read and a write of a word. `none` is an access
-- outside a buffer, or a loop that does not end.
use Prim.Native.Nat.{bit_and, bit_or}
use distributed_computing_fr.Prelude.{ℕ, ◌-◌, ◌≡◌, refl, Option, none, some}

-- Status codes of hwlib.h.
pub data Status : Type 0 where
  success error fpga_cfg fpga_crc fpga_cfg_stm fpga_pwr_off fpga_no_soc_ctrl : Status
  fpga_not_user_mode arg_range bad_arg bad_operation inv_option tmo reserved bad_clk : Status
  bad_version buf_ovf : Status

pub data Register : Type 0 where
  stat ctl dclkcnt dclkstat gpo gpi img_data : Register
  mon_inten mon_inttype_level mon_int_pol mon_porta_eoi mon_ext_porta : Register

-- The distance of a register from the start of its mapping.
abbrev pub byte_offset : Register → ℕ
byte_offset stat = 0x0
byte_offset ctl = 0x4
byte_offset dclkcnt = 0x8
byte_offset dclkstat = 0xc
byte_offset gpo = 0x10
byte_offset gpi = 0x14
byte_offset img_data = 0x0
byte_offset mon_inten = 0x830
byte_offset mon_inttype_level = 0x838
byte_offset mon_int_pol = 0x83c
byte_offset mon_porta_eoi = 0x84c
byte_offset mon_ext_porta = 0x850

pub record Device : Type 1 where
  pub State : Type 0
  pub read_word : Register → State → ℕ × State
  pub write_word : Register → ℕ → State → State

-- Effects on the hardware.
abbrev pub M : Type 0 → Type 0 → Type 0
M S A = S → Option (A × S)

infixl 5 ◌>>=◌ ◌>>◌
abbrev pub ◌>>=◌ : {S A B : Type 0} → M S A → (A → M S B) → M S B
◌>>=◌ m f s = elim (m s) [ none ↦ none | some (a, s') ↦ f a s' ]

abbrev pub ◌>>◌ : {S B : Type 0} → M S (Unit {0}) → M S B → M S B
m >> k = m >>= λ _. k

abbrev pub pure : {S A : Type 0} → A → M S A
pure a s = some (a, s)

-- A step whose result is known.
pub >>=-some :
    {S A B : Type 0} (m : M S A) (f : A → M S B) {s s' : S} {a : A}
    → m s ≡ some (a, s')
    → (m >>= f) s ≡ f a s'
>>=-some m f e = rw (e, ◌>>=◌) refl

-- The complement of a 32-bit mask.
abbrev pub not32 : ℕ → ℕ
not32 m = 0xffff_ffff - m

module _ (dev : Device) where
  abbrev pub read : Register → M dev.State ℕ
  read r s = some (dev.read_word r s)

  abbrev pub write : Register → ℕ → M dev.State (Unit {0})
  write r w s = some (tt, dev.write_word r w s)

  abbrev pub setbits : Register → ℕ → M dev.State (Unit {0})
  setbits r bits = do w ← read r; write r (bit_or w bits)

  abbrev pub clrbits : Register → ℕ → M dev.State (Unit {0})
  clrbits r bits = do w ← read r; write r (bit_and w (not32 bits))

  abbrev pub replbits : Register → ℕ → ℕ → M dev.State (Unit {0})
  replbits r mask src = do w ← read r; write r (bit_or (bit_and w (not32 mask)) (bit_and src mask))
