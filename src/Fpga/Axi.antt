-- ===== src/Fpga/Axi.antt =====
-- node/FPGAconfig/alt_fpga_manager.c, `alt_fpga_internal_writeaxi`: what reaches the data register.
use Prim.Native.Nat.{bit_and}
use native.Mathlib.Nat.{add-zero}
use mathlib.Core.List.{append_assoc}
use distributed_computing_fr.Prelude.{
  ℕ, zero, suc, ◌+◌, ◌-◌, ◌*◌, ◌/◌, ◌%◌, ◌≤◌, ◌<◌, ◌≡◌, refl, sym, ap, ap₂, ◌∙◌, true, some, List,
  [], ◌∷◌, ◌++◌, length, length-append, arith, leb, ◌==◌, if◌then◌else◌, read32, read32-append,
  le32,
}
use distributed_computing_fr.Fpga.Bus.{success, Device, img_data, >>=-some}
use distributed_computing_fr.Fpga.Data.{write_words, write_rest, alt_fpga_internal_writeaxi}

-- The whole words of a buffer, little-endian, and the bytes that are left over.
abbrev pub words_of : List ℕ → List ℕ
words_of (a ∷ b ∷ c ∷ d ∷ rest) = (a + 256 * b + 65536 * c + 16777216 * d) ∷ words_of rest
words_of _ = []

-- Bytes, as a buffer of the source holds them.
abbrev pub AreBytes : List ℕ → Type 0
AreBytes [] = Unit
AreBytes (b ∷ bs) = (b < 256) × AreBytes bs

abbrev pub bytes_of : List ℕ → List ℕ
bytes_of [] = []
bytes_of (w ∷ ws) = le32 w ++ bytes_of ws

module _ (dev : Device) where
  -- The device after words were written to the data register, in order.
  abbrev pub write_all : List ℕ → dev.State → dev.State
  write_all [] s = s
  write_all (w ∷ ws) s = write_all ws (dev.write_word img_data w s)

  pub write_words_step :
      (fuel : ℕ) (buf : List ℕ) (i len w : ℕ) (s : dev.State)
      → leb 4 len ≡ true
      → read32 buf (4 * i) ≡ some w
      → write_words dev (suc fuel) buf i len s
        ≡ write_words dev fuel buf (i + 1) (len - 4) (dev.write_word img_data w s)
  unfolding write_words
  write_words_step fuel buf i len w s more e = rw (more, e) refl

  read_middle :
      (i a b c d : ℕ) (pre rest : List ℕ)
      → length pre ≡ 4 * i
      → read32 (pre ++ (a ∷ b ∷ c ∷ d ∷ rest)) (4 * i)
        ≡ some (a + 256 * b + 65536 * c + 16777216 * d)
  read_middle i a b c d pre rest e =
      ap (read32 (pre ++ (a ∷ b ∷ c ∷ d ∷ rest))) (sym e ∙ sym (add-zero (length pre)))
      ∙ read32-append pre (a ∷ b ∷ c ∷ d ∷ rest) 0

  -- The loop from the middle of a buffer.
  write_words_lem :
      (fuel i : ℕ) (pre rest : List ℕ) (s : dev.State)
      → length pre ≡ 4 * i
      → length rest ≤ fuel
      → write_words dev fuel (pre ++ rest) i (length rest) s
        ≡ some (length rest % 4, write_all (words_of rest) s)
  unfolding write_words
  write_words_lem zero i pre [] s e h = refl
  write_words_lem zero i pre (a ∷ rest) s e h = absurd (omega arith)
  write_words_lem (suc fuel) i pre [] s e h = refl
  write_words_lem (suc fuel) i pre (a ∷ []) s e h = refl
  write_words_lem (suc fuel) i pre (a ∷ b ∷ []) s e h = refl
  write_words_lem (suc fuel) i pre (a ∷ b ∷ c ∷ []) s e h = refl
  write_words_lem (suc fuel) i pre (a ∷ b ∷ c ∷ d ∷ rest) s e h =
      write_words_step fuel (pre ++ (a ∷ b ∷ c ∷ d ∷ rest)) i (length (a ∷ b ∷ c ∷ d ∷ rest)) word s
        (ground arith) (read_middle i a b c d pre rest e)
      ∙ ap₂
          (λ (buf : List ℕ) (n : ℕ).
            write_words dev fuel buf (i + 1) n (dev.write_word img_data word s))
          (sym (append_assoc pre (a ∷ b ∷ c ∷ d ∷ []) rest)) (omega arith)
      ∙ write_words_lem fuel (i + 1) (pre ++ (a ∷ b ∷ c ∷ d ∷ [])) rest
          (dev.write_word img_data word s) (omega (arith, length-append pre (a ∷ b ∷ c ∷ d ∷ [])))
          (omega arith)
      ∙ ap (λ (n : ℕ). some (n, write_all (words_of rest) (dev.write_word img_data word s)))
          (omega arith)
    where
      word : ℕ
      word = a + 256 * b + 65536 * c + 16777216 * d

  pub write_rest_none :
      (buf : List ℕ) (len : ℕ) (s : dev.State)
      → len % 4 ≡ 0
      → write_rest dev buf len s ≡ some (success, s)
  unfolding write_rest
  write_rest_none buf len s e = rw (e, write_rest) refl

  -- A buffer whose length is a multiple of four goes to the data register whole, word after word.
  pub writeaxi_aligned :
      (buf : List ℕ) (s : dev.State)
      → length buf % 4 ≡ 0
      → alt_fpga_internal_writeaxi dev buf (length buf) s
        ≡ some (success, write_all (words_of buf) s)
  unfolding alt_fpga_internal_writeaxi
  writeaxi_aligned buf s e =
      >>=-some (write_words dev (length buf) buf 0 (length buf)) (write_rest dev buf)
        (write_words_lem (length buf) 0 [] buf s refl (omega arith))
      ∙ write_rest_none buf (length buf % 4) (write_all (words_of buf) s) (omega arith)

  -- What the source writes of the bytes left over: the same number of bytes from the first word.
  abbrev pub rest_mask : ℕ → ℕ
  rest_mask rest = if rest == 3 then 0x00ff_ffff else if rest == 2 then 0x0000_ffff else 0x0000_00ff

  pub write_rest-some :
      (buf : List ℕ) (rest w : ℕ) (s : dev.State)
      → 0 < rest
      → rest < 4
      → read32 buf 0 ≡ some w
      → write_rest dev buf rest s
        ≡ some (success, dev.write_word img_data (bit_and w (rest_mask rest)) s)
  unfolding write_rest
  write_rest-some buf zero w s pos small e = absurd (omega arith)
  write_rest-some buf (suc zero) w s pos small e = rw (e, write_rest) refl
  write_rest-some buf (suc (suc zero)) w s pos small e = rw (e, write_rest) refl
  write_rest-some buf (suc (suc (suc zero))) w s pos small e = rw (e, write_rest) refl
  write_rest-some buf (suc (suc (suc (suc n)))) w s pos small e = absurd (omega arith)

  -- A buffer of at least four bytes whose length is no multiple of four: its whole words arrive, but
  -- what follows them are the first bytes of its first word, not its last bytes.
  writeaxi_unaligned :
      (a b c d : ℕ) (rest : List ℕ) (s : dev.State)
      → 0 < length rest % 4
      → let buf = a ∷ b ∷ c ∷ d ∷ rest in
        alt_fpga_internal_writeaxi dev buf (length buf) s
        ≡ some (
          success,
          dev.write_word img_data
              (bit_and (a + 256 * b + 65536 * c + 16777216 * d) (rest_mask (length rest % 4)))
              (write_all (words_of buf) s),
        )
  unfolding alt_fpga_internal_writeaxi
  writeaxi_unaligned a b c d rest s pos =
      >>=-some (write_words dev (length buf) buf 0 (length buf)) (write_rest dev buf)
        (write_words_lem (length buf) 0 [] buf s refl (omega arith))
      ∙ ap (λ (r : ℕ). write_rest dev buf r (write_all (words_of buf) s)) (omega arith)
      ∙ write_rest-some buf (length rest % 4) word (write_all (words_of buf) s) pos (omega arith)
          refl
    where
      buf : List ℕ
      buf = a ∷ b ∷ c ∷ d ∷ rest

      word : ℕ
      word = a + 256 * b + 65536 * c + 16777216 * d

-- The words of a buffer hold all its bytes, in order.
pub bytes_of-words_of :
    (buf : List ℕ) → AreBytes buf → length buf % 4 ≡ 0 → bytes_of (words_of buf) ≡ buf
bytes_of-words_of [] h e = refl
bytes_of-words_of (a ∷ []) h e = absurd (omega arith)
bytes_of-words_of (a ∷ b ∷ []) h e = absurd (omega arith)
bytes_of-words_of (a ∷ b ∷ c ∷ []) h e = absurd (omega arith)
bytes_of-words_of (a ∷ b ∷ c ∷ d ∷ rest) h e =
    let byte0 : (a + 256 * b + 65536 * c + 16777216 * d) % 256 ≡ a = omega arith in
    let byte1 : (a + 256 * b + 65536 * c + 16777216 * d) / 256 % 256 ≡ b = omega arith in
    let byte2 : (a + 256 * b + 65536 * c + 16777216 * d) / 65536 % 256 ≡ c = omega arith in
    let byte3 : (a + 256 * b + 65536 * c + 16777216 * d) / 16777216 % 256 ≡ d = omega arith in
    let later = bytes_of-words_of rest h.1.1.1.1 (omega arith) in
    λ i. byte0 i ∷ byte1 i ∷ byte2 i ∷ byte3 i ∷ later i

-- A buffer of bytes whose length is a multiple of four arrives at the data register as words that
-- hold exactly its bytes, in order; the call succeeds and writes nothing else.
pub writeaxi-bytes :
    (dev : Device) (buf : List ℕ) (s : dev.State)
    → AreBytes buf
    → length buf % 4 ≡ 0
    → (ws : List ℕ) × (alt_fpga_internal_writeaxi dev buf (length buf) s
        ≡ some (success, write_all dev ws s))
      × (bytes_of ws ≡ buf)
writeaxi-bytes dev buf s bytes e =
    (words_of buf, writeaxi_aligned dev buf s e, bytes_of-words_of buf bytes e)
