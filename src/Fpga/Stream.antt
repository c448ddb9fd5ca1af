-- ===== src/Fpga/Stream.antt =====
-- node/FPGAconfig/alt_fpga_manager.c: configuration data from a stream. Whatever the callback
-- gives, as long as it returns, the loop ends within the data limit.

use distributed_computing_fr.Prelude.{
  ℕ, zero, suc, ◌+◌, ◌-◌, ◌*◌, ◌%◌, ◌≤◌, ◌<◌, ◌≡◌, refl, ap, ◌∙◌, true, Option, none, some, List,
  length, arith, ltb, leb, ◌==◌, read32-some, Bool-cases, inl, inr, ◌⊎◌,
}
use distributed_computing_fr.Fpga.Bus.{Status, success, fpga_cfg_stm, Device, img_data, M, >>=-some}
use distributed_computing_fr.Fpga.Axi.{write_words_step, write_rest_none, write_rest-some}
use distributed_computing_fr.Fpga.Data.{
  ℤ, pos, negsuc, Chunk, write_words, write_rest, alt_fpga_internal_writeaxi, stream_round,
  stream_loop, istream_chunk_size, data_limit, write_data, istream,
}

module _ (dev : Device) where
  -- What a write to the data register keeps, a transfer keeps.
  module _ {A : Type 0} (view : dev.State → A)
      (keep : (w : ℕ) (s : dev.State) → view (dev.write_word img_data w s) ≡ view s) where
    -- The loop stays inside a buffer that holds the length.
    write_words-some :
        (fuel i len : ℕ) (buf : List ℕ) (s : dev.State)
        → 4 * i + len ≤ length buf
        → len ≤ fuel
        → (s' : dev.State) × (write_words dev fuel buf i len s ≡ some (len % 4, s'))
          × (view s' ≡ view s)
    unfolding write_words
    write_words-some zero i len buf s h le = (s, ap (λ (n : ℕ). some (n, s)) (omega arith), refl)
    write_words-some (suc fuel) i len buf s h le = elim (Bool-cases (leb 4 len)) [
      | inl more ↦
          let (w, e) = read32-some buf (4 * i) (ground arith) in
          let (s', e', same) =
            write_words-some fuel (i + 1) (len - 4) buf (dev.write_word img_data w s) (ground arith)
              (omega arith) in
          (
            s',
            write_words_step dev fuel buf i len w s more e
                ∙ e'
                ∙ ap (λ (n : ℕ). some (n, s')) (ground arith),
            same ∙ keep w s,
          )
      | inr done ↦ (s, rw done (ap (λ (n : ℕ). some (n, s)) (ground arith)), refl)
    ]

    write_rest_total :
        (buf : List ℕ) (left : ℕ) (s : dev.State)
        → 4 ≤ length buf
        → left < 4
        → (s' : dev.State) × (write_rest dev buf left s ≡ some (success, s')) × (view s' ≡ view s)
    write_rest_total buf zero s long small = (s, write_rest_none dev buf 0 s refl, refl)
    write_rest_total buf (suc n) s long small =
        let (w, e) = read32-some buf 0 (omega arith) in
        (_, write_rest-some dev buf (suc n) w s (omega arith) small e, keep _ s)

    -- Any length that the buffer holds is written with success, if the buffer has a word at least.
    pub writeaxi_total :
        (buf : List ℕ) (len : ℕ) (s : dev.State)
        → len ≤ length buf
        → 4 ≤ length buf
        → (s' : dev.State) × (alt_fpga_internal_writeaxi dev buf len s ≡ some (success, s'))
          × (view s' ≡ view s)
    unfolding alt_fpga_internal_writeaxi
    writeaxi_total buf len s fits long =
        let (s', e, same) = write_words-some len 0 len buf s (omega arith) (omega arith) in
        let (s'', e', same') = write_rest_total buf (len % 4) s' long (omega arith) in
        (s'', >>=-some (write_words dev len buf 0 len) (write_rest dev buf) e ∙ e', same' ∙ same)

  -- A round that goes on has taken a byte at least from the limit, and no more than it held.
  abbrev pub Progresses : Chunk → ℕ → dev.State → Type 0
  Progresses c limit s =
      (r : Status × Option ℕ) × (s' : dev.State) × (stream_round dev c limit s ≡ some (r, s'))
      × ((r.1 ≡ none) ⊎ ((n : ℕ) × (r.1 ≡ some (limit - n)) × (0 < n) × (n ≤ limit)))

  stream_round-Progresses :
      (c : Chunk) (z : ℤ) (limit : ℕ) (s : dev.State)
      → c.status ≡ z
      → length c.buffer ≡ istream_chunk_size
      → Progresses c limit s
  unfolding stream_round
  stream_round-Progresses c (negsuc n) limit s e sized =
      ((fpga_cfg_stm, none), s, rw (e, stream_round) refl, inl refl)
  stream_round-Progresses c (pos n) limit s e sized = elim (Bool-cases (ltb istream_chunk_size n)) [
    | inl over ↦ ((fpga_cfg_stm, none), s, rw (e, stream_round) (rw over refl), inl refl)
    | inr fits ↦ elim (Bool-cases (n == 0)) [
      | inl end ↦ ((success, none), s, rw (e, stream_round) (rw (fits, end) refl), inl refl)
      | inr some_bytes ↦ elim (Bool-cases (ltb limit n)) [
        | inl hit ↦ (
          (fpga_cfg_stm, none),
          s,
          rw (e, stream_round) (rw (fits, some_bytes, hit) refl),
          inl refl,
        )
        | inr within ↦
            let (s', w, same) =
              writeaxi_total (λ t. true) (λ v t. refl) c.buffer n s (ground arith) (omega arith) in
            (
              (success, some (limit - n)),
              s',
              rw (e, stream_round)
                  (rw (fits, some_bytes, within)
                    (>>=-some (alt_fpga_internal_writeaxi dev c.buffer n) _ w)),
              inr (n, refl, ground arith, ground arith),
            )
      ]
    ]
  ]

  -- A callback that returns, and leaves a buffer of the size that it was given.
  abbrev pub IsStream : M dev.State Chunk → Type 0
  IsStream stream =
      (s : dev.State)
      → (c : Chunk) × (s' : dev.State) × (stream s ≡ some (c, s'))
        × (length c.buffer ≡ istream_chunk_size)

  stream_loop_total :
      (fuel : ℕ) (stream : M dev.State Chunk) (limit : ℕ) (s : dev.State)
      → IsStream stream
      → limit < fuel
      → (r : Status) × (s' : dev.State) × (stream_loop dev fuel stream limit s ≡ some (r, s'))
  unfolding stream_loop
  stream_loop_total zero stream limit s ok h = absurd (omega arith)
  stream_loop_total (suc fuel) stream limit s ok h =
      let (c, s1, e1, sized) = ok s in
      let (r, s2, e2, next) = stream_round-Progresses c c.status limit s1 refl sized in
      elim next [
        | inl last ↦ (
          r.0,
          s2,
          >>=-some stream _ e1 ∙ >>=-some (stream_round dev c limit) _ e2 ∙ rw last refl,
        )
        | inr (n, more, some_bytes, within) ↦
            let (q, s3, e3) = stream_loop_total fuel stream (limit - n) s2 ok (omega arith) in
            (q, s3, >>=-some stream _ e1 ∙ >>=-some (stream_round dev c limit) _ e2 ∙ rw more e3)
      ]

  -- Configuration data from a stream is read and written to an end, whatever the callback gives, if it
  -- always returns: the loop returns a status within the rounds that the data limit allows.
  pub write_data-istream_total :
      (stream : M dev.State Chunk) (s : dev.State)
      → IsStream stream
      → (r : Status) × (s' : dev.State) × (write_data dev (istream stream) s ≡ some (r, s'))
  unfolding write_data
  write_data-istream_total stream s ok =
      stream_loop_total (suc data_limit) stream data_limit s ok (omega arith)
