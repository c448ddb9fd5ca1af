-- ===== src/Connection/Writing.antt =====
-- server/Connection.hpp, `_write_exactly`: it returns, whatever the socket does within its laws, and
-- without an error it has written exactly its buffer.
use mathlib.Core.List.{append_assoc}
use distributed_computing_fr.Prelude.{
  take_add, ℕ, zero, suc, ◌+◌, ◌≤◌, ◌<◌, ◌≡◌, sym, ap, ◌∙◌, true, false, none, some, List, ◌++◌,
  length, length-drop, drop, take, arith, ltb, Bool-cases, Option-cases, inl, inr,
}
use distributed_computing_fr.Connection.Interface.{ErrorCode, Socket, SocketLaws, Wrote}
use distributed_computing_fr.Connection.{write_loop, write_exactly}

module _ (sock : Socket) (laws : SocketLaws sock) where
  open sock use {State, read_some, write_some}
  open laws use {
    incoming, outgoing, read_le, read_front, read_progress, read_outgoing, write_le, write_back,
    write_progress, write_incoming,
  }

  -- Some write to the socket reports this error.
  abbrev pub WriteError : ErrorCode → Type 0
  WriteError e = (bs : List ℕ) × (t : State) × ((write_some bs t).ec ≡ some e)

  -- A finished write of `bs` from `s`.
  pub record Writes (bs : List ℕ) (s : State) (w : Wrote State) : Type 0 where
    pub bounded : w.count ≤ length bs
    pub exact : w.ec ≡ none → w.count ≡ length bs
    pub back : outgoing w.state ≡ outgoing s ++ take w.count bs
    pub untouched : incoming w.state ≡ incoming s
    pub blamed : (e : ErrorCode) → w.ec ≡ some e → WriteError e

  pub write_loop_fail :
      (fuel : ℕ) (bs : List ℕ) (s : State) (e : ErrorCode)
      → (write_some bs s).ec ≡ some e
      → write_loop sock (suc fuel) bs s ≡ some (write_some bs s)
  unfolding write_loop
  write_loop_fail fuel bs s e failed = simp (failed, write_loop)

  write_loop_done :
      (fuel : ℕ) (bs : List ℕ) (s : State)
      → (write_some bs s).ec ≡ none
      → ltb (write_some bs s).count (length bs) ≡ false
      → write_loop sock (suc fuel) bs s ≡ some (write_some bs s)
  unfolding write_loop
  write_loop_done fuel bs s ok full = ground arith

  write_loop_more :
      (fuel : ℕ) (bs : List ℕ) (s : State) (w : Wrote State)
      → (write_some bs s).ec ≡ none
      → ltb (write_some bs s).count (length bs) ≡ true
      → write_loop sock fuel (drop (write_some bs s).count bs) (write_some bs s).state ≡ some w
      → write_loop sock (suc fuel) bs s
        ≡ some (record { ec = w.ec; count = (write_some bs s).count + w.count; state = w.state })
  unfolding write_loop
  write_loop_more fuel bs s w ok part e = ground arith

  Writes-more :
      (bs : List ℕ) (s : State) (w : Wrote State)
      → Writes (drop (write_some bs s).count bs) (write_some bs s).state w
      → Writes bs s
          (record { ec = w.ec; count = (write_some bs s).count + w.count; state = w.state })
  Writes-more bs s w h = record {
    bounded = omega (arith, h.bounded, length-drop (write_some bs s).count bs, write_le bs s);
    exact =
        λ done. omega (arith, h.exact done, length-drop (write_some bs s).count bs, write_le bs s);
    back =
        h.back
        ∙ ap (λ (o : List ℕ). o ++ take w.count (drop (write_some bs s).count bs)) (write_back bs s)
        ∙ append_assoc (outgoing s) _ _
        ∙ ap (◌++◌ (outgoing s)) (sym (take_add (write_some bs s).count w.count bs));
    untouched = h.untouched ∙ write_incoming bs s;
    blamed = h.blamed;
  }

  Writes-once :
      (bs : List ℕ) (s : State)
      → ((write_some bs s).ec ≡ none → (write_some bs s).count ≡ length bs)
      → Writes bs s (write_some bs s)
  Writes-once bs s full = record {
    bounded = write_le bs s;
    exact = full;
    back = write_back bs s;
    untouched = write_incoming bs s;
    blamed = λ e failed. (bs, s, failed);
  }

  write_loop_lem :
      (fuel : ℕ) (bs : List ℕ) (s : State)
      → length bs < fuel
      → (w : Wrote State) × (write_loop sock fuel bs s ≡ some w) × Writes bs s w
  write_loop_lem zero bs s h = absurd (omega arith)
  write_loop_lem (suc fuel) bs s h = elim (Option-cases (write_some bs s).ec) [
    | inr (e, failed) ↦
        (write_some bs s, write_loop_fail fuel bs s e failed, Writes-once bs s (λ ok. cc))
    | inl ok ↦ elim (Bool-cases (ltb (write_some bs s).count (length bs))) [
      | inr full ↦ (
        write_some bs s,
        write_loop_done fuel bs s ok full,
        Writes-once bs s (λ _. ground (arith, write_le bs s)),
      )
      | inl part ↦
          let (w, e, writes) =
            write_loop_lem fuel (drop (write_some bs s).count bs) (write_some bs s).state
              (ground (arith, write_progress bs s ok, length-drop (write_some bs s).count bs)) in
          (
            record { ec = w.ec; count = (write_some bs s).count + w.count; state = w.state },
            write_loop_more fuel bs s w ok part e,
            Writes-more bs s w writes,
          )
    ]
  ]

  -- `_write_exactly` returns on every socket. The stream has grown by a prefix of the buffer, and by
  -- all of it if it reports no error; an error is one that the socket reports, and the other
  -- direction is as it was.
  pub write_exactly_lem :
      (bs : List ℕ) (s : State)
      → (w : Wrote State) × (write_exactly sock bs s ≡ some w) × Writes bs s w
  unfolding write_exactly
  write_exactly_lem bs s = write_loop_lem (suc (length bs)) bs s (omega arith)
