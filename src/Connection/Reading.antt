-- ===== src/Connection/Reading.antt =====
-- server/Connection.hpp, `_read_exactly`: it returns, whatever the socket does within its laws, and
-- without an error it has read exactly the bytes asked for.
use mathlib.Core.List.{append_assoc}
use distributed_computing_fr.Prelude.{
  ℕ, zero, suc, ◌-◌, ◌≤◌, ◌<◌, ◌≡◌, sym, ap, ◌∙◌, true, false, none, some, ◌++◌, length,
  length-append, arith, ltb, Bool-cases, Option-cases, inl, inr,
}
use distributed_computing_fr.Connection.Interface.{ErrorCode, Socket, SocketLaws, Outcome}
use distributed_computing_fr.Connection.{read_loop, read_exactly}

module _ (sock : Socket) (laws : SocketLaws sock) where
  open sock use {State, read_some, write_some}
  open laws use {
    incoming, outgoing, read_le, read_front, read_progress, read_outgoing, write_le, write_back,
    write_progress, write_incoming,
  }

  -- Some read of the socket reports this error.
  abbrev pub ReadError : ErrorCode → Type 0
  ReadError e = (n : ℕ) × (t : State) × ((read_some n t).ec ≡ some e)

  -- A finished read of `len` bytes from `s`.
  pub record Reads (len : ℕ) (s : State) (r : Outcome State) : Type 0 where
    pub bounded : length r.bytes ≤ len
    pub exact : r.ec ≡ none → length r.bytes ≡ len
    pub front : incoming s ≡ r.bytes ++ incoming r.state
    pub untouched : outgoing r.state ≡ outgoing s
    pub blamed : (e : ErrorCode) → r.ec ≡ some e → ReadError e

  pub read_loop_fail :
      (fuel len : ℕ) (s : State) (e : ErrorCode)
      → (read_some len s).ec ≡ some e
      → read_loop sock (suc fuel) len s ≡ some (read_some len s)
  unfolding read_loop
  read_loop_fail fuel len s e failed = simp (failed, read_loop)

  read_loop_done :
      (fuel len : ℕ) (s : State)
      → (read_some len s).ec ≡ none
      → ltb (length (read_some len s).bytes) len ≡ false
      → read_loop sock (suc fuel) len s ≡ some (read_some len s)
  unfolding read_loop
  read_loop_done fuel len s ok full = ground arith

  read_loop_more :
      (fuel len : ℕ) (s : State) (r : Outcome State)
      → (read_some len s).ec ≡ none
      → ltb (length (read_some len s).bytes) len ≡ true
      → read_loop sock fuel (len - length (read_some len s).bytes) (read_some len s).state ≡ some r
      → read_loop sock (suc fuel) len s
        ≡ some (record { ec = r.ec; bytes = (read_some len s).bytes ++ r.bytes; state = r.state })
  unfolding read_loop
  read_loop_more fuel len s r ok part e = ground arith

  Reads-more :
      (len : ℕ) (s : State) (r : Outcome State)
      → (read_some len s).ec ≡ none
      → Reads (len - length (read_some len s).bytes) (read_some len s).state r
      → Reads len s
          (record { ec = r.ec; bytes = (read_some len s).bytes ++ r.bytes; state = r.state })
  Reads-more len s r ok h = record {
    bounded =
        omega (arith, length-append (read_some len s).bytes r.bytes, read_le len s, h.bounded);
    exact = λ done.
        omega (arith, length-append (read_some len s).bytes r.bytes, read_le len s, h.exact done);
    front =
        read_front len s
        ∙ ap (◌++◌ (read_some len s).bytes) h.front
        ∙ sym (append_assoc (read_some len s).bytes r.bytes (incoming r.state));
    untouched = h.untouched ∙ read_outgoing len s;
    blamed = h.blamed;
  }

  Reads-once :
      (len : ℕ) (s : State)
      → ((read_some len s).ec ≡ none → length (read_some len s).bytes ≡ len)
      → Reads len s (read_some len s)
  Reads-once len s full = record {
    bounded = read_le len s;
    exact = full;
    front = read_front len s;
    untouched = read_outgoing len s;
    blamed = λ e failed. (len, s, failed);
  }

  read_loop_lem :
      (fuel len : ℕ) (s : State)
      → len < fuel
      → (r : Outcome State) × (read_loop sock fuel len s ≡ some r) × Reads len s r
  read_loop_lem zero len s h = absurd (omega arith)
  read_loop_lem (suc fuel) len s h = elim (Option-cases (read_some len s).ec) [
    | inr (e, failed) ↦
        (read_some len s, read_loop_fail fuel len s e failed, Reads-once len s (λ ok. cc))
    | inl ok ↦ elim (Bool-cases (ltb (length (read_some len s).bytes) len)) [
      | inr full ↦ (
        read_some len s,
        read_loop_done fuel len s ok full,
        Reads-once len s (λ _. ground (arith, read_le len s)),
      )
      | inl part ↦
          let (r, e, reads) =
            read_loop_lem fuel (len - length (read_some len s).bytes) (read_some len s).state
              (ground (arith, read_progress len s ok)) in
          (
            record { ec = r.ec; bytes = (read_some len s).bytes ++ r.bytes; state = r.state },
            read_loop_more fuel len s r ok part e,
            Reads-more len s r ok reads,
          )
    ]
  ]

  -- `_read_exactly` returns on every socket. What it has read is the front of the stream, at most
  -- the bytes asked for, and exactly those if it reports no error; an error is one that the socket reports, and the other direction is
  -- as it was.
  pub read_exactly_lem :
      (len : ℕ) (s : State)
      → (r : Outcome State) × (read_exactly sock len s ≡ some r) × Reads len s r
  unfolding read_exactly
  read_exactly_lem len s = read_loop_lem (suc len) len s (omega arith)
