-- ===== src/Connection/Directions.antt =====
-- server/Connection.hpp, `receive_message`: a reader leaves what is written alone.
use distributed_computing_fr.Prelude.{
  ℕ, ◌≡◌, refl, sym, ap, ◌∙◌, Option, none, some, List, some_injective, Bool-cases, Option-cases,
  inl, inr, arith,
}
use distributed_computing_fr.Message.{Message, Header, header_is_valid, is_valid_message}
use distributed_computing_fr.Message.Build.{new_message}
use distributed_computing_fr.Connection.Interface.{ErrorCode, Socket, SocketLaws}
use distributed_computing_fr.Connection.{
  Received, parse_header, check_message, check_header, receive_payload, receive_message,
}
use distributed_computing_fr.Connection.Reading.{read_exactly_lem}
use distributed_computing_fr.Connection.Receiving.{filled_message}

module _ (sock : Socket) (laws : SocketLaws sock) where
  open sock use {State}
  open laws use {outgoing}

  check_message-state :
      (m : Message) (ec : Option ErrorCode) (s : State) → (check_message sock m ec s).state ≡ s
  unfolding check_message
  check_message-state m (some e) s = refl
  check_message-state m none s = elim (Bool-cases (is_valid_message m)) [
    | inl v ↦ rw v refl
    | inr v ↦ rw v refl
  ]

  receive_payload-outgoing :
      (junk : ℕ → ℕ) (h : Header) (s : State) (r : Received State)
      → receive_payload sock junk h s ≡ some r
      → outgoing r.state ≡ outgoing s
  unfolding receive_payload new_message
  receive_payload-outgoing junk h s r e =
      let (o, read, reads) = read_exactly_lem sock laws h.payload_size s in
      ap (λ (q : Received State). outgoing q.state) (sym (some_injective (rw read at e)))
      ∙ ap outgoing (check_message-state (filled_message junk h o.bytes) o.ec o.state)
      ∙ reads.untouched

  check_header-outgoing :
      (junk : ℕ → ℕ) (bytes : List ℕ) (ec : Option ErrorCode) (s : State) (r : Received State)
      → check_header sock junk bytes ec s ≡ some r
      → outgoing r.state ≡ outgoing s
  unfolding check_header
  check_header-outgoing junk bytes (some x) s r e =
      ap (λ (q : Received State). outgoing q.state) (sym (some_injective e))
  check_header-outgoing junk bytes none s r e = elim (Option-cases (parse_header bytes)) [
    | inl missing ↦ absurd (ground (arith, e, missing))
    | inr (h, parsed) ↦ elim (Bool-cases (header_is_valid h)) [
      | inl v ↦ receive_payload-outgoing junk h s r (rw (parsed, v) at e)
      | inr v ↦
          ap (λ (q : Received State). outgoing q.state) (sym (some_injective (rw (parsed, v) at e)))
    ]
  ]

  -- However a receive ends, what was sent before it is all that was sent.
  pub receive_message-outgoing :
      (junk : ℕ → ℕ) (s : State) (r : Received State)
      → receive_message sock junk s ≡ some r
      → outgoing r.state ≡ outgoing s
  unfolding receive_message
  receive_message-outgoing junk s r e =
      let (o, read, reads) = read_exactly_lem sock laws 8 s in
      check_header-outgoing junk o.bytes o.ec o.state r (rw read at e) ∙ reads.untouched
