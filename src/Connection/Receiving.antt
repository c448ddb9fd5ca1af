-- ===== src/Connection/Receiving.antt =====
-- server/Connection.hpp, `receive_message`: on every socket it returns an error or a valid message.

use distributed_computing_fr.Prelude.{
  ℕ, ◌+◌, ◌≡◌, refl, true, Option, none, some, List, [], ◌∷◌, length, arith, u32, u32_mod, ◌<◌,
  first32-some, Bool-cases, inl, inr, ◌⊎◌,
}
use distributed_computing_fr.Message.{Message, Header, header_is_valid, is_valid_message}
use distributed_computing_fr.Message.Build.{new_message, reserved_bytes}
use distributed_computing_fr.Connection.Interface.{ErrorCode, fault, Socket, SocketLaws}
use distributed_computing_fr.Connection.{
  Received, parse_header, check_message, check_header, receive_payload, receive_message,
}
use distributed_computing_fr.Connection.Reading.{read_exactly_lem}

parse_header-some :
    (bytes : List ℕ) → length bytes ≡ 8 → (h : Header) × (parse_header bytes ≡ some h)
unfolding parse_header
parse_header-some [] e = absurd (omega arith)
parse_header-some (t ∷ []) e = absurd (omega arith)
parse_header-some (t ∷ a ∷ []) e = absurd (omega arith)
parse_header-some (t ∷ a ∷ b ∷ []) e = absurd (omega arith)
parse_header-some (t ∷ a ∷ b ∷ c ∷ rest) e =
    let (w, ew) = first32-some rest (omega arith) in
    (record { type = t; reserved = a ∷ b ∷ c ∷ []; payload_size = w }, rw ew refl)

-- The message that `receive_message` builds of a header and the bytes of a payload.
abbrev pub filled_message : (ℕ → ℕ) → Header → List ℕ → Message
filled_message junk header bytes = record {
  alloc_size = 16 + header.payload_size;
  header = record {
    type = header.type;
    reserved = reserved_bytes junk;
    payload_size = u32 header.payload_size;
  };
  payload = bytes;
}

-- A valid message that fills its allocation has exactly the payload of its header, which is not empty.
payload-exact :
    (m : Message)
    → is_valid_message m ≡ true
    → length m.payload + 16 ≡ m.alloc_size
    → m.header.payload_size < u32_mod
    → m.header.payload_size ≡ length m.payload
unfolding is_valid_message
payload-exact m v filled small = ground arith

pub payload-positive : (m : Message) → is_valid_message m ≡ true → 0 < m.header.payload_size
unfolding is_valid_message
payload-positive m v = ground arith

module _ (sock : Socket) (laws : SocketLaws sock) where
  open sock use {State, read_some, write_some}
  open laws use {incoming, outgoing}

  -- What a call of `receive_message` may give: an error and no message, or no error and a valid
  -- message whose allocation holds the announced payload.
  abbrev pub IsReceived : Received State → Type 0
  IsReceived r =
      ((e : ErrorCode) × (r.ec ≡ some e) × (r.message ≡ none))
      ⊎ ((m : Message) × (r.ec ≡ none)
          × (r.message ≡ some m)
          × (is_valid_message m ≡ true)
          × (length m.payload + 16 ≡ m.alloc_size)
          × (m.header.payload_size ≡ length m.payload))

  check_message-IsReceived :
      (m : Message) (ec : Option ErrorCode) (s : State)
      → (ec ≡ none → length m.payload + 16 ≡ m.alloc_size)
      → m.header.payload_size < u32_mod
      → IsReceived (check_message sock m ec s)
  unfolding check_message
  check_message-IsReceived m (some e) s h small = inl (e, refl, refl)
  check_message-IsReceived m none s h small = elim (Bool-cases (is_valid_message m)) [
    | inl v ↦
        rw (v, check_message) (inr (m, refl, refl, v, h refl, payload-exact m v (h refl) small))
    | inr v ↦ rw (v, check_message) (inl (fault, refl, refl))
  ]

  receive_payload-IsReceived :
      (junk : ℕ → ℕ) (h : Header) (s : State)
      → (r : Received State) × (receive_payload sock junk h s ≡ some r) × IsReceived r
  unfolding receive_payload new_message
  receive_payload-IsReceived junk h s =
      let (r, e, reads) = read_exactly_lem sock laws h.payload_size s in
      (
        check_message sock (filled_message junk h r.bytes) r.ec r.state,
        rw e refl,
        check_message-IsReceived (filled_message junk h r.bytes) r.ec r.state
            (λ ok. omega (arith, reads.exact ok)) (omega arith),
      )

  check_header-IsReceived :
      (junk : ℕ → ℕ) (bytes : List ℕ) (ec : Option ErrorCode) (s : State)
      → (ec ≡ none → length bytes ≡ 8)
      → (r : Received State) × (check_header sock junk bytes ec s ≡ some r) × IsReceived r
  unfolding check_header
  check_header-IsReceived junk bytes (some e) s l =
      (record { ec = some e; message = none; state = s }, refl, inl (e, refl, refl))
  check_header-IsReceived junk bytes none s l =
      let (h, parsed) = parse_header-some bytes (l refl) in
      elim (Bool-cases (header_is_valid h)) [
        | inl v ↦
            let (r, e, good) = receive_payload-IsReceived junk h s in (r, rw (parsed, v) e, good)
        | inr v ↦ (
          record { ec = some fault; message = none; state = s },
          rw (parsed, v) refl,
          inl (fault, refl, refl),
        )
      ]

  -- `receive_message` returns on every socket, with an error and no message, or with no error and a
  -- valid message that fills its allocation and has the payload its header announces.
  pub receive_message-IsReceived :
      (junk : ℕ → ℕ) (s : State)
      → (r : Received State) × (receive_message sock junk s ≡ some r) × IsReceived r
  unfolding receive_message
  receive_message-IsReceived junk s =
      let (r, e, reads) = read_exactly_lem sock laws 8 s in
      let (q, f, good) = check_header-IsReceived junk r.bytes r.ec r.state reads.exact in
      (q, rw e f, good)
