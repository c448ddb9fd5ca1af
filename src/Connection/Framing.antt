-- ===== src/Connection/Framing.antt =====
-- server/Connection.hpp, `receive_message` and `send_message`: framing over a byte stream.
use mathlib.Core.List.{append_assoc}
use distributed_computing_fr.Prelude.{
  ℕ, ◌+◌, ◌<◌, ◌≡◌, refl, sym, ap, subst, ◌∙◌, true, false, Option, none, some, List, [], ◌∷◌, ◌++◌,
  length, length-append, arith, u32, u32_mod, le32, le32_sum, load, load_all, inl, inr, ◌⊎◌,
}
use distributed_computing_fr.Message.{
  Message, Header, header_is_valid, is_valid_message, get_message_size, as_bytes, header_bytes,
}
use distributed_computing_fr.Message.Build.{new_message, reserved_bytes}
use distributed_computing_fr.Connection.Interface.{ErrorCode, fault, Socket, SocketLaws, Wrote}
use distributed_computing_fr.Connection.{
  Received, parse_header, check_message, check_header, receive_payload, receive_message,
  send_message,
}
use distributed_computing_fr.Connection.Reading.{ReadError, read_exactly_lem}
use distributed_computing_fr.Connection.Writing.{Writes, write_exactly_lem}
use distributed_computing_fr.Connection.Receiving.{filled_message}

parse-header_bytes :
    (h : Header)
    → length h.reserved ≡ 3
    → h.payload_size < u32_mod
    → parse_header (header_bytes h) ≡ some h
unfolding parse_header
parse-header_bytes h three small = go h.reserved refl three
  where
    go : (r : List ℕ) → h.reserved ≡ r → length r ≡ 3 → parse_header (header_bytes h) ≡ some h
    go [] e l = absurd (omega arith)
    go (a ∷ []) e l = absurd (omega arith)
    go (a ∷ b ∷ []) e l = absurd (omega arith)
    go (a ∷ b ∷ c ∷ []) e l =
        ap (λ (r : List ℕ). parse_header (h.type ∷ (r ++ le32 h.payload_size))) e
        ∙ ap some (λ i. record {
          type = h.type;
          reserved = sym e i;
          payload_size = le32_sum h.payload_size small i;
        })
    go (a ∷ b ∷ c ∷ d ∷ r) e l = absurd (omega arith)

-- Two splits of one stream at the same place.
pub append_split :
    (xs ys us vs : List ℕ) → length xs ≡ length us → xs ++ ys ≡ us ++ vs → (xs ≡ us) × (ys ≡ vs)
append_split [] ys [] vs l e = (refl, e)
append_split [] ys (u ∷ us) vs l e = absurd (omega arith)
append_split (x ∷ xs) ys [] vs l e = absurd (omega arith)
append_split (x ∷ xs) ys (u ∷ us) vs l e =
    let (p, q) = append_split xs ys us vs (omega arith) (cc) in (cc, q)

-- What the sent message becomes on the other side: its reserved bytes are those of the receiver's
-- own allocation.
abbrev pub delivered : (ℕ → ℕ) → Message → Message
delivered junk m = record m {
  header = record {
    type = m.header.type;
    reserved = reserved_bytes junk;
    payload_size = m.header.payload_size;
  };
}

-- A message whose memory is what its header says.
pub record IsWhole (m : Message) : Type 0 where
  pub valid : is_valid_message m ≡ true
  pub allocated : m.alloc_size ≡ 16 + m.header.payload_size
  pub word : m.header.payload_size < u32_mod
  pub three : length m.header.reserved ≡ 3
  pub filled : length m.payload ≡ m.header.payload_size

header_of_valid : (m : Message) → is_valid_message m ≡ true → header_is_valid m.header ≡ true
unfolding is_valid_message
header_of_valid m v = ground arith

filled_valid :
    (junk : ℕ → ℕ) (m : Message)
    → IsWhole m
    → is_valid_message (filled_message junk m.header m.payload) ≡ true
unfolding is_valid_message
filled_valid junk m w = ground (arith, w.valid)

pub message_size : (m : Message) → IsWhole m → get_message_size m ≡ length (as_bytes m)
unfolding is_valid_message get_message_size as_bytes
message_size m w = ground (
  arith,
  w.valid,
  length-append (header_bytes m.header) m.payload,
  length-append m.header.reserved (le32 m.header.payload_size),
)

filled_message-delivered :
    (junk : ℕ → ℕ) (m : Message)
    → IsWhole m
    → filled_message junk m.header m.payload ≡ delivered junk m
filled_message-delivered junk m w = λ i. record {
  alloc_size = sym w.allocated i;
  header = record { type = m.header.type; reserved = reserved_bytes junk; payload_size = fits i };
  payload = m.payload;
}
  where
    fits : u32 m.header.payload_size ≡ m.header.payload_size
    fits = omega (arith, w.word)

module _ (sock : Socket) (laws : SocketLaws sock) where
  open sock use {State, read_some, write_some}
  open laws use {incoming, outgoing}

  -- What a call may give when the message `m` and then `rest` are in the stream: an error that the
  -- socket reports and no message, or `m` with `rest` still to be read.
  abbrev pub IsDelivered : (ℕ → ℕ) → Message → List ℕ → Received State → Type 0
  IsDelivered junk m rest r =
      ((e : ErrorCode) × (r.ec ≡ some e) × (r.message ≡ none) × ReadError sock laws e)
      ⊎ ((r.ec ≡ none) × (r.message ≡ some (delivered junk m)) × (incoming r.state ≡ rest))

  check_message-IsDelivered :
      (junk : ℕ → ℕ) (m : Message) (rest bytes : List ℕ) (ec : Option ErrorCode) (s : State)
      → IsWhole m
      → ((e : ErrorCode) → ec ≡ some e → ReadError sock laws e)
      → (ec ≡ none → (bytes ≡ m.payload) × (incoming s ≡ rest))
      → IsDelivered junk m rest (check_message sock (filled_message junk m.header bytes) ec s)
  unfolding check_message
  check_message-IsDelivered junk m rest bytes (some e) s w b h = inl (e, refl, refl, b e refl)
  check_message-IsDelivered junk m rest bytes none s w b h =
      subst
        (λ b. IsDelivered junk m rest (check_message sock (filled_message junk m.header b) none s))
        (sym (h refl).0)
        (rw (filled_valid junk m w)
          (inr (refl, ap some (filled_message-delivered junk m w), (h refl).1)))

  receive_payload-IsDelivered :
      (junk : ℕ → ℕ) (m : Message) (rest : List ℕ) (s : State)
      → IsWhole m
      → incoming s ≡ m.payload ++ rest
      → (r : Received State) × (receive_payload sock junk m.header s ≡ some r)
        × IsDelivered junk m rest r
  unfolding receive_payload new_message
  receive_payload-IsDelivered junk m rest s w e =
      let (r, read, reads) = read_exactly_lem sock laws m.header.payload_size s in
      (
        check_message sock (filled_message junk m.header r.bytes) r.ec r.state,
        rw read refl,
        check_message-IsDelivered junk m rest r.bytes r.ec r.state w reads.blamed (λ ok.
            append_split r.bytes (incoming r.state) m.payload rest
              (omega (arith, reads.exact ok, w.filled)) (sym reads.front ∙ e)),
      )

  check_header-IsDelivered :
      (junk : ℕ → ℕ) (m : Message) (rest bytes : List ℕ) (ec : Option ErrorCode) (s : State)
      → IsWhole m
      → ((e : ErrorCode) → ec ≡ some e → ReadError sock laws e)
      → (ec ≡ none → (bytes ≡ header_bytes m.header) × (incoming s ≡ m.payload ++ rest))
      → (r : Received State) × (check_header sock junk bytes ec s ≡ some r)
        × IsDelivered junk m rest r
  unfolding check_header
  check_header-IsDelivered junk m rest bytes (some e) s w b h =
      (record { ec = some e; message = none; state = s }, refl, inl (e, refl, refl, b e refl))
  check_header-IsDelivered junk m rest bytes none s w b h =
      let (r, e, good) = receive_payload-IsDelivered junk m rest s w (h refl).1 in
      (r, rw (parsed, header_of_valid m w.valid) e, good)
    where
      parsed : parse_header bytes ≡ some m.header
      parsed = ap parse_header (h refl).0 ∙ parse-header_bytes m.header w.three w.word

  -- When a whole message and then more bytes are in the stream, `receive_message` returns that message and
  -- leaves those bytes, or it returns an error that the socket reports: it never returns another
  -- message, and never refuses this one.
  pub receive_message-IsDelivered :
      (junk : ℕ → ℕ) (m : Message) (rest : List ℕ) (s : State)
      → IsWhole m
      → incoming s ≡ as_bytes m ++ rest
      → (r : Received State) × (receive_message sock junk s ≡ some r) × IsDelivered junk m rest r
  unfolding receive_message as_bytes
  receive_message-IsDelivered junk m rest s w e =
      let (r, read, reads) = read_exactly_lem sock laws 8 s in
      let (q, f, good) =
        check_header-IsDelivered junk m rest r.bytes r.ec r.state w reads.blamed (λ ok.
          append_split r.bytes (incoming r.state) (header_bytes m.header) (m.payload ++ rest)
            (omega (
              arith,
              reads.exact ok,
              w.three,
              length-append m.header.reserved (le32 m.header.payload_size),
            ))
            (sym reads.front ∙ e ∙ append_assoc (header_bytes m.header) m.payload rest)) in
      (q, rw read f, good)

  -- `send_message` of a whole message returns on every socket. Without an error the message is at the
  -- end of the stream, and with one, which the socket reports, a prefix of it; the other direction is
  -- as it was.
  pub send_message-Writes :
      (m : Message) (s : State)
      → IsWhole m
      → (w : Wrote State) × (send_message sock m s ≡ some w) × Writes sock laws (as_bytes m) s w
  unfolding send_message
  send_message-Writes m s whole =
      let (w, e, writes) = write_exactly_lem sock laws (as_bytes m) s in
      (w, rw (whole.valid, loaded) e, writes)
    where
      loaded : load 0 (get_message_size m) (as_bytes m) ≡ some (as_bytes m)
      loaded = ap (λ (n : ℕ). load 0 n (as_bytes m)) (message_size m whole) ∙ load_all (as_bytes m)

  -- A message that is not valid is refused with `fault`, and nothing is written.
  pub send_message-invalid :
      (m : Message) (s : State)
      → is_valid_message m ≡ false
      → send_message sock m s ≡ some (record { ec = some fault; count = 0; state = s })
  unfolding send_message
  send_message-invalid m s e = rw e refl
