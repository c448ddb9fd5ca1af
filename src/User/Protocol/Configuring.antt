-- ===== src/User/Protocol/Configuring.antt =====
-- server/User_Queue.hpp, `_configure_node`: a node is configured exactly if it says so.
use distributed_computing_fr.Prelude.{
  some_injective, ℕ, ◌<◌, ◌≡◌, refl, sym, ap, ap₂, ◌∙◌, Bool, true, false, ◌&&◌, ◌||◌, Option, none,
  some, List, [], ◌∷◌, ◌++◌, length, arith, ◌==◌, Bool-cases, inl, inr, ◌⊎◌, load, load-some, store,
}
use distributed_computing_fr.Message.{
  Message, is_valid_message, is_valid_config_resp, resp_status, ConfigRespStatus, success, error,
  status_code, as_bytes,
}
use distributed_computing_fr.Message.Build.{new_config_resp, reserved_bytes, fresh}
use distributed_computing_fr.Connection.Interface.{ErrorCode, fault, Socket, SocketLaws}
use distributed_computing_fr.Connection.Reading.{ReadError}
use distributed_computing_fr.Connection.Writing.{WriteError}
use distributed_computing_fr.Connection.Receiving.{payload-positive, receive_message-IsReceived}
use distributed_computing_fr.Connection.Framing.{
  IsWhole, delivered, receive_message-IsDelivered, send_message-Writes,
}
use distributed_computing_fr.User.Protocol.{check_response, await_response, configure_node}

-- What the server makes of the status of a response.
abbrev pub verdict : ConfigRespStatus → Option ErrorCode
verdict success = none
verdict error = some fault

-- A received message has a byte to read as a status.
resp_status-some : (m : Message) → 0 < length m.payload → (b : ℕ) × (resp_status m ≡ some b)
resp_status-some m h = let (part, loaded, sized) = load-some 0 1 m.payload h in go part loaded sized
  where
    go :
        (part : List ℕ)
        → load 0 1 m.payload ≡ some part
        → length part ≡ 1
        → (b : ℕ) × (resp_status m ≡ some b)
    go [] e l = absurd (omega arith)
    go (b ∷ rest) e l = (b, rw e refl)

is_valid_config_resp-some :
    (m : Message) → 0 < length m.payload → (v : Bool) × (is_valid_config_resp m ≡ some v)
unfolding is_valid_config_resp
is_valid_config_resp-some m h =
    let (b, read) = resp_status-some m h in
    elim (Bool-cases (is_valid_message m && (m.header.type == 2 && m.header.payload_size == 1))) [
      | inl looks ↦ (b == 0 || b == 1, rw (looks, read) refl)
      | inr other ↦ (false, rw other refl)
    ]

both : (v : Bool) (b : ℕ) → (v && b == 0) ≡ true → (v ≡ true) × (b ≡ 0)
both v b h = ground arith

module _ (sock : Socket) (laws : SocketLaws sock) where
  open sock use {State}
  open laws use {incoming, outgoing}

  -- What an attempt to configure a node gives: an error, or none if the node answered with a valid
  -- response that says SUCCESS.
  abbrev pub IsAnswered : Option ErrorCode × State → Type 0
  IsAnswered r =
      ((e : ErrorCode) × (r.0 ≡ some e))
      ⊎ ((r.0 ≡ none)
          × (m : Message) × (is_valid_config_resp m ≡ some true)
          × (resp_status m ≡ some (status_code success)))

  check_response-IsAnswered :
      (m : Message) (s : State)
      → 0 < length m.payload
      → (r : Option ErrorCode × State) × (check_response sock none (some m) s ≡ some r)
        × IsAnswered r
  unfolding check_response
  check_response-IsAnswered m s h =
      let (v, valid) = is_valid_config_resp-some m h in
      let (b, read) = resp_status-some m h in
      elim (Bool-cases (v && b == status_code success)) [
        | inl good ↦
            let (v_true, b_zero) = both v b good in
            (
              (none, s),
              rw (valid, read, good) refl,
              inr (refl, m, valid ∙ ap some v_true, read ∙ ap some b_zero),
            )
        | inr bad ↦ ((some fault, s), rw (valid, read, bad) refl, inl (fault, refl))
      ]

  await_response-IsAnswered :
      (junk : ℕ → ℕ) (ec : Option ErrorCode) (s : State)
      → (r : Option ErrorCode × State) × (await_response sock junk ec s ≡ some r) × IsAnswered r
  unfolding await_response check_response
  await_response-IsAnswered junk (some e) s = ((some e, s), refl, inl (e, refl))
  await_response-IsAnswered junk none s =
      let (q, received, outcome) = receive_message-IsReceived sock laws junk s in
      elim outcome [
        | inl (e, failed, nothing) ↦ (
          (some e, q.state),
          rw received (ap (λ ec. check_response sock ec q.message q.state) failed),
          inl (e, refl),
        )
        | inr (m, fine, got_m, valid, filled, exact) ↦
            let (r, checked, good) =
              check_response-IsAnswered m q.state
                (omega (arith, payload-positive m valid, exact)) in
            (
              r,
              rw received (ap₂ (λ ec m'. check_response sock ec m' q.state) fine got_m ∙ checked),
              good,
            )
      ]

  -- `_configure_node` returns on every socket, and reads nothing outside the response. It reports no
  -- error only if the node answered with a valid response that says SUCCESS.
  configure_node-IsAnswered :
      (junk : ℕ → ℕ) (config : Message) (s : State)
      → IsWhole config
      → (r : Option ErrorCode × State) × (configure_node sock junk config s ≡ some r) × IsAnswered r
  unfolding configure_node
  configure_node-IsAnswered junk config s whole =
      let (w, sent, writes) = send_message-Writes sock laws config s whole in
      let (r, awaited, good) = await_response-IsAnswered junk w.ec w.state in
      (r, rw sent awaited, good)

-- The response that a node builds, as the bytes of its memory.
abbrev response : (ℕ → ℕ) → ConfigRespStatus → Message
response junk status = record {
  alloc_size = 17;
  header = record { type = 2; reserved = reserved_bytes junk; payload_size = 1 };
  payload = status_code status ∷ [];
}

new_config_resp-response :
    (junk : ℕ → ℕ) (status : ConfigRespStatus)
    → new_config_resp junk status ≡ some (response junk status)
unfolding new_config_resp store fresh
new_config_resp-response junk success = refl
new_config_resp-response junk error = refl

response-IsWhole : (junk : ℕ → ℕ) (status : ConfigRespStatus) → IsWhole (response junk status)
unfolding is_valid_message
response-IsWhole junk success = record {
  valid = refl;
  allocated = refl;
  word = omega arith;
  three = refl;
  filled = refl;
}
response-IsWhole junk error = record {
  valid = refl;
  allocated = refl;
  word = omega arith;
  three = refl;
  filled = refl;
}

module _ (sock : Socket) (laws : SocketLaws sock) where
  open sock use {State}
  open laws use {incoming}

  check_response-verdict :
      (junk junk' : ℕ → ℕ) (status : ConfigRespStatus) (s : State)
      → check_response sock none (some (delivered junk (response junk' status))) s
        ≡ some (verdict status, s)
  unfolding check_response is_valid_config_resp is_valid_message load
  check_response-verdict junk junk' success s = refl
  check_response-verdict junk junk' error s = refl

  -- What a session learns from a node that answers with a status, if the stream goes on with `rest`:
  -- an error that the socket reports, or what the status says.
  abbrev pub Learns : ConfigRespStatus → List ℕ → Option ErrorCode × State → Type 0
  Learns status rest r =
      ((e : ErrorCode) × (r.0 ≡ some e) × (ReadError sock laws e ⊎ WriteError sock laws e))
      ⊎ ((r.0 ≡ verdict status) × (incoming r.1 ≡ rest))

  await_response-Learns :
      (junk junk' : ℕ → ℕ) (status : ConfigRespStatus) (rest : List ℕ) (ec : Option ErrorCode)
      (s : State)
      → ((e : ErrorCode) → ec ≡ some e → WriteError sock laws e)
      → incoming s ≡ as_bytes (response junk' status) ++ rest
      → (r : Option ErrorCode × State) × (await_response sock junk ec s ≡ some r)
        × Learns status rest r
  unfolding await_response check_response
  await_response-Learns junk junk' status rest (some e) s blamed next =
      ((some e, s), refl, inl (e, refl, inr (blamed e refl)))
  await_response-Learns junk junk' status rest none s blamed next =
      let (q, received, outcome) =
        receive_message-IsDelivered sock laws junk (response junk' status) rest s
          (response-IsWhole junk' status) next in
      elim outcome [
        | inl (e, failed, nothing, by_socket) ↦ (
          (some e, q.state),
          rw received (ap (λ ec. check_response sock ec q.message q.state) failed),
          inl (e, refl, inl by_socket),
        )
        | inr (fine, got_m, left) ↦ (
          (verdict status, q.state),
          rw received (
              ap₂ (λ ec m'. check_response sock ec m' q.state) fine got_m
              ∙ check_response-verdict junk junk' status q.state),
          inr (refl, left),
        )
      ]

  -- When a node answers a configuration with the response that `new_config_resp` builds for a status,
  -- `_configure_node` reports no error exactly for SUCCESS and `fault` for ERROR, and leaves what
  -- follows in the stream; any other error is one that the socket reports.
  pub configure_node-Learns :
      (junk junk' : ℕ → ℕ) (config : Message) (status : ConfigRespStatus) (m : Message)
      (rest : List ℕ) (s : State)
      → IsWhole config
      → new_config_resp junk' status ≡ some m
      → incoming s ≡ as_bytes m ++ rest
      → (r : Option ErrorCode × State) × (configure_node sock junk config s ≡ some r)
        × Learns status rest r
  unfolding configure_node
  configure_node-Learns junk junk' config status m rest s whole built next =
      let (w, sent, writes) = send_message-Writes sock laws config s whole in
      let same_m : response junk' status ≡ m =
        some_injective (sym (new_config_resp-response junk' status) ∙ built) in
      let (r, awaited, good) =
        await_response-Learns junk junk' status rest w.ec w.state writes.blamed
          (writes.untouched ∙ next ∙ ap (λ (m' : Message). as_bytes m' ++ rest) (sym same_m)) in
      (r, rw sent awaited, good)
