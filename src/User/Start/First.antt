-- ===== src/User/Start/First.antt =====
-- server/User_Queue.hpp, `User::start`: what the session makes of the first message of the user.
use distributed_computing_fr.Prelude.{
  ℕ, ◌+◌, ◌<◌, ◌≡◌, ◌≢◌, refl, sym, ap, ap₂, ◌∙◌, true, none, some, List, ◌++◌, arith, u32_mod, inl,
  inr, ◌⊎◌,
}
use distributed_computing_fr.Message.{
  Message, is_valid_message, is_valid_config, as_bytes, type_code, config,
}
use distributed_computing_fr.Message.Text.{tab}
use distributed_computing_fr.Message.Print.Reads.{IsPrinted, print-IsPrinted}
use distributed_computing_fr.Connection.Interface.{ErrorCode, Socket, SocketLaws}
use distributed_computing_fr.Connection.Reading.{ReadError}
use distributed_computing_fr.Connection.Framing.{IsWhole, delivered, receive_message-IsDelivered}
use distributed_computing_fr.User.Start.{receive_failed, configured, check_first, wait_first_config}

whole_small : (m : Message) → IsWhole m → m.header.payload_size + 8 < u32_mod
unfolding is_valid_message
whole_small m w = ground (arith, w.valid, w.allocated)

delivered-valid_config :
    (junk : ℕ → ℕ) (m : Message) → is_valid_config (delivered junk m) ≡ is_valid_config m
unfolding is_valid_config
delivered-valid_config junk m = refl

delivered-valid :
    (junk : ℕ → ℕ) (m : Message) → is_valid_message (delivered junk m) ≡ is_valid_message m
unfolding is_valid_message
delivered-valid junk m = refl

module _ (user : Socket) (laws : SocketLaws user) (decimal : ℕ → List ℕ) where
  open laws use {incoming}

  -- What is printed of a configuration that arrives.
  printed :
      (junk : ℕ → ℕ) (m : Message)
      → IsWhole m
      → m.header.type ≡ type_code config
      → IsPrinted decimal tab (delivered junk m)
  printed junk m w t =
      print-IsPrinted decimal tab (delivered junk m) (omega (arith, w.allocated, w.filled))
        (omega (arith, w.filled, whole_small m w)) w.word (delivered-valid junk m ∙ w.valid) t

  -- How the wait for the first configuration `m` goes: the socket reports an error; or the test is
  -- passed, the session goes on with the configuration and the bytes behind it are left; or the test
  -- is not passed, and the message is read outside its allocation.
  abbrev pub IsTaken : (ℕ → ℕ) → Message → List ℕ → user.State → Type 0
  IsTaken junk m rest s =
      ((e : ErrorCode) × (s' : user.State) × (wait_first_config user decimal junk s
          ≡ some (receive_failed e, s'))
        × ReadError user laws e)
      ⊎ ((s' : user.State) × (is_valid_config m ≡ some true)
          × (wait_first_config user decimal junk s ≡ some (configured (delivered junk m), s'))
          × (incoming s' ≡ rest))
      ⊎ ((is_valid_config m ≢ some true) × (wait_first_config user decimal junk s ≡ none))

  -- A user's session starts with the user's first configuration exactly if it passes its test, unless
  -- the socket reports an error. A configuration that does not pass is not refused: it is printed
  -- before it is tested, and printing it reads outside its allocation.
  pub wait_first_config-IsTaken :
      (junk : ℕ → ℕ) (m : Message) (rest : List ℕ) (s : user.State)
      → IsWhole m
      → m.header.type ≡ type_code config
      → incoming s ≡ as_bytes m ++ rest
      → IsTaken junk m rest s
  unfolding wait_first_config check_first
  wait_first_config-IsTaken junk m rest s w t next =
      let (r, received, outcome) = receive_message-IsDelivered user laws junk m rest s w next in
      elim outcome [
        | inl (e, failed, nothing, by_socket) ↦ inl (
          e,
          r.state,
          rw received (ap (λ ec. check_first user decimal ec r.message r.state) failed),
          by_socket,
        )
        | inr (fine, got, left) ↦ elim (printed junk m w t) [
          | inl (valid, text, shown) ↦ inr (
              inl (
                r.state,
                sym (delivered-valid_config junk m) ∙ valid,
                rw received (
                    ap₂ (λ ec m'. check_first user decimal ec m' r.state) fine got
                    ∙ rw (shown, valid) refl),
                left,
              ))
          | inr (refused, outside) ↦ inr (
              inr (
                (λ ok. refused (delivered-valid_config junk m ∙ ok)),
                rw received (
                    ap₂ (λ ec m'. check_first user decimal ec m' r.state) fine got
                    ∙ rw outside refl),
              ))
        ]
      ]
