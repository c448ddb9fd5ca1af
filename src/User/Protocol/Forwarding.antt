-- ===== src/User/Protocol/Forwarding.antt =====
-- server/User_Queue.hpp, `_receiver_loop`: a result of a node reaches the user as it is.
use distributed_computing_fr.Prelude.{
  ℕ, ◌≡◌, refl, ap, ap₂, ◌∙◌, true, none, some, List, ◌++◌, take, take-length, Option-cases, inl,
  inr, ◌⊎◌,
}
use distributed_computing_fr.Message.{
  Message, is_valid_message, is_valid_data, is_valid_data_for, get_data_size, as_bytes,
}
use distributed_computing_fr.Connection.Interface.{ErrorCode, Socket, SocketLaws, Wrote}
use distributed_computing_fr.Connection.Reading.{ReadError}
use distributed_computing_fr.Connection.Writing.{Writes, WriteError}
use distributed_computing_fr.Connection.Framing.{
  IsWhole, delivered, receive_message-IsDelivered, send_message-Writes,
}
use distributed_computing_fr.User.Protocol.{
  Round, passed_on, receive_error, send_error, pass_on, check_result, receiver_round,
}

delivered-valid :
    (junk : ℕ → ℕ) (m : Message) → is_valid_message (delivered junk m) ≡ is_valid_message m
unfolding is_valid_message
delivered-valid junk m = refl

-- The server's own reserved bytes make no difference.
delivered-valid_data :
    (junk : ℕ → ℕ) (m : Message) (size : ℕ)
    → is_valid_data_for (delivered junk m) size ≡ is_valid_data_for m size
unfolding is_valid_data_for is_valid_data is_valid_message get_data_size
delivered-valid_data junk m size = refl

delivered-IsWhole : (junk : ℕ → ℕ) (m : Message) → IsWhole m → IsWhole (delivered junk m)
delivered-IsWhole junk m w = record {
  valid = delivered-valid junk m ∙ w.valid;
  allocated = w.allocated;
  word = w.word;
  three = refl;
  filled = w.filled;
}

module _ (node user : Socket) (node_laws : SocketLaws node) (user_laws : SocketLaws user) where
  -- What a round gives when the node's stream holds a result and then `rest`: an error that a socket
  -- reports, or the result is at the end of the user's stream and `rest` is left.
  abbrev pub IsForwarded :
      (ℕ → ℕ) → Message → List ℕ → user.State → Round × (node.State × user.State) → Type 0
  IsForwarded junk m rest u (round, (n', u')) =
      ((e : ErrorCode) × (round ≡ receive_error e) × ReadError node node_laws e)
      ⊎ ((e : ErrorCode) × (round ≡ send_error e) × WriteError user user_laws e)
      ⊎ ((round ≡ passed_on)
          × (user_laws.outgoing u' ≡ user_laws.outgoing u ++ as_bytes (delivered junk m))
          × (node_laws.incoming n' ≡ rest))

  pass_on-IsForwarded :
      (junk : ℕ → ℕ) (m : Message) (rest : List ℕ) (n : node.State) (u : user.State)
      → IsWhole m
      → node_laws.incoming n ≡ rest
      → (r : Round × (node.State × user.State)) × (pass_on node user (delivered junk m) n u
          ≡ some r)
        × IsForwarded junk m rest u r
  unfolding pass_on
  pass_on-IsForwarded junk m rest n u whole left =
      let (w, sent, writes) =
        send_message-Writes user user_laws (delivered junk m) u (delivered-IsWhole junk m whole) in
      elim (Option-cases w.ec) [
        | inr (e, failed) ↦ (
          (send_error e, (n, w.state)),
          rw (sent, failed) refl,
          inr (inl (e, refl, writes.blamed e failed)),
        )
        | inl fine ↦ (
          (passed_on, (n, w.state)),
          rw (sent, fine) refl,
          inr (inr (refl, written w writes fine, left)),
        )
      ]
    where
      written :
          (w : Wrote user.State)
          → Writes user user_laws (as_bytes (delivered junk m)) u w
          → w.ec ≡ none
          → user_laws.outgoing w.state ≡ user_laws.outgoing u ++ as_bytes (delivered junk m)
      written w h fine =
          h.back
          ∙ ap (λ (k : ℕ). user_laws.outgoing u ++ take k (as_bytes (delivered junk m)))
              (h.exact fine)
          ∙ ap (λ (bs : List ℕ). user_laws.outgoing u ++ bs)
              (take-length (as_bytes (delivered junk m)))

  -- A round of a receiver loop returns. A result of the right size that a node has sent is at the end
  -- of the user's stream after it, with the server's reserved bytes in its header, and the bytes that
  -- follow it are left to the next round; otherwise a socket has reported an error.
  pub receiver_round-IsForwarded :
      (junk : ℕ → ℕ) (output_size : ℕ) (m : Message) (rest : List ℕ) (n : node.State)
      (u : user.State)
      → IsWhole m
      → is_valid_data_for m output_size ≡ some true
      → node_laws.incoming n ≡ as_bytes m ++ rest
      → (r : Round × (node.State × user.State)) × (receiver_round node user junk output_size n u
          ≡ some r)
        × IsForwarded junk m rest u r
  unfolding receiver_round check_result
  receiver_round-IsForwarded junk output_size m rest n u whole fits next =
      let (q, received, outcome) =
        receive_message-IsDelivered node node_laws junk m rest n whole next in
      elim outcome [
        | inl (e, failed, nothing, by_socket) ↦ (
          (receive_error e, (q.state, u)),
          rw received (ap (λ ec. check_result node user output_size ec q.message q.state u) failed),
          inl (e, refl, by_socket),
        )
        | inr (fine, got_m, left) ↦
            let (r, passed, good) = pass_on-IsForwarded junk m rest q.state u whole left in
            (
              r,
              rw received (
                  ap₂ (λ ec m'. check_result node user output_size ec m' q.state u) fine got_m
                  ∙ rw (delivered-valid_data junk m output_size, fits) passed),
              good,
            )
      ]
