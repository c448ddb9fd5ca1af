-- ===== src/BenchNode/Delivery.antt =====
-- server/test_node.cpp and server/User_Queue.hpp together: from an input on the way to the node to its
-- result on the way to the user.
use distributed_computing_fr.Prelude.{
  ℕ, ◌+◌, ◌*◌, ◌<◌, ◌≤◌, ◌≡◌, refl, sym, subst, ◌∙◌, some, some_injective, List, ◌++◌, u32_mod,
  load, inl, inr, ◌⊎◌,
}
use distributed_computing_fr.Message.{Message, as_bytes}
use distributed_computing_fr.Message.Data.{Carries}
use distributed_computing_fr.Connection.Interface.{ErrorCode, Socket, SocketLaws}
use distributed_computing_fr.Connection.Reading.{ReadError}
use distributed_computing_fr.Connection.Writing.{WriteError}
use distributed_computing_fr.Connection.Framing.{IsWhole, delivered, append_split}
use distributed_computing_fr.User.Protocol.{
  Round, passed_on, receive_error, send_error, receiver_round,
}
use distributed_computing_fr.User.Protocol.Forwarding.{receiver_round-IsForwarded}
use distributed_computing_fr.BenchNode.{answered, processing_round}
use distributed_computing_fr.BenchNode.Rounds.{
  Carries-delivered, IsProcessed, processing_round-IsProcessed,
}

-- The node's side of its connection, the server's side of it, and the server's connection to the user.
module _ (there here user : Socket) (there_laws : SocketLaws there) (here_laws : SocketLaws here)
    (user_laws : SocketLaws user) where
  -- How a round of the server's receiver loop ends: an error that a socket reports, or a result that
  -- answers `input` is at the end of the user's stream and `rest` is left.
  abbrev pub IsReturned :
      ℕ → ℕ → ℕ → Message → List ℕ → user.State → Round × (here.State × user.State) → Type 0
  IsReturned output_size count id input rest u (round, (h', u')) =
      ((e : ErrorCode) × (round ≡ receive_error e) × ReadError here here_laws e)
      ⊎ ((e : ErrorCode) × (round ≡ send_error e) × WriteError user user_laws e)
      ⊎ ((result : Message) × (round ≡ passed_on)
          × (user_laws.outgoing u' ≡ user_laws.outgoing u ++ as_bytes result)
          × Carries result output_size count id
          × (load 4 8 result.payload ≡ load 4 8 input.payload)
          × (here_laws.incoming h' ≡ rest))

  -- The server's round on the bytes of a fitting answer.
  forward_answer :
      (junk : ℕ → ℕ) (output_size count id : ℕ) (input output : Message) (new rest : List ℕ)
      (h : here.State) (u : user.State)
      → IsWhole output
      → Carries output output_size count id
      → load 4 8 output.payload ≡ load 4 8 input.payload
      → new ≡ as_bytes output
      → here_laws.incoming h ≡ new ++ rest
      → (r : Round × (here.State × user.State)) × (receiver_round here user junk output_size h u
          ≡ some r)
        × IsReturned output_size count id input rest u r
  forward_answer junk o count id input output new rest h u whole carries same e next =
      let (r, ran, forwarded) =
        receiver_round-IsForwarded here user here_laws user_laws junk o output rest h u whole
          carries.valid (subst (λ bs. here_laws.incoming h ≡ bs ++ rest) e next) in
      (
        r,
        ran,
        elim forwarded [
          | inl failed ↦ inl failed
          | inr (inl failed) ↦ inr (inl failed)
          | inr (inr (passed, sent, left)) ↦ inr (
              inr (
                delivered junk output,
                passed,
                sent,
                Carries-delivered junk output o count id carries,
                same,
                left,
              ))
        ],
      )

  -- After the node has answered an input, a round of the server's receiver loop on the bytes that the
  -- node has written returns, and unless a socket reports an error it writes to the user a result
  -- with as many blocks of the output's size as the input had, the input's identifier and the first
  -- eight bytes of its data.
  pub receiver_round-IsReturned :
      (node_junk server_junk : ℕ → ℕ) (input_size output_size count id : ℕ) (input : Message)
      (later new rest : List ℕ) (n n' : there.State) (h : here.State) (u : user.State)
      → IsWhole input
      → Carries input input_size count id
      → id < u32_mod
      → 12 + input_size * count < u32_mod
      → output_size ≤ input_size
      → 0 < output_size
      → 8 ≤ output_size * count
      → there_laws.incoming n ≡ as_bytes input ++ later
      → processing_round there node_junk input_size output_size n ≡ some (answered, n')
      → there_laws.outgoing n' ≡ there_laws.outgoing n ++ new
      → here_laws.incoming h ≡ new ++ rest
      → (r : Round × (here.State × user.State)) × (receiver_round here user server_junk output_size
            h u
          ≡ some r)
        × IsReturned output_size count id input rest u r
  receiver_round-IsReturned nj sj i o count id input later new rest n n' h u whole carries word
        small le pos eight sent ran wrote next =
      let (r, ran', good) =
        processing_round-IsProcessed there there_laws nj i o count id input later n whole carries
          sent word small le pos eight in
      elim (subst (IsProcessed there there_laws o count id input later n)
        (some_injective (sym ran' ∙ ran)) good) [
          | inl (e, p, by_socket) ↦ absurd (cc)
          | inr (inl (e, p, by_socket)) ↦ absurd (cc)
          | inr (inr (output, p, out, left, fine, carried, same)) ↦
              forward_answer sj o count id input output new rest h u fine carried same
                (append_split (there_laws.outgoing n) new (there_laws.outgoing n) (as_bytes output)
                  refl (sym wrote ∙ out)).1
                next
        ]
