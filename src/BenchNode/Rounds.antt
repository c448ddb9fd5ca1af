-- ===== src/BenchNode/Rounds.antt =====
-- server/test_node.cpp, `processing_loop`: a round over the connection to the server.
use distributed_computing_fr.Prelude.{
  ℕ, ◌+◌, ◌*◌, ◌<◌, ◌≤◌, ◌≡◌, refl, ap, ap₂, ◌∙◌, true, none, some, List, ◌++◌, take, take-length,
  u32_mod, load, Option-cases, inl, inr, ◌⊎◌,
}
use distributed_computing_fr.Message.{
  Message, is_valid_message, is_valid_data, is_valid_data_for, get_data_size, get_data_block_count,
  as_bytes,
}
use distributed_computing_fr.Message.Data.{Carries}
use distributed_computing_fr.Connection.Interface.{ErrorCode, Socket, SocketLaws, Wrote}
use distributed_computing_fr.Connection.Reading.{ReadError}
use distributed_computing_fr.Connection.Writing.{Writes, WriteError}
use distributed_computing_fr.Connection.Directions.{receive_message-outgoing}
use distributed_computing_fr.Connection.Framing.{
  IsWhole, delivered, receive_message-IsDelivered, send_message-Writes,
}
use distributed_computing_fr.BenchNode.{
  Processed, answered, receive_error, send_error, answer, process, processing_round,
}
use distributed_computing_fr.BenchNode.Answers.{answer-Carries}

-- The node's own reserved bytes make no difference to what a message carries.
pub Carries-delivered :
    (junk : ℕ → ℕ) (m : Message) (size count id : ℕ)
    → Carries m size count id
    → Carries (delivered junk m) size count id
unfolding is_valid_data_for is_valid_data is_valid_message get_data_size get_data_block_count
Carries-delivered junk m size count id h = record {
  valid = h.valid;
  data_size = h.data_size;
  blocks = h.blocks;
  identifier = h.identifier;
  room = h.room;
}

module _ (sock : Socket) (laws : SocketLaws sock) where
  open sock use {State}
  open laws use {incoming, outgoing}

  -- What a round gives when the stream holds `input` and then `rest`: an error that the socket
  -- reports, or an answer to the input at the end of the outgoing stream, and `rest` is left.
  abbrev pub IsProcessed : ℕ → ℕ → ℕ → Message → List ℕ → State → Processed × State → Type 0
  IsProcessed output_size count id input rest s (p, s') =
      ((e : ErrorCode) × (p ≡ receive_error e) × ReadError sock laws e)
      ⊎ ((e : ErrorCode) × (p ≡ send_error e) × WriteError sock laws e)
      ⊎ ((output : Message) × (p ≡ answered)
          × (outgoing s' ≡ outgoing s ++ as_bytes output)
          × (incoming s' ≡ rest)
          × IsWhole output
          × Carries output output_size count id
          × (load 4 8 output.payload ≡ load 4 8 input.payload))

  written :
      (bs : List ℕ) (s : State) (w : Wrote State)
      → Writes sock laws bs s w
      → w.ec ≡ none
      → outgoing w.state ≡ outgoing s ++ bs
  written bs s w h fine =
      h.back
      ∙ ap (λ (k : ℕ). outgoing s ++ take k bs) (h.exact fine)
      ∙ ap (λ (bs : List ℕ). outgoing s ++ bs) (take-length bs)

  process-IsProcessed :
      (junk : ℕ → ℕ) (input_size output_size count id : ℕ) (input output : Message) (rest : List ℕ)
      (s t : State)
      → is_valid_data_for input input_size ≡ some true
      → answer junk input_size output_size input ≡ some output
      → IsWhole output
      → Carries output output_size count id
      → load 4 8 output.payload ≡ load 4 8 input.payload
      → incoming t ≡ rest
      → outgoing t ≡ outgoing s
      → (r : Processed × State) × (process sock junk input_size output_size none (some input) t
          ≡ some r)
        × IsProcessed output_size count id input rest s r
  unfolding process
  process-IsProcessed junk i o count id input output rest s t fits built whole carries same left
        kept =
      let (w, sent, writes) = send_message-Writes sock laws output t whole in
      elim (Option-cases w.ec) [
        | inr (e, failed) ↦ (
          (send_error e, w.state),
          rw (fits, built, sent, failed) refl,
          inr (inl (e, refl, writes.blamed e failed)),
        )
        | inl fine ↦ (
          (answered, w.state),
          rw (fits, built, sent, fine) refl,
          inr (
              inr (
                output,
                refl,
                written (as_bytes output) t w writes fine
                    ∙ ap (λ (o : List ℕ). o ++ as_bytes output) kept,
                writes.untouched ∙ left,
                whole,
                carries,
                same,
              )),
        )
      ]

  -- A round of the node's loop returns. When the server has sent a whole input of `count` blocks, the
  -- answer is at the end of the node's stream after it: a whole message of `count` blocks of the
  -- output's size, with the input's identifier and the first eight bytes of its data. The bytes that
  -- follow the input are left to the next round; otherwise the socket has reported an error.
  pub processing_round-IsProcessed :
      (junk : ℕ → ℕ) (input_size output_size count id : ℕ) (input : Message) (rest : List ℕ)
      (s : State)
      → IsWhole input
      → Carries input input_size count id
      → incoming s ≡ as_bytes input ++ rest
      → id < u32_mod
      → 12 + input_size * count < u32_mod
      → output_size ≤ input_size
      → 0 < output_size
      → 8 ≤ output_size * count
      → (r : Processed × State) × (processing_round sock junk input_size output_size s ≡ some r)
        × IsProcessed output_size count id input rest s r
  unfolding processing_round process
  processing_round-IsProcessed junk i o count id input rest s whole carries next word small le pos
        eight =
      let (q, received, outcome) =
        receive_message-IsDelivered sock laws junk input rest s whole next in
      elim outcome [
        | inl (e, failed, nothing, by_socket) ↦ (
          (receive_error e, q.state),
          rw received (ap (λ ec. process sock junk i o ec q.message q.state) failed),
          inl (e, refl, by_socket),
        )
        | inr (fine, got, left) ↦
            let got_it = Carries-delivered junk input i count id carries in
            let (output, built, carried, same, good) =
              answer-Carries junk i o count id (delivered junk input) got_it word small le pos
                eight in
            let (r, ran, processed) =
              process-IsProcessed junk i o count id (delivered junk input) output rest s q.state
                got_it.valid built good carried same left
                (receive_message-outgoing sock laws junk s q received) in
            (
              r,
              rw received (ap₂ (λ ec m. process sock junk i o ec m q.state) fine got ∙ ran),
              processed,
            )
      ]
