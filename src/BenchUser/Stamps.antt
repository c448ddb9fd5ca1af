-- ===== src/BenchUser/Stamps.antt =====
-- server/test_user.cpp with server/test_node.cpp and server/User_Queue.hpp: the time in an input comes back.
use distributed_computing_fr.Prelude.{
  ℕ, ◌<◌, ◌≤◌, ◌≡◌, refl, sym, ap, subst, ◌∙◌, true, some, some_injective, List, ◌++◌, length,
  length-take, take, drop, load, load-append, store, u32_mod, inl, inr, ◌⊎◌, arith,
}
use distributed_computing_fr.Message.{
  Message, is_valid_data, is_valid_data_for, get_data_block_count, as_bytes,
}
use distributed_computing_fr.Message.Build.{new_data}
use distributed_computing_fr.Message.Data.{Carries}
use distributed_computing_fr.Connection.Interface.{ErrorCode, Socket, SocketLaws}
use distributed_computing_fr.Connection.Reading.{ReadError}
use distributed_computing_fr.Connection.Writing.{WriteError}
use distributed_computing_fr.Connection.Framing.{IsWhole, delivered}
use distributed_computing_fr.User.Protocol.{
  Round, passed_on, receive_error, send_error, receiver_round,
}
use distributed_computing_fr.BenchNode
use distributed_computing_fr.BenchNode.{Processed, answered, processing_round}
use distributed_computing_fr.BenchNode.Rounds.{Carries-delivered, processing_round-IsProcessed}
use distributed_computing_fr.BenchNode.Delivery.{receiver_round-IsReturned}
use distributed_computing_fr.BenchNode.Answers.{
  overlaid, store-overlaid, length-overlaid, first32-take, Carries-payload, IsWhole-payload,
  new_data-IsWhole,
}
use distributed_computing_fr.BenchUser.{
  sent_size, result_size, new_input, accepted, read_result, test_result,
}

new_input_of :
    (junk : ℕ → ℕ) (time : List ℕ) (id : ℕ) (m : Message) (payload : List ℕ)
    → new_data junk sent_size 1 id ≡ some m
    → store 4 time m.payload ≡ some payload
    → new_input junk time id ≡ some (record m { payload = payload })
unfolding new_input
new_input_of junk time id m payload e f = rw (e, f) refl

-- An input of the test user is a whole message of one block, with its identifier and its time.
pub new_input-Carries :
    (junk : ℕ → ℕ) (time : List ℕ) (id : ℕ)
    → length time ≡ 8
    → id < u32_mod
    → (m : Message) × (new_input junk time id ≡ some m)
      × IsWhole m
      × Carries m sent_size 1 id
      × (load 4 8 m.payload ≡ some time)
new_input-Carries junk time id sized word =
    let (m, built, kept, whole) =
      new_data-IsWhole junk sent_size 1 id (omega arith) (omega arith) word in
    let room : 12 ≤ length m.payload = omega (arith, kept.room) in
    (
      record m { payload = overlaid time m.payload },
      new_input_of junk time id m (overlaid time m.payload) built
          (store-overlaid time m.payload sized room),
      IsWhole-payload m (overlaid time m.payload) whole (length-overlaid time m.payload sized room),
      Carries-payload m (overlaid time m.payload) sent_size 1 id kept
          (first32-take m.payload (time ++ drop 12 m.payload) (omega (arith, room)))
          (length-overlaid time m.payload sized room),
      load-append 4 8 (take 4 m.payload) time (drop 12 m.payload)
          (omega (arith, room, length-take 4 m.payload)) sized,
    )

data_of_valid : (m : Message) → is_valid_data_for m result_size ≡ some true → is_valid_data m ≡ true
unfolding is_valid_data_for
data_of_valid m valid = ground (arith, valid)

tested :
    (m : Message) (time : List ℕ)
    → is_valid_data_for m result_size ≡ some true
    → get_data_block_count m result_size ≡ some 1
    → load 4 8 m.payload ≡ some time
    → test_result m ≡ some (accepted time)
unfolding test_result read_result
tested m time valid counted loaded = rw (data_of_valid m valid, valid, counted, loaded) refl

module _ (there here user : Socket) (there_laws : SocketLaws there) (here_laws : SocketLaws here)
    (user_laws : SocketLaws user) where
  -- How a round of the server's receiver loop ends: an error that a socket reports, or a message is at
  -- the end of the user's stream, which the user accepts as a result with this time.
  abbrev pub IsStamped : (ℕ → ℕ) → List ℕ → user.State → Round × (here.State × user.State) → Type 0
  IsStamped user_junk time u (round, (h', u')) =
      ((e : ErrorCode) × (round ≡ receive_error e) × ReadError here here_laws e)
      ⊎ ((e : ErrorCode) × (round ≡ send_error e) × WriteError user user_laws e)
      ⊎ ((result : Message) × (round ≡ passed_on)
          × (user_laws.outgoing u' ≡ user_laws.outgoing u ++ as_bytes result)
          × (test_result (delivered user_junk result) ≡ some (accepted time)))

  -- The round of the server's receiver loop on the bytes of an answer.
  receiver_round-IsStamped :
      (user_junk node_junk server_junk : ℕ → ℕ) (time : List ℕ) (id : ℕ) (input : Message)
      (later new rest : List ℕ) (n n' : there.State) (h : here.State) (u : user.State)
      → length time ≡ 8
      → id < u32_mod
      → new_input user_junk time id ≡ some input
      → there_laws.incoming n ≡ as_bytes input ++ later
      → processing_round there node_junk sent_size result_size n ≡ some (answered, n')
      → there_laws.outgoing n' ≡ there_laws.outgoing n ++ new
      → here_laws.incoming h ≡ new ++ rest
      → (r : Round × (here.State × user.State)) × (receiver_round here user server_junk result_size
            h u
          ≡ some r)
        × IsStamped user_junk time u r
  receiver_round-IsStamped uj nj sj time id input later new rest n n' h u sized word built sent ran
        wrote next =
      let (m, made, whole, carries, stamped) = new_input-Carries uj time id sized word in
      let same : m ≡ input = some_injective (sym made ∙ built) in
      let (r, ran', returned) =
        receiver_round-IsReturned there here user there_laws here_laws user_laws nj sj sent_size
          result_size 1 id input later new rest n n' h u (subst IsWhole same whole)
          (subst (λ m. Carries m sent_size 1 id) same carries) word (omega arith) (omega arith)
          (omega arith) (omega arith) sent ran wrote next in
      (
        r,
        ran',
        elim returned [
          | inl failed ↦ inl failed
          | inr (inl failed) ↦ inr (inl failed)
          | inr (inr (result, passed, out, carried, first, left)) ↦
              let got = Carries-delivered uj result result_size 1 id carried in
              inr (
                inr (
                  result,
                  passed,
                  out,
                  tested (delivered uj result) time got.valid got.blocks
                      (first ∙ subst (λ m. load 4 8 m.payload ≡ some time) same stamped),
                ))
        ],
      )

  -- How a round of the node ends, and what becomes of its answer, where `arrive` is the server's side of
  -- the connection when bytes from the node have arrived there.
  abbrev pub IsRoundTrip :
      (ℕ → ℕ)
      → (ℕ → ℕ)
      → List ℕ
      → (List ℕ → here.State)
      → there.State
      → user.State
      → Processed × there.State
      → Type 0
  IsRoundTrip user_junk server_junk time arrive n u (p, n') =
      ((e : ErrorCode) × (p ≡ BenchNode.receive_error e) × ReadError there there_laws e)
      ⊎ ((e : ErrorCode) × (p ≡ BenchNode.send_error e) × WriteError there there_laws e)
      ⊎ ((new : List ℕ) × (p ≡ answered)
          × (there_laws.outgoing n' ≡ there_laws.outgoing n ++ new)
          × (r : Round × (here.State × user.State)) × (receiver_round here user server_junk
                result_size (arrive new) u
              ≡ some r)
          × IsStamped user_junk time u r)

  -- An input of the test user that reaches the node: the node's round returns, and so does the round of
  -- the server's receiver loop on what the node answers. Unless a socket reports an error, the server
  -- writes a result to the user that passes all tests of the test user, and in which it finds the time
  -- that it has put into the input.
  pub processing_round-IsRoundTrip :
      (user_junk node_junk server_junk : ℕ → ℕ) (time : List ℕ) (id : ℕ) (input : Message)
      (later rest : List ℕ) (arrive : List ℕ → here.State) (n : there.State) (u : user.State)
      → length time ≡ 8
      → id < u32_mod
      → new_input user_junk time id ≡ some input
      → there_laws.incoming n ≡ as_bytes input ++ later
      → ((bytes : List ℕ) → here_laws.incoming (arrive bytes) ≡ bytes ++ rest)
      → (r : Processed × there.State) × (processing_round there node_junk sent_size result_size n
          ≡ some r)
        × IsRoundTrip user_junk server_junk time arrive n u r
  processing_round-IsRoundTrip uj nj sj time id input later rest arrive n u sized word built sent
        arrives =
      let (m, made, whole, carries, stamped) = new_input-Carries uj time id sized word in
      let same : m ≡ input = some_injective (sym made ∙ built) in
      let ((p, n'), ran, processed) =
        processing_round-IsProcessed there there_laws nj sent_size result_size 1 id input later n
          (subst IsWhole same whole) (subst (λ m. Carries m sent_size 1 id) same carries) sent word
          (omega arith) (omega arith) (omega arith) (omega arith) in
      (
        (p, n'),
        ran,
        elim processed [
          | inl failed ↦ inl failed
          | inr (inl failed) ↦ inr (inl failed)
          | inr (inr (output, done, out, left, fine, carried, first)) ↦
              let (r, returned, stamped') =
                receiver_round-IsStamped uj nj sj time id input later (as_bytes output) rest n n'
                  (arrive (as_bytes output)) u sized word built sent
                  (ran ∙ ap (λ p. some (p, n')) done) out (arrives (as_bytes output)) in
              inr (inr (as_bytes output, done, out, r, returned, stamped'))
        ],
      )
