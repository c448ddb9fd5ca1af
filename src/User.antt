-- ===== src/User.antt =====
-- server/User_Queue.hpp and server/User_Stack.hpp: how a user's session hands its inputs to the nodes.
-- The two classes differ in the container of the ready nodes. Nodes and coroutines are numbers, and
-- an input is what the session passes on unread. The state counts, besides what the source keeps,
-- what has happened: the inputs that came, those that a node took, the nodes that failed.
-- The main loop of the source waits for its own dispatch before it reads on; the events here leave
-- that open, so that every order of the source is among theirs.
use distributed_computing_fr.Prelude.{
  ℕ, zero, suc, ◌+◌, ◌==◌, if◌then◌else◌, Bool, true, false, Option, none, some, List, [], ◌∷◌,
  ◌>>=◌,
}
use distributed_computing_fr.Container.{
  Container, Resumed, idle, got, undefined, async_pop, push, resume,
}
use distributed_computing_fr.Counter.{Counter, incr, decr}
pub mod Counting
pub mod Conservation
pub mod Answers
pub mod Protocol
pub mod MainLoop
pub mod Setup
pub mod Start
pub mod Tests

pub record Session (I : Type 0) : Type 0 where
  -- `_nodes_queue`, and `_data_counter`.
  pub nodes : Container ℕ
  pub data_counter : Counter
  -- The coroutines of `_dispatch_input` that wait for a node, with their inputs, and those of
  -- `_send_input_to_node` that wait for the socket, by their nodes.
  pub awaiting : List (ℕ × I)
  pub sending : List (ℕ × I)
  pub received : List I
  pub taken : List I
  pub failed : List ℕ
  pub answers : ℕ

-- What may happen to a session next.
pub data Event (I : Type 0) : Type 0 where
  input_comes : ℕ → I → Event I
  dispatch_resumes answer_comes : Event I
  node_took : ℕ → Event I
  node_failed : ℕ → ℕ → Event I

module _ {I : Type 0} where
  -- The first entry under a key, and the others.
  unfoldable pub take_out : ℕ → List (ℕ × I) → Option (I × List (ℕ × I))
  take_out k [] = none
  take_out k ((j, i) ∷ xs) =
      if k == j
      then some (i, xs)
      else elim (take_out k xs) [ none ↦ none | some (i', ys) ↦ some (i', (j, i) ∷ ys) ]

  -- `_dispatch_input`, up to the node it pops or its wait for one; then `_send_input_to_node` starts.
  unfoldable pub dispatch_input : ℕ → I → Session I → Session I
  dispatch_input c input s =
      let popped = async_pop c s.nodes in
      elim popped.0 [
        | some node ↦ record s { nodes = popped.1; sending = (node, input) ∷ s.sending }
        | none ↦ record s { nodes = popped.1; awaiting = (c, input) ∷ s.awaiting }
      ]

  -- The main loop, for an input of the user.
  unfoldable pub receive_input : ℕ → I → Session I → Session I
  receive_input c input s =
      dispatch_input c input
        (record s { data_counter = incr s.data_counter; received = input ∷ s.received })

  -- A coroutine of `_dispatch_input` runs on after its wait, with the node that it pops.
  unfoldable pub resume_dispatch : Session I → Option (Session I)
  resume_dispatch s = elim (resume s.nodes) [
    | idle ↦ none
    | undefined c ↦ none
    | got c node nodes' ↦ elim (take_out c s.awaiting) [
      | none ↦ none
      | some (input, rest) ↦
          some (record s { nodes = nodes'; awaiting = rest; sending = (node, input) ∷ s.sending })
    ]
  ]

  -- `_send_input_to_node` after the socket took the input: the node is ready again.
  unfoldable pub input_sent : (ℕ → List ℕ → List ℕ) → ℕ → Session I → Option (Session I)
  input_sent insert node s = elim (take_out node s.sending) [
    | none ↦ none
    | some (input, rest) ↦
        some
          (record s { nodes = push insert node s.nodes; sending = rest; taken = input ∷ s.taken })
  ]

  -- `_send_input_to_node` after an error of the socket: the input is dispatched again, and the node
  -- is not.
  unfoldable pub send_failed : ℕ → ℕ → Session I → Option (Session I)
  send_failed c node s = elim (take_out node s.sending) [
    | none ↦ none
    | some (input, rest) ↦
        some (dispatch_input c input (record s { sending = rest; failed = node ∷ s.failed }))
  ]

  -- `_receiver_loop`, for a result of a node that was passed on to the user.
  unfoldable pub answer : Session I → Session I
  answer s = record s { data_counter = decr s.data_counter; answers = s.answers + 1 }

  unfoldable pub step : (ℕ → List ℕ → List ℕ) → Event I → Session I → Option (Session I)
  step insert (input_comes c input) s = some (receive_input c input s)
  step insert dispatch_resumes s = resume_dispatch s
  step insert answer_comes s = some (answer s)
  step insert (node_took node) s = input_sent insert node s
  step insert (node_failed c node) s = send_failed c node s

  unfoldable pub steps : (ℕ → List ℕ → List ℕ) → List (Event I) → Session I → Option (Session I)
  steps insert [] s = some s
  steps insert (e ∷ es) s = elim (step insert e s) [ none ↦ none | some s' ↦ steps insert es s' ]
