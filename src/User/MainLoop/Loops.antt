-- ===== src/User/MainLoop/Loops.antt =====
-- server/User_Queue.hpp, `_main_loop`: the counter of the receiver loops, and what runs on after the
-- main loop has returned.
use distributed_computing_fr.Prelude.{
  some_injective, ℕ, ◌+◌, ◌≡◌, ◌==◌, refl, subst, Bool, true, false, none, some, Option-cases, inl,
  inr, List, [], ◌∷◌, length, arith, ◌<◌, u32_mod,
}
use distributed_computing_fr.Message.{Message, is_valid_data_for, config_output_size}
use distributed_computing_fr.Container.{Container, push}
use distributed_computing_fr.Counter.{Counter, incr}
use distributed_computing_fr.User.Answers.{incr-val}
use distributed_computing_fr.User.MainLoop.Counting.{
  remove-length, IsTracked, from_user-IsTracked, resume_main-IsTracked, loop_ends-IsTracked,
}
use distributed_computing_fr.User.MainLoop.{
  receiving, returned, Running, LoopEvent, user_sends, user_gone, main_resumes, result_comes,
  result_sent, result_failed, node_gone, loop_canceled, remove, start_loops, begin_loop,
  receive_result, from_user, step, steps,
}

receive_result-IsTracked :
    (node : ℕ) (message : Message) (s s' : Running)
    → IsTracked s
    → receive_result node message s ≡ some s'
    → IsTracked s'
unfolding receive_result
receive_result-IsTracked node message s s' h e = elim (Option-cases (remove node s.waiting)) [
  | inl nowhere ↦ absurd (ground (arith, e))
  | inr (rest, there) ↦ elim (Option-cases (config_output_size s.config)) [
    | inl bad ↦ absurd (ground (arith, e))
    | inr (size, good) ↦ elim (Option-cases (is_valid_data_for message size)) [
      | inl bad ↦ absurd (ground (arith, e))
      | inr (true, fits) ↦
          subst IsTracked (some_injective (rw (there, good, fits, receive_result) at e))
            (omega (arith, h.0, remove-length node s.waiting rest there), h.1)
      | inr (false, fits) ↦
          subst IsTracked (some_injective (rw (there, good, fits, receive_result) at e)) (
            loop_ends-IsTracked s (record s { waiting = rest }) refl refl
              (omega (arith, remove-length node s.waiting rest there)) h)
    ]
  ]
]

step-IsTracked :
    (ignores : Bool) (ev : LoopEvent) (s s' : Running)
    → IsTracked s
    → step ignores ev s ≡ some s'
    → IsTracked s'
unfolding step
step-IsTracked ignores (user_sends message) s s' h e =
    from_user-IsTracked ignores (some message) s.phase s s' refl h e
step-IsTracked ignores user_gone s s' h e = from_user-IsTracked ignores none s.phase s s' refl h e
step-IsTracked ignores main_resumes s s' h e = resume_main-IsTracked s.phase s s' refl h e
step-IsTracked ignores (result_comes node message) s s' h e =
    receive_result-IsTracked node message s s' h e
step-IsTracked ignores (result_sent node) s s' h e = elim (Option-cases (remove node s.sending)) [
  | inl nowhere ↦ absurd (ground (arith, e))
  | inr (rest, there) ↦
      subst IsTracked (some_injective (rw (there, step) at e))
        (omega (arith, h.0, remove-length node s.sending rest there), h.1)
]
step-IsTracked ignores (result_failed node) s s' h e = elim (Option-cases (remove node s.sending)) [
  | inl nowhere ↦ absurd (ground (arith, e))
  | inr (rest, there) ↦ subst IsTracked (some_injective (rw (there, step) at e)) (
      loop_ends-IsTracked s (record s { sending = rest }) refl refl
        (omega (arith, remove-length node s.sending rest there)) h)
]
step-IsTracked ignores (node_gone node) s s' h e = elim (Option-cases (remove node s.waiting)) [
  | inl nowhere ↦ absurd (ground (arith, e))
  | inr (rest, there) ↦ subst IsTracked (some_injective (rw (there, step) at e)) (
      loop_ends-IsTracked s (record s { waiting = rest }) refl refl
        (omega (arith, remove-length node s.waiting rest there)) h)
]
step-IsTracked ignores (loop_canceled node) s s' h e =
    elim (Option-cases (remove node s.canceled)) [
      | inl nowhere ↦ absurd (ground (arith, e))
      | inr (rest, there) ↦ subst IsTracked (some_injective (rw (there, step) at e)) (
          loop_ends-IsTracked s (record s { canceled = rest }) refl refl
            (omega (arith, remove-length node s.canceled rest there)) h)
    ]

steps-IsTracked :
    (ignores : Bool) (es : List LoopEvent) (s s' : Running)
    → IsTracked s
    → steps ignores es s ≡ some s'
    → IsTracked s'
unfolding steps
steps-IsTracked ignores [] s s' h e = subst IsTracked (some_injective e) h
steps-IsTracked ignores (ev ∷ es) s s' h e = elim (Option-cases (step ignores ev s)) [
  | inl stops ↦ absurd (ground (arith, e))
  | inr (t, goes) ↦
      steps-IsTracked ignores es t s' (step-IsTracked ignores ev s t h goes) (rw (goes, steps) at e)
]

length-zero : {A : Type 0} (xs : List A) → length xs ≡ 0 → xs ≡ []
length-zero [] h = refl
length-zero (x ∷ xs) h = absurd (ground arith)

abbrev pub HasNoLoop : Running → Type 0
HasNoLoop s = (s.waiting ≡ []) × (s.sending ≡ []) × (s.canceled ≡ [])

pub start_loops-val :
    (insert : ℕ → List ℕ → List ℕ) (ns : List ℕ) (k : Counter) (nodes : Container ℕ)
    → k.val + length ns < u32_mod
    → (start_loops insert ns k nodes).0.val ≡ k.val + length ns
unfolding start_loops
start_loops-val insert [] k nodes small = omega arith
start_loops-val insert (n ∷ ns) k nodes small = omega (
  arith,
  start_loops-val insert ns (incr k) (push insert n nodes) (omega (arith, small, incr-val k)),
  incr-val k,
  small,
)

-- The main loop of a session with fewer than 2^32 nodes, whose receiver counter begins at zero, in a
-- run after which it has returned for a change of the configuration: no receiver loop goes on, none
-- waits for a result, sends one or is yet to be stopped.
pub steps-HasNoLoop :
    (insert : ℕ → List ℕ → List ℕ) (ignores : Bool) (config : Message)
    (data_counter receiver_counter : Counter) (nodes : Container ℕ) (es : List LoopEvent)
    (s : Running)
    → receiver_counter.val ≡ 0
    → length nodes.items < u32_mod
    → steps ignores es (begin_loop insert config data_counter receiver_counter nodes).0 ≡ some s
    → s.phase ≡ returned true
    → HasNoLoop s
unfolding begin_loop
steps-HasNoLoop insert ignores config data_counter receiver_counter nodes es s at_zero small e
      ended =
    let begun = begin_loop insert config data_counter receiver_counter nodes in
    let counts =
      start_loops-val insert nodes.items receiver_counter (record nodes { items = [] })
        (omega (arith, at_zero, small)) in
    let (counted, at_end) =
      steps-IsTracked ignores es begun.0 s
        (omega (arith, counts, at_zero), λ g. absurd (ground arith)) e in
    let none_left = at_end ended in
    (
      length-zero s.waiting (omega (arith, counted, none_left)),
      length-zero s.sending (omega (arith, counted, none_left)),
      length-zero s.canceled (omega (arith, counted, none_left)),
    )

itself : (n : ℕ) → (n == n) ≡ true
itself n = ground arith

-- A main loop that returns because the user is gone stops no receiver loop: in every state in which
-- it waits for the user and a node has a loop, it returns, and then a result of that node is still
-- tested and handed on by the loop, if the current configuration allows the result.
user_gone-Dangles :
    (ignores : Bool) (node : ℕ) (nodes : List ℕ) (message : Message) (output_size : ℕ) (s : Running)
    → s.phase ≡ receiving
    → s.waiting ≡ node ∷ nodes
    → config_output_size s.config ≡ some output_size
    → is_valid_data_for message output_size ≡ some true
    → (s' : Running) × (steps ignores (user_gone ∷ result_comes node message ∷ []) s ≡ some s')
      × (s'.phase ≡ returned false)
      × (s'.sending ≡ node ∷ s.sending)
unfolding steps step from_user receive_result remove
user_gone-Dangles ignores node nodes message output_size s here first size fits = (
  record s { phase = returned false; waiting = nodes; sending = node ∷ s.sending },
  rw (here, from_user) (rw (first, itself node, size, fits) refl),
  refl,
  refl,
)
