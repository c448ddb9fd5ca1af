-- ===== src/User/Answers.antt =====
-- server/User_Queue.hpp and server/User_Stack.hpp: the counter of inputs that have no answer yet, for
-- whose zero a new configuration waits.
use distributed_computing_fr.Prelude.{
  some_injective, ℕ, ◌+◌, ◌-◌, ◌≤◌, ◌<◌, ◌%◌, ◌≡◌, refl, ap, subst, some, List, [], ◌∷◌, length,
  arith, u32_mod, Option-cases, inl, inr,
}
use distributed_computing_fr.Container.{async_pop}
use distributed_computing_fr.Counter.{Counter, incr, decr}
use distributed_computing_fr.User.{
  Session, dispatch_input, receive_input, resume_dispatch, input_sent, send_failed, answer, Event,
  input_comes, dispatch_resumes, answer_comes, node_took, node_failed, step, steps,
}

pub incr-val : (k : Counter) → (incr k).val ≡ (k.val + 1) % u32_mod
unfolding incr
incr-val k = refl

pub decr-val : (k : Counter) → (decr k).val ≡ k.val - 1
unfolding decr
decr-val k = ground arith

module _ {I : Type 0} where
  -- As long as the inputs fit the counter's word: the counter holds no more than the inputs, and at
  -- least those that have no answer.
  abbrev pub IsCounted : Session I → Type 0
  IsCounted s =
      length s.received < u32_mod
      → (s.data_counter.val ≤ length s.received)
        × (length s.received ≤ s.data_counter.val + s.answers)

  -- Two sessions that agree in what is counted here.
  abbrev Agrees : Session I → Session I → Type 0
  Agrees s s' =
      (s'.data_counter ≡ s.data_counter) × (s'.received ≡ s.received) × (s'.answers ≡ s.answers)

  IsCounted-Agrees : (s s' : Session I) → Agrees s s' → IsCounted s → IsCounted s'
  IsCounted-Agrees s s' (same_counter, same_received, same_answers) h small =
      let same_val = ap (λ (k : Counter). k.val) same_counter in
      let same_length = ap length same_received in
      let (le, ge) = h (omega (arith, small, same_length)) in
      (
        omega (arith, le, same_val, same_length),
        omega (arith, ge, same_val, same_length, same_answers),
      )

  dispatch_input-Agrees : (c : ℕ) (i : I) (s : Session I) → Agrees s (dispatch_input c i s)
  unfolding dispatch_input
  dispatch_input-Agrees c i s = elim (Option-cases (async_pop c s.nodes).0) [
    | inl nothing ↦ rw (nothing, dispatch_input) (refl, refl, refl)
    | inr (node, there) ↦ rw (there, dispatch_input) (refl, refl, refl)
  ]

  receive_input-IsCounted :
      (c : ℕ) (i : I) (s : Session I) → IsCounted s → IsCounted (receive_input c i s)
  unfolding receive_input
  receive_input-IsCounted c i s h =
      let s' : Session I = record s {
        data_counter = incr s.data_counter;
        received = i ∷ s.received;
      } in
      IsCounted-Agrees s' (dispatch_input c i s') (dispatch_input-Agrees c i s') (λ small.
        let (le, ge) = h (omega (arith, small)) in
        (
          omega (arith, le, small, incr-val s.data_counter),
          omega (arith, le, ge, small, incr-val s.data_counter),
        ))

  answer-IsCounted : (s : Session I) → IsCounted s → IsCounted (answer s)
  unfolding answer
  answer-IsCounted s h small =
      let (le, ge) = h small in
      (omega (arith, le, decr-val s.data_counter), omega (arith, ge, decr-val s.data_counter))

  resume_dispatch-Agrees : (s s' : Session I) → resume_dispatch s ≡ some s' → Agrees s s'
  unfolding resume_dispatch
  resume_dispatch-Agrees s s' e = ground arith

  input_sent-Agrees :
      (insert : ℕ → List ℕ → List ℕ) (node : ℕ) (s s' : Session I)
      → input_sent insert node s ≡ some s'
      → Agrees s s'
  unfolding input_sent
  input_sent-Agrees insert node s s' e = ground arith

  send_failed-Agrees :
      (c node : ℕ) (s s' : Session I) → send_failed c node s ≡ some s' → Agrees s s'
  unfolding send_failed dispatch_input
  send_failed-Agrees c node s s' e = ground arith

  step-IsCounted :
      (insert : ℕ → List ℕ → List ℕ) (e : Event I) (s s' : Session I)
      → IsCounted s
      → step insert e s ≡ some s'
      → IsCounted s'
  unfolding step
  step-IsCounted insert (input_comes c i) s s' h e =
      subst IsCounted (some_injective e) (receive_input-IsCounted c i s h)
  step-IsCounted insert dispatch_resumes s s' h e =
      IsCounted-Agrees s s' (resume_dispatch-Agrees s s' e) h
  step-IsCounted insert answer_comes s s' h e =
      subst IsCounted (some_injective e) (answer-IsCounted s h)
  step-IsCounted insert (node_took node) s s' h e =
      IsCounted-Agrees s s' (input_sent-Agrees insert node s s' e) h
  step-IsCounted insert (node_failed c node) s s' h e =
      IsCounted-Agrees s s' (send_failed-Agrees c node s s' e) h

  steps-IsCounted :
      (insert : ℕ → List ℕ → List ℕ) (es : List (Event I)) (s s' : Session I)
      → IsCounted s
      → steps insert es s ≡ some s'
      → IsCounted s'
  unfolding steps
  steps-IsCounted insert [] s s' h e = subst IsCounted (some_injective e) h
  steps-IsCounted insert (ev ∷ es) s s' h e = elim (Option-cases (step insert ev s)) [
    | inl stops ↦ absurd (ground (arith, e))
    | inr (t, goes) ↦
        steps-IsCounted insert es t s' (step-IsCounted insert ev s t h goes) (rw (goes, steps) at e)
  ]

  -- The counter holds no more than the inputs, and at least those that have no answer.
  abbrev pub CountsAnswers : Session I → Type 0
  CountsAnswers s =
      (s.data_counter.val ≤ length s.received)
      × (length s.received ≤ s.data_counter.val + s.answers)

  -- In every run of a session from its start, as long as fewer than 2^32 inputs have come, the data
  -- counter holds at least as many as there are inputs without an answer, and no more than there are
  -- inputs. So when it is zero, which a new configuration waits for, as many answers as inputs have
  -- been passed on.
  pub steps-CountsAnswers :
      (insert : ℕ → List ℕ → List ℕ) (es : List (Event I)) (s s' : Session I)
      → s.received ≡ []
      → s.data_counter.val ≡ 0
      → steps insert es s ≡ some s'
      → length s'.received < u32_mod
      → CountsAnswers s'
  steps-CountsAnswers insert es s s' none_yet at_zero e small =
      steps-IsCounted insert es s s'
        (λ _. (omega (arith, ap length none_yet, at_zero), omega (arith, ap length none_yet))) e
        small
