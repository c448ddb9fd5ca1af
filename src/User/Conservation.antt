-- ===== src/User/Conservation.antt =====
-- server/User_Queue.hpp and server/User_Stack.hpp: no input and no node is lost or doubled.
use distributed_computing_fr.Prelude.{
  count, one_if, some_injective, ℕ, ◌+◌, ◌≡◌, refl, sym, ap, subst, ◌∙◌, Bool, true, some, List, [],
  ◌∷◌, arith, Option-cases, inl, inr,
}
use distributed_computing_fr.Container.{Resumed, idle, got, undefined, async_pop, resume}
use distributed_computing_fr.Container.Order.{push-items, popped-some, waits-none, resume-got}
use distributed_computing_fr.Counter.{incr}
use distributed_computing_fr.User.{
  Session, take_out, dispatch_input, receive_input, resume_dispatch, input_sent, send_failed,
  answer, Event, input_comes, dispatch_resumes, answer_comes, node_took, node_failed, step, steps,
}
use distributed_computing_fr.Container.Bag.{Keeps}
use distributed_computing_fr.User.Counting.{open_inputs, live_nodes, take_out-count}

module _ {I : Type 0} where
  -- What a dispatch of an input does to what is counted.
  record Dispatches (i : I) (s s' : Session I) : Type 0 where
    opened : (p : I → Bool) → open_inputs p s' ≡ one_if (p i) + open_inputs p s
    live : (q : ℕ → Bool) → live_nodes q s' ≡ live_nodes q s
    same_received : s'.received ≡ s.received
    same_taken : s'.taken ≡ s.taken
    same_failed : s'.failed ≡ s.failed

  dispatch_input-Dispatches :
      (c : ℕ) (i : I) (s : Session I) → Dispatches i s (dispatch_input c i s)
  unfolding dispatch_input
  dispatch_input-Dispatches c i s = elim (Option-cases (async_pop c s.nodes).0) [
    | inl nothing ↦
        let (was, now, waiting, woken) =
          waits-none c s.nodes (async_pop c s.nodes).1
            (ap (λ o. (o, (async_pop c s.nodes).1)) nothing) in
        rw (nothing, dispatch_input)
          (record {
            opened = λ p. omega arith;
            live = λ q. omega (arith, ap (count q) was, ap (count q) now);
            same_received = refl;
            same_taken = refl;
            same_failed = refl;
          })
    | inr (node, there) ↦
        let (items, waiting, woken) =
          popped-some c node s.nodes (async_pop c s.nodes).1
            (ap (λ o. (o, (async_pop c s.nodes).1)) there) in
        rw (there, dispatch_input)
          (record {
            opened = λ p. omega arith;
            live = λ q. omega (arith, ap (count q) items);
            same_received = refl;
            same_taken = refl;
            same_failed = refl;
          })
  ]

  -- Every input that came waits for a node, is on its way to one or was taken by one, and is in one
  -- of these places as often as it came; every node is ready, is sent an input or has failed.
  pub record IsConserved (start : List ℕ) (s : Session I) : Type 0 where
    pub input : (p : I → Bool) → count p s.received ≡ open_inputs p s + count p s.taken
    pub node : (q : ℕ → Bool) → count q start ≡ live_nodes q s + count q s.failed

  receive_input-IsConserved :
      (start : List ℕ) (c : ℕ) (i : I) (s : Session I)
      → IsConserved start s
      → IsConserved start (receive_input c i s)
  unfolding receive_input
  receive_input-IsConserved start c i s h =
      let d =
        dispatch_input-Dispatches c i
          (record s { data_counter = incr s.data_counter; received = i ∷ s.received }) in
      record {
        input = λ p.
            omega (
              arith,
              h.input p,
              d.opened p,
              ap (count p) d.same_received,
              ap (count p) d.same_taken,
            );
        node = λ q. omega (arith, h.node q, d.live q, ap (count q) d.same_failed);
      }

  resume_dispatch-IsConserved :
      (start : List ℕ) (s s' : Session I)
      → IsConserved start s
      → resume_dispatch s ≡ some s'
      → IsConserved start s'
  unfolding resume_dispatch
  resume_dispatch-IsConserved start s s' h e = go (resume s.nodes) refl
    where
      go : (r : Resumed ℕ) → resume s.nodes ≡ r → IsConserved start s'
      go idle at_once = absurd (ground (arith, e))
      go (undefined c) at_once = absurd (ground (arith, e))
      go (got c node nodes') at_once = elim (Option-cases (take_out c s.awaiting)) [
        | inl nowhere ↦ absurd (ground (arith, e))
        | inr ((input, rest), there) ↦
            let (items, waiting, woken) = resume-got c node s.nodes nodes' at_once in
            subst (IsConserved start) (some_injective (rw (at_once, there, resume_dispatch) at e))
              (record {
                input = λ p. omega (
                  arith,
                  h.input p,
                  (take_out-count p (λ _. true) c s.awaiting rest input there).0,
                );
                node = λ q. omega (arith, h.node q, ap (count q) items);
              })
      ]

  input_sent-IsConserved :
      (insert : ℕ → List ℕ → List ℕ) (start : List ℕ) (node : ℕ) (s s' : Session I)
      → Keeps insert
      → IsConserved start s
      → input_sent insert node s ≡ some s'
      → IsConserved start s'
  unfolding input_sent
  input_sent-IsConserved insert start node s s' keeps h e =
      elim (Option-cases (take_out node s.sending)) [
        | inl nowhere ↦ absurd (ground (arith, e))
        | inr ((input, rest), there) ↦
            subst (IsConserved start) (some_injective (rw (there, input_sent) at e)) (record {
              input = λ p. omega (
                arith,
                h.input p,
                (take_out-count p (λ _. true) node s.sending rest input there).0,
              );
              node = λ q. omega (
                arith,
                h.node q,
                (take_out-count (λ _. true) q node s.sending rest input there).1,
                ap (count q) (push-items insert node s.nodes),
                keeps q node s.nodes.items,
              );
            })
      ]

  send_failed-IsConserved :
      (start : List ℕ) (c node : ℕ) (s s' : Session I)
      → IsConserved start s
      → send_failed c node s ≡ some s'
      → IsConserved start s'
  unfolding send_failed
  send_failed-IsConserved start c node s s' h e = elim (Option-cases (take_out node s.sending)) [
    | inl nowhere ↦ absurd (ground (arith, e))
    | inr ((input, rest), there) ↦
        let d =
          dispatch_input-Dispatches c input
            (record s { sending = rest; failed = node ∷ s.failed }) in
        subst (IsConserved start) (some_injective (rw (there, send_failed) at e)) (record {
          input = λ p. omega (
            arith,
            h.input p,
            (take_out-count p (λ _. true) node s.sending rest input there).0,
            d.opened p,
            ap (count p) d.same_received,
            ap (count p) d.same_taken,
          );
          node = λ q. omega (
            arith,
            h.node q,
            (take_out-count (λ _. true) q node s.sending rest input there).1,
            d.live q,
            ap (count q) d.same_failed,
          );
        })
  ]

  answer-IsConserved :
      (start : List ℕ) (s : Session I) → IsConserved start s → IsConserved start (answer s)
  unfolding answer
  answer-IsConserved start s h = record { input = h.input; node = h.node }

  step-IsConserved :
      (insert : ℕ → List ℕ → List ℕ) (start : List ℕ) (e : Event I) (s s' : Session I)
      → Keeps insert
      → IsConserved start s
      → step insert e s ≡ some s'
      → IsConserved start s'
  unfolding step
  step-IsConserved insert start (input_comes c i) s s' keeps h e =
      subst (IsConserved start) (some_injective e) (receive_input-IsConserved start c i s h)
  step-IsConserved insert start dispatch_resumes s s' keeps h e =
      resume_dispatch-IsConserved start s s' h e
  step-IsConserved insert start answer_comes s s' keeps h e =
      subst (IsConserved start) (some_injective e) (answer-IsConserved start s h)
  step-IsConserved insert start (node_took node) s s' keeps h e =
      input_sent-IsConserved insert start node s s' keeps h e
  step-IsConserved insert start (node_failed c node) s s' keeps h e =
      send_failed-IsConserved start c node s s' h e

  -- In every run of a session, with a queue or a stack of nodes, whatever sends succeed or fail and
  -- in whatever order coroutines run on, each input that came is in exactly one place as often as it
  -- came: it waits for a node, is on its way to one or was taken by one; and each node is ready, is
  -- being sent an input or has failed.
  pub steps-IsConserved :
      (insert : ℕ → List ℕ → List ℕ) (start : List ℕ) (es : List (Event I)) (s s' : Session I)
      → Keeps insert
      → IsConserved start s
      → steps insert es s ≡ some s'
      → IsConserved start s'
  unfolding steps
  steps-IsConserved insert start [] s s' keeps h e = subst (IsConserved start) (some_injective e) h
  steps-IsConserved insert start (ev ∷ es) s s' keeps h e = elim (Option-cases (step insert ev s)) [
    | inl stops ↦ absurd (ground (arith, e))
    | inr (t, goes) ↦
        steps-IsConserved insert start es t s' keeps
          (step-IsConserved insert start ev s t keeps h goes) (sym (rw (goes, steps) refl) ∙ e)
  ]
