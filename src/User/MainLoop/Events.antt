-- ===== src/User/MainLoop/Events.antt =====
-- server/User_Queue.hpp, `_main_loop`: each event of a change of the configuration.
use distributed_computing_fr.Prelude.{
  some_injective, ℕ, ◌+◌, ◌≤◌, ◌≡◌, refl, subst, Bool, true, false, Option, none, some,
  Option-cases, inl, inr, List, [], ◌∷◌, length, arith,
}
use distributed_computing_fr.Message.{Message, is_valid_data_for, config_output_size}
use distributed_computing_fr.User.MainLoop.Counting.{remove-length}
use distributed_computing_fr.User.MainLoop.Stopping.{resume_main-Changes}
use distributed_computing_fr.User.MainLoop.Waiting.{Stage, weight, Changes}
use distributed_computing_fr.User.MainLoop.Ending.{
  taken, waiting-ends, sending-ends, canceled-ends, result-sent,
}
use distributed_computing_fr.User.MainLoop.{
  Phase, receiving, draining, stopping, returned, Running, LoopEvent, user_sends, user_gone,
  main_resumes, result_comes, result_sent, result_failed, node_gone, loop_canceled, remove,
  loop_ends, receive_result, from_user, step, steps,
}

-- The results that come, and those that were sent to the user.
abbrev pub comes : LoopEvent → ℕ
comes (result_comes node message) = 1
comes (result_sent node) = 0
comes (result_failed node) = 0
comes (node_gone node) = 0
comes (loop_canceled node) = 0
comes (user_sends message) = 0
comes user_gone = 0
comes main_resumes = 0

abbrev pub sends : LoopEvent → ℕ
sends (result_sent node) = 1
sends (result_comes node message) = 0
sends (result_failed node) = 0
sends (node_gone node) = 0
sends (loop_canceled node) = 0
sends (user_sends message) = 0
sends user_gone = 0
sends main_resumes = 0

abbrev pub all_coming : List LoopEvent → ℕ
all_coming [] = 0
all_coming (e ∷ es) = comes e + all_coming es

abbrev pub all_sent : List LoopEvent → ℕ
all_sent [] = 0
all_sent (e ∷ es) = sends e + all_sent es

abbrev IsNext : ℕ → LoopEvent → Running → Running → Type 0
IsNext b e s s' =
    Changes b s'
    × (s'.data_counter.val + sends e ≡ s.data_counter.val)
    × (weight b s' + 1 ≤ weight (comes e + b) s)

from_user-refuses :
    (ignores : Bool) (sent : Option Message) (phase : Phase) (s s' : Running)
    → Stage phase s
    → from_user ignores sent phase s ≡ some s'
    → ⊥
unfolding from_user
from_user-refuses ignores sent receiving s s' stage e = stage
from_user-refuses ignores sent draining s s' stage e = absurd (ground arith)
from_user-refuses ignores sent stopping s s' stage e = absurd (ground arith)
from_user-refuses ignores sent (returned again) s s' stage e = absurd (ground arith)

receive_result-IsNext :
    (b node : ℕ) (message : Message) (s s' : Running)
    → Changes (1 + b) s
    → receive_result node message s ≡ some s'
    → IsNext b (result_comes node message) s s'
unfolding receive_result loop_ends
receive_result-IsNext b node message s s' (stage, counts) e =
    elim (Option-cases (remove node s.waiting)) [
      | inl nowhere ↦ absurd (ground (arith, e))
      | inr (rest, there) ↦
          let one = remove-length node s.waiting rest there in
          elim (Option-cases (config_output_size s.config)) [
            | inl bad ↦ absurd (ground (arith, e))
            | inr (size, good) ↦ elim (Option-cases (is_valid_data_for message size)) [
              | inl bad ↦ absurd (ground (arith, e))
              | inr (true, fits) ↦
                  subst (IsNext b (result_comes node message) s)
                    (some_injective (rw (there, good, fits, receive_result) at e))
                    (taken b s s.phase node rest one stage counts, omega arith, omega (arith, one))
              | inr (false, fits) ↦
                  subst (IsNext b (result_comes node message) s)
                    (some_injective (rw (there, good, fits, receive_result, loop_ends) at e))
                    (let (stage', counts', less) =
                        waiting-ends b s s.phase rest one stage
                          (counts.0, omega (arith, counts.1)) in
                      ((stage', counts'), omega arith, omega (arith, less)))
            ]
          ]
    ]

step-IsNext :
    (ignores : Bool) (b : ℕ) (ev : LoopEvent) (s s' : Running)
    → Changes (comes ev + b) s
    → step ignores ev s ≡ some s'
    → IsNext b ev s s'
unfolding step loop_ends
step-IsNext ignores b (user_sends message) s s' (stage, counts) e =
    absurd (from_user-refuses ignores (some message) s.phase s s' stage e)
step-IsNext ignores b user_gone s s' (stage, counts) e =
    absurd (from_user-refuses ignores none s.phase s s' stage e)
step-IsNext ignores b main_resumes s s' (stage, counts) e =
    let (changes, same, less) =
      resume_main-Changes b s.phase s s' refl stage (counts.0, omega (arith, counts.1)) e in
    (changes, omega (arith, same), omega (arith, less))
step-IsNext ignores b (result_comes node message) s s' h e =
    receive_result-IsNext b node message s s' h e
step-IsNext ignores b (result_sent node) s s' (stage, counts) e =
    elim (Option-cases (remove node s.sending)) [
      | inl nowhere ↦ absurd (ground (arith, e))
      | inr (rest, there) ↦
          let (stage', counts', sent, less) =
            result-sent b s s.phase node rest (remove-length node s.sending rest there) stage
              (counts.0, omega (arith, counts.1)) in
          subst (IsNext b (result_sent node) s) (some_injective (rw (there, step) at e))
            ((stage', counts'), sent, omega (arith, less))
    ]
step-IsNext ignores b (result_failed node) s s' (stage, counts) e =
    elim (Option-cases (remove node s.sending)) [
      | inl nowhere ↦ absurd (ground (arith, e))
      | inr (rest, there) ↦
          subst (IsNext b (result_failed node) s)
            (some_injective (rw (there, step, loop_ends) at e))
            (let (stage', counts', less) =
                sending-ends b s s.phase rest (remove-length node s.sending rest there) stage
                  (counts.0, omega (arith, counts.1)) in
              ((stage', counts'), omega arith, omega (arith, less)))
    ]
step-IsNext ignores b (node_gone node) s s' (stage, counts) e =
    elim (Option-cases (remove node s.waiting)) [
      | inl nowhere ↦ absurd (ground (arith, e))
      | inr (rest, there) ↦
          subst (IsNext b (node_gone node) s) (some_injective (rw (there, step, loop_ends) at e)) (
            let (stage', counts', less) =
              waiting-ends b s s.phase rest (remove-length node s.waiting rest there) stage
                (counts.0, omega (arith, counts.1)) in
            ((stage', counts'), omega arith, omega (arith, less)))
    ]
step-IsNext ignores b (loop_canceled node) s s' (stage, counts) e =
    elim (Option-cases (remove node s.canceled)) [
      | inl nowhere ↦ absurd (ground (arith, e))
      | inr (rest, there) ↦
          subst (IsNext b (loop_canceled node) s)
            (some_injective (rw (there, step, loop_ends) at e))
            (let (stage', counts', less) =
                canceled-ends b s s.phase rest (remove-length node s.canceled rest there) stage
                  (counts.0, omega (arith, counts.1)) in
              ((stage', counts'), omega arith, omega (arith, less)))
    ]

pub steps-IsEnd :
    (ignores : Bool) (es : List LoopEvent) (s s' : Running)
    → Changes (all_coming es) s
    → steps ignores es s ≡ some s'
    → Changes 0 s'
      × (s'.data_counter.val + all_sent es ≡ s.data_counter.val)
      × (weight 0 s' + length es ≤ weight (all_coming es) s)
unfolding steps
steps-IsEnd ignores [] s s' h e =
    subst
      (λ t.
        Changes 0 t × (t.data_counter.val + 0 ≡ s.data_counter.val) × (weight 0 t + 0 ≤ weight 0 s))
      (some_injective e) (h, omega arith, omega arith)
steps-IsEnd ignores (ev ∷ es) s s' h e = elim (Option-cases (step ignores ev s)) [
  | inl stops ↦ absurd (ground (arith, e))
  | inr (t, goes) ↦
      let (next, sent, less) = step-IsNext ignores (all_coming es) ev s t h goes in
      let (end, sent', less') = steps-IsEnd ignores es t s' next (rw (goes, steps) at e) in
      (end, omega (arith, sent, sent'), omega (arith, less, less'))
]
