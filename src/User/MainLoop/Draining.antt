-- ===== src/User/MainLoop/Draining.antt =====
-- server/User_Queue.hpp, `_main_loop`: the wait for the data counter after a new configuration, which
-- the receiver loops test the results against from then on.
use distributed_computing_fr.Prelude.{
  some_injective, ℕ, ◌<◌, ◌≡◌, refl, sym, ap, subst, ◌∙◌, Bool, false, none, some, Bool-cases,
  Option-cases, inl, inr, List, [], ◌∷◌, arith,
}
use distributed_computing_fr.Message.{Message, is_valid_data_for, config_output_size}
use distributed_computing_fr.Counter.{wake}
use distributed_computing_fr.User.MainLoop.{
  draining, Running, LoopEvent, user_sends, user_gone, main_resumes, result_comes, result_sent,
  result_failed, node_gone, loop_canceled, remove, resume_main, loop_ends, receive_result,
  from_user, step, steps,
}
use distributed_computing_fr.User.MainLoop.Counting.{wake-val}

-- Every result that comes is of the wrong size for this output size.
abbrev pub AllStale : ℕ → List LoopEvent → Type 0
AllStale size [] = Unit
AllStale size (result_comes node message ∷ es) =
    (is_valid_data_for message size ≡ some false) × AllStale size es
AllStale size (user_sends message ∷ es) = AllStale size es
AllStale size (user_gone ∷ es) = AllStale size es
AllStale size (main_resumes ∷ es) = AllStale size es
AllStale size (result_sent node ∷ es) = AllStale size es
AllStale size (result_failed node ∷ es) = AllStale size es
AllStale size (node_gone node ∷ es) = AllStale size es
AllStale size (loop_canceled node ∷ es) = AllStale size es

-- The main loop waits for the data counter, and no result is on its way to the user.
abbrev pub IsStalled : ℕ → Running → Type 0
IsStalled size s =
    (s.phase ≡ draining)
    × (0 < s.data_counter.val)
    × (s.sending ≡ [])
    × (config_output_size s.config ≡ some size)

resume_main-IsStalled :
    (size : ℕ) (s s' : Running)
    → IsStalled size s
    → resume_main draining s ≡ some s'
    → IsStalled size s'
unfolding resume_main
resume_main-IsStalled size s s' h e = elim (Option-cases (wake s.data_counter)) [
  | inl nobody ↦ absurd (ground (arith, e))
  | inr ((c, done, counter), woken) ↦
      let (same, zero_if) = wake-val s.data_counter counter c done woken in
      elim (Bool-cases done) [
        | inl yes_done ↦ absurd (omega (arith, zero_if yes_done, h.1))
        | inr not_done ↦
            subst (IsStalled size) (some_injective (rw (woken, not_done, resume_main) at e))
              (h.0, omega (arith, same, h.1), h.2, h.3)
      ]
]

receive_result-IsStalled :
    (size node : ℕ) (message : Message) (s s' : Running)
    → IsStalled size s
    → is_valid_data_for message size ≡ some false
    → receive_result node message s ≡ some s'
    → IsStalled size s'
unfolding receive_result loop_ends
receive_result-IsStalled size node message s s' h stale e =
    elim (Option-cases (remove node s.waiting)) [
      | inl nowhere ↦ absurd (ground (arith, e))
      | inr (rest, there) ↦
          subst (IsStalled size)
            (some_injective (rw (there, h.3, stale, receive_result, loop_ends) at e)) h
    ]

-- No result is on its way to the user.
none_sending : (node : ℕ) (s : Running) → s.sending ≡ [] → remove node s.sending ≡ none
unfolding remove
none_sending node s idle = rw idle refl

step-IsStalled :
    (ignores : Bool) (size : ℕ) (ev : LoopEvent) (s s' : Running)
    → IsStalled size s
    → AllStale size (ev ∷ [])
    → step ignores ev s ≡ some s'
    → IsStalled size s'
unfolding step from_user loop_ends
step-IsStalled ignores size (user_sends message) s s' h stale e =
    absurd (ground (arith, rw h.0 at e))
step-IsStalled ignores size user_gone s s' h stale e = absurd (ground (arith, rw h.0 at e))
step-IsStalled ignores size main_resumes s s' h stale e =
    resume_main-IsStalled size s s' h (ap (λ p. resume_main p s) (sym h.0) ∙ e)
step-IsStalled ignores size (result_comes node message) s s' h stale e =
    receive_result-IsStalled size node message s s' h stale.0 e
step-IsStalled ignores size (result_sent node) s s' h stale e =
    absurd (ground (arith, rw (none_sending node s h.2) at e))
step-IsStalled ignores size (result_failed node) s s' h stale e =
    absurd (ground (arith, rw (none_sending node s h.2) at e))
step-IsStalled ignores size (node_gone node) s s' h stale e =
    elim (Option-cases (remove node s.waiting)) [
      | inl nowhere ↦ absurd (ground (arith, e))
      | inr (rest, there) ↦
          subst (IsStalled size) (some_injective (rw (there, step, loop_ends) at e)) h
    ]
step-IsStalled ignores size (loop_canceled node) s s' h stale e =
    elim (Option-cases (remove node s.canceled)) [
      | inl nowhere ↦ absurd (ground (arith, e))
      | inr (rest, there) ↦
          subst (IsStalled size) (some_injective (rw (there, step, loop_ends) at e)) h
    ]

AllStale-head :
    (size : ℕ) (ev : LoopEvent) (es : List LoopEvent)
    → AllStale size (ev ∷ es)
    → AllStale size (ev ∷ []) × AllStale size es
AllStale-head size (result_comes node message) es (stale, later) = ((stale, tt), later)
AllStale-head size (user_sends message) es later = (tt, later)
AllStale-head size user_gone es later = (tt, later)
AllStale-head size main_resumes es later = (tt, later)
AllStale-head size (result_sent node) es later = (tt, later)
AllStale-head size (result_failed node) es later = (tt, later)
AllStale-head size (node_gone node) es later = (tt, later)
AllStale-head size (loop_canceled node) es later = (tt, later)

-- A change of the configuration that changes the output size can wait for ever: while the main loop
-- waits for the data counter, which is not zero, and no result is on its way to the user, results of
-- a wrong size for the new configuration never end the wait, whatever else happens: in every such run
-- the main loop waits on, and the counter is not zero.
pub steps-IsStalled :
    (ignores : Bool) (size : ℕ) (es : List LoopEvent) (s s' : Running)
    → IsStalled size s
    → AllStale size es
    → steps ignores es s ≡ some s'
    → IsStalled size s'
unfolding steps
steps-IsStalled ignores size [] s s' h stale e = subst (IsStalled size) (some_injective e) h
steps-IsStalled ignores size (ev ∷ es) s s' h stale e = elim (Option-cases (step ignores ev s)) [
  | inl stops ↦ absurd (ground (arith, e))
  | inr (t, goes) ↦
      let (now, later) = AllStale-head size ev es stale in
      steps-IsStalled ignores size es t s' (step-IsStalled ignores size ev s t h now goes) later
        (rw (goes, steps) at e)
]
