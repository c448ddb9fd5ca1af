-- ===== src/User/MainLoop/Counting.antt =====
-- server/User_Queue.hpp, `_main_loop`: the counter of the receiver loops counts them, whatever the main
-- loop does.
use distributed_computing_fr.Prelude.{
  some_injective, ℕ, suc, ◌+◌, ◌-◌, ◌≡◌, if◌then◌else◌, refl, sym, ap, subst, ◌∙◌, Bool, true,
  false, Bool-cases, Option, none, some, Option-cases, inl, inr, List, [], ◌∷◌, length,
  length-append, arith,
}
use distributed_computing_fr.Message.{Message}
use distributed_computing_fr.Counter.{Counter, incr, async_wait_zero, wake}
use distributed_computing_fr.User.Answers.{decr-val}
use distributed_computing_fr.User.Protocol.{Action, dispatch, reconfigure, reject, main_action}
use distributed_computing_fr.User.MainLoop.{
  Phase, receiving, draining, stopping, returned, Running, remove, main_coroutine, stop_loops,
  change_config, handle_message, resume_main, loop_ends, from_user,
}

pub remove-length :
    (node : ℕ) (ns rest : List ℕ) → remove node ns ≡ some rest → length ns ≡ suc (length rest)
unfolding remove
remove-length node [] rest e = absurd (ground arith)
remove-length node (n ∷ ns) rest e = elim (Option-cases (remove node ns)) [
  | inl nowhere ↦ ground arith
  | inr (rest', there) ↦ ground (arith, remove-length node ns rest' there)
]

wait-val :
    (c : ℕ) (k : Counter)
    → ((async_wait_zero c k).1.val ≡ k.val) × ((async_wait_zero c k).0 ≡ true → k.val ≡ 0)
unfolding async_wait_zero
wait-val c k = (ground arith, λ h. ground arith)

pub wake-val :
    (k k' : Counter) (c : ℕ) (done : Bool)
    → wake k ≡ some (c, done, k')
    → (k'.val ≡ k.val) × (done ≡ true → k.val ≡ 0)
unfolding wake async_wait_zero
wake-val k k' c done e = (ground arith, λ h. ground arith)

-- The receiver counter counts the loops, and is zero when the main loop has returned after a change
-- of the configuration.
abbrev pub IsTracked : Running → Type 0
IsTracked s =
    (s.receiver_counter.val ≡ length s.waiting + length s.sending + length s.canceled)
    × (s.phase ≡ returned true → s.receiver_counter.val ≡ 0)

done_of : {b : Bool} → (if b then returned true else stopping) ≡ returned true → b ≡ true
done_of {b = true} h = refl
done_of {b = false} h = absurd (ground arith)

stop_loops-IsTracked : (s : Running) → IsTracked s → IsTracked (stop_loops s)
unfolding stop_loops
stop_loops-IsTracked s (counted, at_end) =
    let (same, zero_if) = wait-val main_coroutine s.receiver_counter in
    (
      omega (arith, counted, same, length-append s.canceled s.waiting),
      λ h. same ∙ zero_if (done_of h),
    )

loop_ends-val : (s : Running) → (loop_ends s).receiver_counter.val ≡ s.receiver_counter.val - 1
unfolding loop_ends
loop_ends-val s = decr-val s.receiver_counter

change_config-IsTracked :
    (message : Message) (s : Running)
    → s.phase ≡ receiving
    → IsTracked s
    → IsTracked (change_config message s)
unfolding change_config
change_config-IsTracked message s here (counted, at_end) =
    elim (Bool-cases (async_wait_zero main_coroutine s.data_counter).0) [
      | inl at_once ↦
          rw (at_once, change_config)
            (stop_loops-IsTracked
              (record s {
                config = message;
                data_counter = (async_wait_zero main_coroutine s.data_counter).1;
                phase = draining;
              })
              (counted, λ h. absurd (ground arith)))
      | inr later ↦ rw (later, change_config) (counted, λ h. absurd (ground arith))
    ]

handle_message-IsTracked :
    (ignores : Bool) (message : Message) (s s' : Running)
    → s.phase ≡ receiving
    → IsTracked s
    → handle_message ignores message s ≡ some s'
    → IsTracked s'
unfolding handle_message
handle_message-IsTracked ignores message s s' here h e =
    elim (Option-cases (main_action s.config message)) [
      | inl bad ↦ absurd (ground (arith, e))
      | inr (action, good) ↦ go action ignores (rw (good, handle_message) at e)
    ]
  where
    go :
        (action : Action) (ignores : Bool)
        → some (elim action [
          | dispatch ↦ record s { data_counter = incr s.data_counter }
          | reconfigure ↦ change_config message s
          | reject ↦ if ignores then s else record s { phase = returned false }
        ])
          ≡ some s'
        → IsTracked s'
    go dispatch ignores e' = subst IsTracked (some_injective e') h
    go reconfigure ignores e' =
        subst IsTracked (some_injective e') (change_config-IsTracked message s here h)
    go reject true e' = subst IsTracked (some_injective e') h
    go reject false e' = subst IsTracked (some_injective e') (h.0, λ g. absurd (ground arith))

pub from_user-IsTracked :
    (ignores : Bool) (sent : Option Message) (phase : Phase) (s s' : Running)
    → s.phase ≡ phase
    → IsTracked s
    → from_user ignores sent phase s ≡ some s'
    → IsTracked s'
unfolding from_user
from_user-IsTracked ignores (some message) receiving s s' here h e =
    handle_message-IsTracked ignores message s s' here h e
from_user-IsTracked ignores none receiving s s' here h e =
    subst IsTracked (some_injective e) (h.0, λ g. absurd (ground arith))
from_user-IsTracked ignores sent draining s s' here h e = absurd (ground arith)
from_user-IsTracked ignores sent stopping s s' here h e = absurd (ground arith)
from_user-IsTracked ignores sent (returned again) s s' here h e = absurd (ground arith)

pub resume_main-IsTracked :
    (phase : Phase) (s s' : Running)
    → s.phase ≡ phase
    → IsTracked s
    → resume_main phase s ≡ some s'
    → IsTracked s'
unfolding resume_main
resume_main-IsTracked receiving s s' here h e = absurd (ground arith)
resume_main-IsTracked (returned again) s s' here h e = absurd (ground arith)
resume_main-IsTracked draining s s' here h e = elim (Option-cases (wake s.data_counter)) [
  | inl nobody ↦ absurd (ground (arith, e))
  | inr ((c, true, counter), woken) ↦
      subst IsTracked (some_injective (rw (woken, resume_main) at e))
        (stop_loops-IsTracked (record s { data_counter = counter }) h)
  | inr ((c, false, counter), woken) ↦
      subst IsTracked (some_injective (rw (woken, resume_main) at e)) h
]
resume_main-IsTracked stopping s s' here h e = elim (Option-cases (wake s.receiver_counter)) [
  | inl nobody ↦ absurd (ground (arith, e))
  | inr ((c, done, counter), woken) ↦
      let (same, zero_if) = wake-val s.receiver_counter counter c done woken in
      subst IsTracked (some_injective (rw (woken, resume_main) at e))
        (same ∙ h.0, λ g. same ∙ zero_if (done_of g))
]

-- A loop that was in one of the lists ends.
pub loop_ends-IsTracked :
    (s s' : Running)
    → s'.receiver_counter ≡ s.receiver_counter
    → s'.phase ≡ s.phase
    → length s.waiting + length s.sending + length s.canceled
      ≡ suc (length s'.waiting + length s'.sending + length s'.canceled)
    → IsTracked s
    → IsTracked (loop_ends s')
unfolding loop_ends
loop_ends-IsTracked s s' same_counter same_phase one_less (counted, at_end) =
    let less = decr-val s'.receiver_counter in
    let same_val = ap (λ (k : Counter). k.val) same_counter in
    (
      omega (arith, counted, less, same_val, one_less),
      λ g. omega (arith, less, same_val, at_end (sym same_phase ∙ g)),
    )
