-- ===== src/User/MainLoop/Changing.antt =====
-- server/User_Queue.hpp, `_main_loop`: a change of the configuration in every order of events.
use distributed_computing_fr.Prelude.{
  ℕ, ◌+◌, ◌*◌, ◌≤◌, ◌<◌, ◌≡◌, ◌⊎◌, ◌==◌, refl, ◌∙◌, Bool, true, false, some, inl, inr, List, [],
  ◌∷◌, length, arith,
}
use distributed_computing_fr.Message.{Message}
use distributed_computing_fr.User.MainLoop.Stopping.{IsReady, change_config-Changes, resumes}
use distributed_computing_fr.User.MainLoop.Waiting.{Stage, Counts, nobody_le}
use distributed_computing_fr.User.Protocol.{reconfigure, main_action}
use distributed_computing_fr.User.MainLoop.Ending.{answered}
use distributed_computing_fr.User.MainLoop.{
  Phase, receiving, draining, stopping, returned, Running, LoopEvent, user_sends, user_gone,
  main_resumes, result_comes, result_sent, result_failed, node_gone, loop_canceled, remove,
  loop_ends, resume_main, change_config, handle_message, from_user, step, steps,
}
use distributed_computing_fr.User.MainLoop.Events.{all_coming, all_sent, steps-IsEnd}

-- The program's own next events: the main loop or a stopped loop runs on, or a result was sent.
abbrev pub IsOwn : LoopEvent → Type 0
IsOwn main_resumes = Unit {0}
IsOwn (loop_canceled node) = Unit {0}
IsOwn (result_sent node) = Unit {0}
IsOwn (result_comes node message) = ⊥
IsOwn (result_failed node) = ⊥
IsOwn (node_gone node) = ⊥
IsOwn (user_sends message) = ⊥
IsOwn user_gone = ⊥

abbrev pub GoesOn : Bool → Running → Type 0
GoesOn ignores s = (e : LoopEvent) × IsOwn e × (s' : Running) × (step ignores e s ≡ some s')

-- The main loop has returned and no loop is left; or the program goes on by itself; or the main loop
-- waits for results that are missing and that no loop is sending.
abbrev pub Progresses : Bool → Running → Type 0
Progresses ignores s =
    ((s.phase ≡ returned true) × (length s.waiting + length s.sending + length s.canceled ≡ 0))
    ⊎ GoesOn ignores s
    ⊎ ((s.phase ≡ draining) × (0 < s.data_counter.val) × (s.sending ≡ []))

remove_first : (node : ℕ) (ns : List ℕ) → remove node (node ∷ ns) ≡ some ns
unfolding remove
remove_first node ns = rw itself refl
  where
    itself : (node == node) ≡ true
    itself = ground arith

canceled-GoesOn :
    (ignores : Bool) (s : Running) (ns : List ℕ)
    → s.canceled ≡ ns
    → 0 < length ns
    → GoesOn ignores s
unfolding step
canceled-GoesOn ignores s [] e h = absurd (omega (arith, h))
canceled-GoesOn ignores s (n ∷ ns) e h =
    (loop_canceled n, tt, loop_ends (record s { canceled = ns }), rw (e, remove_first n ns) refl)

sending-Progresses :
    (ignores : Bool) (s : Running) (ns : List ℕ)
    → s.sending ≡ ns
    → s.phase ≡ draining
    → 0 < s.data_counter.val
    → Progresses ignores s
unfolding step
sending-Progresses ignores s [] e here missing = inr (inr (here, missing, e))
sending-Progresses ignores s (n ∷ ns) e here missing =
    inr (inl (result_sent n, tt, answered n ns s, rw (e, remove_first n ns) refl))

resumes-GoesOn :
    (ignores : Bool) (s : Running)
    → (s' : Running) × (resume_main s.phase s ≡ some s')
    → GoesOn ignores s
unfolding step
resumes-GoesOn ignores s (s', e) = (main_resumes, tt, s', e)

Changes-Progresses :
    (ignores : Bool) (phase : Phase) (s : Running)
    → s.phase ≡ phase
    → Stage phase s
    → Counts 0 s
    → Progresses ignores s × ((s.phase ≡ draining) ⊎ (s.data_counter.val ≡ 0))
Changes-Progresses ignores receiving s here stage counts = absurd stage
Changes-Progresses ignores (returned false) s here stage counts = absurd stage
Changes-Progresses ignores (returned true) s here (none_missing, none_left) counts =
    (inl (here, none_left), inr none_missing)
Changes-Progresses ignores draining s here (none_stopped, inl (waits, missing), nobody) counts =
    (sending-Progresses ignores s s.sending refl here missing, inl here)
Changes-Progresses ignores draining s here (none_stopped, inr woken, nobody) counts =
    (inr (inl (resumes-GoesOn ignores s (resumes s (inl (here, woken))))), inl here)
Changes-Progresses ignores stopping s here (none_waits, none_missing, inl (waits, some_left))
      (counted, missing) =
    (
      inr (
          inl (
            canceled-GoesOn ignores s s.canceled refl
              (omega (arith, some_left, counted, none_waits, none_missing, missing)))),
      inr none_missing,
    )
Changes-Progresses ignores stopping s here (none_waits, none_missing, inr woken) counts =
    (inr (inl (resumes-GoesOn ignores s (resumes s (inr (here, woken))))), inr none_missing)

-- A new configuration begins a change.
steps-begin :
    (ignores : Bool) (message : Message) (es : List LoopEvent) (s s' : Running)
    → s.phase ≡ receiving
    → main_action s.config message ≡ some reconfigure
    → steps ignores (user_sends message ∷ es) s ≡ some s'
    → steps ignores es (change_config message s) ≡ some s'
unfolding steps step from_user handle_message change_config
steps-begin ignores message es s s' here action e = rw (here, action) at e

-- The main loop waits for the user, and its counters count the receiver loops and, with the results that
-- are being sent, at least the results that are still to come. Then in every run that begins with a new
-- configuration and goes on in any order of events, results that are refused or cannot be sent and nodes
-- that are lost included: the data counter goes down by the results that are sent; the run has at most
-- three events for each result that comes, two for each that is being sent and two for each loop, so
-- that it ends; the main loop leaves the wait for the data only when no result is missing; and at the
-- end it has returned and no receiver loop is left, or the program goes on by itself, or the main
-- loop waits for results that are missing and that no loop is sending.
pub steps-Changes :
    (ignores : Bool) (message : Message) (es : List LoopEvent) (s s' : Running)
    → IsReady (all_coming es) s
    → main_action s.config message ≡ some reconfigure
    → steps ignores (user_sends message ∷ es) s ≡ some s'
    → (s'.data_counter.val + all_sent es ≡ s.data_counter.val)
      × (length es ≤ 3 * all_coming es + 2 * length s.sending + 2 * s.receiver_counter.val)
      × ((s'.phase ≡ draining) ⊎ (s'.data_counter.val ≡ 0))
      × Progresses ignores s'
steps-Changes ignores message es s s' ready action e =
    let (changes, same, less) = change_config-Changes (all_coming es) message s ready in
    let ((stage, counts), sent, bounded) =
      steps-IsEnd ignores es (change_config message s) s' changes
        (steps-begin ignores message es s s' ready.0 action e) in
    let (progresses, left) = Changes-Progresses ignores s'.phase s' refl stage counts in
    let (_, _, alone, nobody, _) = ready in
    (
      sent ∙ same,
      omega (
        arith,
        bounded,
        less,
        nobody_le s.data_counter alone,
        nobody_le s.receiver_counter nobody,
      ),
      left,
      progresses,
    )
