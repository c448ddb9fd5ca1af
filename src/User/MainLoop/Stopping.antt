-- ===== src/User/MainLoop/Stopping.antt =====
-- server/User_Queue.hpp, `_main_loop`: what holds while a change of the configuration goes on.
use distributed_computing_fr.Prelude.{
  some_injective, ℕ, ◌+◌, ◌≤◌, ◌≡◌, ◌⊎◌, refl, sym, subst, ◌∙◌, true, if◌then◌else◌, some, inl, inr,
  length, length-append, arith,
}
use distributed_computing_fr.Message.{Message}
use distributed_computing_fr.Counter.{async_wait_zero}
use distributed_computing_fr.User.MainLoop.{
  Phase, receiving, draining, stopping, returned, Running, main_coroutine, stop_loops,
  change_config, resume_main,
}
use distributed_computing_fr.User.MainLoop.Waiting.{
  woken_there, nobody_there, Stage, Counts, weight, Changes, async_wait_zero-Rounds, wake-Rounds,
  wake-waits, waits_le, woken_one, nobody_le,
}

stop_loops-Changes :
    (b : ℕ) (s : Running)
    → length s.canceled ≡ 0
    → s.data_counter.val ≡ 0
    → s.receiver_counter.timer ≡ nobody_there
    → Counts b s
    → Changes b (stop_loops s)
      × ((stop_loops s).data_counter.val ≡ s.data_counter.val)
      × (weight b (stop_loops s) ≤ weight b s)
unfolding stop_loops
stop_loops-Changes b s none_stopped none_missing nobody (counted, missing) =
    let (same, round) = async_wait_zero-Rounds s.receiver_counter nobody in
    elim round [
      | inl (done, zeroed, still) ↦ rw done (
        (
          (none_missing, omega (arith, counted, zeroed, length-append s.canceled s.waiting)),
          (omega (arith, same, counted, zeroed, length-append s.canceled s.waiting), missing),
        ),
        refl,
        omega (arith, same, nobody_le (async_wait_zero main_coroutine s.receiver_counter).1 still),
      )
      | inr (later, positive, waits) ↦ rw later (
        (
          (refl, none_missing, inl (waits, omega (arith, same, positive))),
          (omega (arith, same, counted, length-append s.canceled s.waiting), missing),
        ),
        refl,
        omega (arith, same, waits_le (async_wait_zero main_coroutine s.receiver_counter).1 waits),
      )
    ]

-- The main loop waits for the user, with `b` results more than those that are being sent missing.
abbrev pub IsReady : ℕ → Running → Type 0
IsReady b s =
    (s.phase ≡ receiving)
    × (length s.canceled ≡ 0)
    × (s.data_counter.timer ≡ nobody_there)
    × (s.receiver_counter.timer ≡ nobody_there)
    × Counts b s

-- The start of a change.
pub change_config-Changes :
    (b : ℕ) (message : Message) (s : Running)
    → IsReady b s
    → Changes b (change_config message s)
      × ((change_config message s).data_counter.val ≡ s.data_counter.val)
      × (weight b (change_config message s) ≤ weight b s)
unfolding change_config
change_config-Changes b message s (here, none_stopped, alone, nobody, (counted, missing)) =
    let k' = (async_wait_zero main_coroutine s.data_counter).1 in
    let waited : Running = record s { config = message; data_counter = k'; phase = draining } in
    let (same, round) = async_wait_zero-Rounds s.data_counter alone in
    elim round [
      | inl (done, zeroed, still) ↦ rw done (
          let (changes, kept, less) =
            stop_loops-Changes b waited none_stopped (same ∙ zeroed) nobody
              (counted, omega (arith, missing, same)) in
          (changes, kept ∙ same, omega (arith, less, nobody_le k' still)))
      | inr (later, positive, waits) ↦ rw later (
        (
          (none_stopped, inl (waits, omega (arith, positive, same)), nobody),
          (counted, omega (arith, missing, same)),
        ),
        same,
        omega (arith, waits_le k' waits),
      )
    ]

abbrev pub IsResumed : ℕ → Running → Running → Type 0
IsResumed b s s' =
    Changes b s' × (s'.data_counter.val ≡ s.data_counter.val) × (weight b s' + 1 ≤ weight b s)

-- The main loop runs on.
pub resume_main-Changes :
    (b : ℕ) (phase : Phase) (s s' : Running)
    → s.phase ≡ phase
    → Stage phase s
    → Counts b s
    → resume_main phase s ≡ some s'
    → IsResumed b s s'
unfolding resume_main
resume_main-Changes b receiving s s' here stage counts e = absurd stage
resume_main-Changes b (returned again) s s' here stage counts e = absurd (ground arith)
resume_main-Changes b draining s s' here (none_stopped, inl (waits, _), nobody) counts e =
    absurd (ground (arith, rw (wake-waits s.data_counter waits) at e))
resume_main-Changes b draining s s' here (none_stopped, inr woken, nobody) (counted, missing) e =
    let (done, k', ran, (same, round)) = wake-Rounds s.data_counter woken in
    let waited : Running = record s { data_counter = k' } in
    elim round [
      | inl (is_done, zeroed, still) ↦
          subst (IsResumed b s) (some_injective (rw (ran, is_done) at e)) (
            let (changes, kept, less) =
              stop_loops-Changes b waited none_stopped (same ∙ zeroed) nobody
                (counted, omega (arith, missing, same)) in
            (
              changes,
              kept ∙ same,
              omega (arith, less, woken_one s.data_counter woken, nobody_le k' still),
            ))
      | inr (later, positive, waits) ↦
          subst (IsResumed b s) (some_injective (rw (ran, later) at e)) (
            (
              subst (λ p. Stage p waited) (sym here)
                  (none_stopped, inl (waits, omega (arith, positive, same)), nobody),
              (counted, omega (arith, missing, same)),
            ),
            same,
            omega (arith, woken_one s.data_counter woken, waits_le k' waits),
          )
    ]
resume_main-Changes b stopping s s' here (none_waits, none_missing, inl (waits, _)) counts e =
    absurd (ground (arith, rw (wake-waits s.receiver_counter waits) at e))
resume_main-Changes b stopping s s' here (none_waits, none_missing, inr woken) (counted, missing)
      e =
    let (done, k', ran, (same, round)) = wake-Rounds s.receiver_counter woken in
    elim round [
      | inl (is_done, zeroed, still) ↦
          subst (IsResumed b s) (some_injective (rw (ran, is_done) at e)) (
            ((none_missing, omega (arith, counted, zeroed)), (same ∙ counted, missing)),
            refl,
            omega (arith, same, woken_one s.receiver_counter woken, nobody_le k' still),
          )
      | inr (later, positive, waits) ↦
          subst (IsResumed b s) (some_injective (rw (ran, later) at e)) (
            (
              (none_waits, none_missing, inl (waits, omega (arith, positive, same))),
              (same ∙ counted, missing),
            ),
            refl,
            omega (arith, same, woken_one s.receiver_counter woken, waits_le k' waits),
          )
    ]

-- In the phases of a change the next step is the program's own, unless the main loop waits for a result.
pub resumes :
    (s : Running)
    → (s.phase ≡ draining) × (s.data_counter.timer ≡ woken_there)
      ⊎ ((s.phase ≡ stopping) × (s.receiver_counter.timer ≡ woken_there))
    → (s' : Running) × (resume_main s.phase s ≡ some s')
unfolding resume_main
resumes s (inl (here, woken)) =
    let (done, k', ran, _) = wake-Rounds s.data_counter woken in
    let waited : Running = record s { data_counter = k' } in
    (if done then stop_loops waited else waited, rw (here, ran) refl)
resumes s (inr (here, woken)) =
    let (done, k', ran, _) = wake-Rounds s.receiver_counter woken in
    (
      record s { receiver_counter = k'; phase = if done then returned true else stopping },
      rw (here, ran) refl,
    )
