-- ===== src/SafeQ/Progress.antt =====
-- utils/include/safeQ.hpp: under the mutex no access is undefined, and a thread waits only for one
-- that can go on.
use distributed_computing_fr.Prelude.{
  ℕ, ◌≡◌, ◌≢◌, ◌⊎◌, inl, inr, refl, ap, ◌∙◌, Bool, true, none, some, Option-cases, List, [], arith,
}
use distributed_computing_fr.SafeQ.{
  Operation, Result, Point, leaving, Place, outside, locking, inside, State, Step, put, entry,
  blocked, moved, lock, leave, access, go_on, proceed, step_from, advance, Run,
}
use distributed_computing_fr.SafeQ.Invariant.{access-some, Reaches}
use distributed_computing_fr.SafeQ.Linear.{IsGuarded, Run-IsLinear}

module _ {T : Type 0} where
  -- A step that is defined and not blocked.
  abbrev pub CanMove : Step T → Type 0
  CanMove step = (ended : List (Operation T × Result T)) × (s : State T) × (step ≡ moved ended s)

  proceed-CanMove :
      (t : ℕ) (g : Bool) (point : Point T) (q : List T) (s : State T)
      → Reaches point q s.queue
      → CanMove (proceed g t point s)
  unfolding proceed go_on leave access
  proceed-CanMove t g (leaving operation result) q s reached = (_, _, refl)
  proceed-CanMove t g point q s reached = elim (access-some point q s.queue reached) [
    | inl (operation, result, bad) ↦ absurd (ground arith)
    | inr (after, now, good) ↦ (_, _, ap (go_on g t s) good)
  ]

  proceeds :
      (history : List (Operation T × Result T)) (o : ℕ) (g : Bool) (point : Point T) (s : State T)
      → Run IsGuarded history s
      → s.place o ≡ inside g point
      → CanMove (advance o s)
  unfolding step_from
  proceeds history o g point s run at =
      let (q, before, sound) = Run-IsLinear history s run in
      let (ended, s', moves_on) = proceed-CanMove o g point q s (sound.exclusive o g point at).2 in
      (ended, s', ap (λ p. step_from p o s) at ∙ moves_on)

  -- A thread waits for another, which holds the mutex and can take a step.
  abbrev pub WaitsFor : ℕ → State T → Type 0
  WaitsFor t s = (o : ℕ) × (s.owner ≡ some o) × (advance t s ≡ blocked) × CanMove (advance o s)

  lock_free :
      (t : ℕ) (operation : Operation T) (s : State T)
      → s.owner ≡ none
      → lock t operation s
        ≡ moved [] (record {
          queue = s.queue;
          owner = some t;
          place = put t (inside true (entry operation)) s.place;
        })
  unfolding lock
  lock_free t operation s h = rw (h, lock) refl

  step_from-Progresses :
      (history : List (Operation T × Result T)) (t : ℕ) (p : Place T) (s : State T)
      → Run IsGuarded history s
      → s.place t ≡ p
      → p ≢ outside
      → CanMove (advance t s) ⊎ WaitsFor t s
  unfolding step_from lock
  step_from-Progresses history t outside s run at busy = absurd (busy refl)
  step_from-Progresses history t (inside g point) s run at busy =
      inl (proceeds history t g point s run at)
  step_from-Progresses history t (locking operation) s run at busy = elim (Option-cases s.owner) [
    | inl nobody_has ↦
        inl ([], _, ap (λ p. step_from p t s) at ∙ lock_free t operation s nobody_has)
    | inr (o, owned) ↦
        let (q, before, sound) = Run-IsLinear history s run in
        let (point, at_point) = sound.held o owned in
        inr (
          o,
          owned,
          ap (λ p. step_from p t s) at ∙ rw (owned, lock) refl,
          proceeds history o true point s run at_point,
        )
  ]

  -- If all calls take the mutex, then in every run each thread that is inside a call can take its next
  -- step, without a `front` or a `pop` of an empty `std::queue`, or it waits for the mutex; then
  -- another thread holds the mutex, and that one can take its next step.
  pub Run-Progresses :
      (history : List (Operation T × Result T)) (s : State T) (t : ℕ)
      → Run IsGuarded history s
      → s.place t ≢ outside
      → CanMove (advance t s) ⊎ WaitsFor t s
  Run-Progresses history s t run busy = step_from-Progresses history t (s.place t) s run refl busy
