-- ===== src/SafeQ/Linear.antt =====
-- utils/include/safeQ.hpp: under the mutex, the mixed steps of any number of threads amount to whole
-- operations, one after the other.
use mathlib.Core.List.{append-nil}
use distributed_computing_fr.Prelude.{
  ℕ, ◌≡◌, inl, inr, refl, sym, ap, subst, ◌∙◌, Bool, true, none, some, some_injective, Option-cases,
  List, [], ◌++◌, arith,
}
use distributed_computing_fr.SafeQ.{
  Operation, Result, Point, pushing, testing, copying, removing, measuring, leaving, Place, outside,
  locking, inside, State, moved, call, leave, access, go_on, proceed, step_from, Usage, guarded,
  is_guarded, Run, start, calls, steps, moves,
}
use distributed_computing_fr.SafeQ.Sequence.{atomic, Sequential, nobody, next}
use distributed_computing_fr.SafeQ.Invariant.{
  no_owner, moved_injective, put-inside, lock-Consistent, leave-Consistent, access-Consistent,
  Reaches, Consistent, put_cases,
}

module _ {T : Type 0} where
  -- The calls that have ended are a sequential history, and the state fits the queue that it leaves.
  abbrev pub IsLinear : List (Operation T × Result T) → State T → Type 0
  IsLinear history s = (q : List T) × Sequential history q × Consistent q s

  leave-IsLinear :
      (t : ℕ) (g : Bool) (operation : Operation T) (result : Result T) (s s' : State T)
      (history ended : List (Operation T × Result T))
      → IsLinear history s
      → s.place t ≡ inside g (leaving operation result)
      → leave g t operation result s ≡ moved ended s'
      → IsLinear (history ++ ended) s'
  leave-IsLinear t g operation result s s' history ended (q, before, sound) at e =
      let (one_ended, after) = leave-Consistent t g operation result q s s' ended sound at e in
      (
        (atomic operation q).1,
        subst (λ l. Sequential (history ++ l) (atomic operation q).1) (sym one_ended)
            (next operation before),
        after,
      )

  go_on-IsLinear :
      (t : ℕ) (g : Bool) (point : Point T) (s s' : State T)
      (history ended : List (Operation T × Result T))
      → IsLinear history s
      → s.place t ≡ inside g point
      → go_on g t s (access point s.queue) ≡ moved ended s'
      → IsLinear (history ++ ended) s'
  unfolding go_on
  go_on-IsLinear t g point s s' history ended (q, before, sound) at e =
      elim (Option-cases (access point s.queue)) [
        | inl bad ↦ absurd (ground (arith, bad))
        | inr ((after, now), good) ↦
            let (none_ended, state) = moved_injective (rw good at e) in
            (
              q,
              subst (λ l. Sequential l q)
                  (sym (append-nil history) ∙ ap (λ l. history ++ l) none_ended) before,
              subst (Consistent q) state (access-Consistent t g point after q now s sound at good),
            )
      ]

  proceed-IsLinear :
      (t : ℕ) (g : Bool) (point : Point T) (s s' : State T)
      (history ended : List (Operation T × Result T))
      → IsLinear history s
      → s.place t ≡ inside g point
      → proceed g t point s ≡ moved ended s'
      → IsLinear (history ++ ended) s'
  unfolding proceed
  proceed-IsLinear t g (leaving operation result) s s' history ended linear at e =
      leave-IsLinear t g operation result s s' history ended linear at e
  proceed-IsLinear t g (pushing x) s s' history ended linear at e =
      go_on-IsLinear t g (pushing x) s s' history ended linear at e
  proceed-IsLinear t g testing s s' history ended linear at e =
      go_on-IsLinear t g testing s s' history ended linear at e
  proceed-IsLinear t g copying s s' history ended linear at e =
      go_on-IsLinear t g copying s s' history ended linear at e
  proceed-IsLinear t g (removing x) s s' history ended linear at e =
      go_on-IsLinear t g (removing x) s s' history ended linear at e
  proceed-IsLinear t g measuring s s' history ended linear at e =
      go_on-IsLinear t g measuring s s' history ended linear at e

  step_from-IsLinear :
      (t : ℕ) (p : Place T) (s s' : State T) (history ended : List (Operation T × Result T))
      → IsLinear history s
      → s.place t ≡ p
      → step_from p t s ≡ moved ended s'
      → IsLinear (history ++ ended) s'
  unfolding step_from
  step_from-IsLinear t outside s s' history ended linear at e = absurd (ground arith)
  step_from-IsLinear t (locking operation) s s' history ended (q, before, sound) at e =
      let (none_ended, after) = lock-Consistent t operation q s s' ended sound e in
      (
        q,
        subst (λ l. Sequential l q)
            (sym (append-nil history) ∙ ap (λ l. history ++ l) (sym none_ended)) before,
        after,
      )
  step_from-IsLinear t (inside g point) s s' history ended linear at e =
      proceed-IsLinear t g point s s' history ended linear at e

  apart : {p : Place T} {g : Bool} {point : Point T} → p ≡ outside → p ≡ inside g point → ⊥
  apart out at = ground arith

  call-IsLinear :
      (t : ℕ) (operation : Operation T) (s : State T) (history : List (Operation T × Result T))
      → IsLinear history s
      → s.place t ≡ outside
      → IsLinear history (call true t operation s)
  unfolding call
  call-IsLinear t operation s history (q, before, sound) at = (
    q,
    before,
    record {
      exclusive =
          put-inside (λ u g point. (s.owner ≡ some u) × (g ≡ true) × Reaches point q s.queue) t
            (locking operation) s.place (λ u g point other at'. sound.exclusive u g point at')
            (λ g point at'. absurd (ground arith));
      free = sound.free;
      held = λ u e.
          let (point, at_point) = sound.held u e in
          (
            point,
            elim (put_cases t u (locking operation) s.place) [
              | inl (same, now) ↦ absurd (apart (ap s.place same ∙ at) at_point)
              | inr (other, now) ↦ now ∙ at_point
            ],
          );
    },
  )

-- A program that calls `push`, `pop` and `size` only.
abbrev pub IsGuarded : Usage → Type 0
IsGuarded usage = usage ≡ guarded

module _ {T : Type 0} where
  pub Run-IsLinear :
      (history : List (Operation T × Result T)) (s : State T)
      → Run IsGuarded history s
      → IsLinear history s
  Run-IsLinear history s start = (
    [],
    nobody,
    record {
      exclusive = λ t g point at. absurd (ground arith);
      free = λ e. refl;
      held = λ t e. absurd (no_owner refl e);
    },
  )
  Run-IsLinear history s (calls {s = s₀} usage t operation run allowed at) =
      subst (λ v. IsLinear history (call (is_guarded v) t operation s₀)) (sym allowed)
        (call-IsLinear t operation s₀ history (Run-IsLinear history s₀ run) at)
  Run-IsLinear history s (steps {history = before} {ended = ended} {s = s₀} t run e) =
      step_from-IsLinear t (s₀.place t) s₀ s before ended (Run-IsLinear before s₀ run) refl e
  Run-IsLinear history s (moves run allowed) = absurd (ground arith)

  -- If all calls take the mutex, then in every run of any number of threads, whichever way their
  -- steps mix, the calls that have ended, in the order in which they ended, with the results that they
  -- gave, are a run of indivisible operations on one queue; and when nobody holds the mutex the
  -- items are those of that queue.
  pub Run-Refines :
      (history : List (Operation T × Result T)) (s : State T)
      → Run IsGuarded history s
      → (q : List T) × Sequential history q × (s.owner ≡ none → s.queue ≡ q)
  Run-Refines history s run =
      let (q, before, sound) = Run-IsLinear history s run in (q, before, sound.free)

  -- If all calls take the mutex, no two threads are inside an operation at a time.
  Run-Excludes :
      (history : List (Operation T × Result T)) (s : State T) (t u : ℕ) (g h : Bool)
      (point other : Point T)
      → Run IsGuarded history s
      → s.place t ≡ inside g point
      → s.place u ≡ inside h other
      → t ≡ u
  Run-Excludes history s t u g h point other run at at' =
      let (q, before, sound) = Run-IsLinear history s run in
      some_injective (sym (sound.exclusive t g point at).0 ∙ (sound.exclusive u h other at').0)
