-- ===== src/SafeQ/Invariant.antt =====
-- utils/include/safeQ.hpp: what the steps of the threads keep, if each holds the mutex for its whole
-- operation.

use distributed_computing_fr.Prelude.{
  ℕ, ◌≡◌, ◌≢◌, ◌⊎◌, inl, inr, refl, sym, ap, subst, ◌∙◌, ◌==◌, ==_iff, Bool, true, Bool-cases,
  Option, none, some, some_injective, Option-cases, List, [], ◌∷◌, ◌++◌, length, arith,
}
use distributed_computing_fr.Container.{enqueue}
use distributed_computing_fr.Container.Order.{enqueue_lem}
use distributed_computing_fr.SafeQ.{
  Operation, push, pop, size, Result, done, nothing, item, number, Point, pushing, testing, copying,
  removing, measuring, leaving, Place, outside, inside, State, Step, moved, put, entry, lock, leave,
  access,
}
use distributed_computing_fr.SafeQ.Sequence.{atomic}

pub no_owner : {o : Option ℕ} {t : ℕ} → o ≡ none → o ≡ some t → ⊥
no_owner free has = ground arith

module _ {T : Type 0} where
  pub put_cases :
      (t u : ℕ) (p : Place T) (places : ℕ → Place T)
      → ((u ≡ t) × (put t p places u ≡ p)) ⊎ ((u ≢ t) × (put t p places u ≡ places u))
  put_cases t u p places = elim (Bool-cases (u == t)) [
    | inl same ↦ inl ((==_iff u t).0 same, rw same refl)
    | inr other ↦ inr ((λ e. ground arith), rw other refl)
  ]

  head_injective : {x y : T} {xs ys : List T} → ◌≡◌ {A = List T} (x ∷ xs) (y ∷ ys) → x ≡ y
  head_injective e = cc

  inside_injective :
      {g g' : Bool} {p p' : Point T} → inside g p ≡ inside g' p' → (g ≡ g') × (p ≡ p')
  inside_injective e = (cc, cc)

  pub moved_injective :
      {h h' : List (Operation T × Result T)} {s s' : State T}
      → ◌≡◌ {A = Step T} (moved h s) (moved h' s')
      → (h ≡ h') × (s ≡ s')
  moved_injective e = (cc, cc)

  -- A thread at this point has seen the queue `now`, which was `q` before its operation.
  abbrev pub Reaches : Point T → List T → List T → Type 0
  Reaches (pushing x) q now = now ≡ q
  Reaches testing q now = now ≡ q
  Reaches copying q now = (now ≡ q) × (x : T) × (rest : List T) × (now ≡ x ∷ rest)
  Reaches (removing x) q now = (now ≡ q) × (rest : List T) × (now ≡ x ∷ rest)
  Reaches measuring q now = now ≡ q
  Reaches (leaving operation result) q now = atomic operation q ≡ (result, now)

  -- The queue is `q` between operations; a thread that is inside one owns the mutex.
  pub record Consistent (q : List T) (s : State T) : Type 0 where
    pub exclusive :
        (t : ℕ) (g : Bool) (point : Point T)
        → s.place t ≡ inside g point
        → (s.owner ≡ some t) × (g ≡ true) × Reaches point q s.queue
    pub free : s.owner ≡ none → s.queue ≡ q
    pub held : (t : ℕ) → s.owner ≡ some t → (point : Point T) × (s.place t ≡ inside true point)

  entry-Reaches :
      (operation : Operation T) (q now : List T) → now ≡ q → Reaches (entry operation) q now
  entry-Reaches (push x) q now h = h
  entry-Reaches pop q now h = h
  entry-Reaches size q now h = h

  access-Reaches :
      (point after : Point T) (q now now' : List T)
      → Reaches point q now
      → access point now ≡ some (after, now')
      → Reaches after q now'
  unfolding access
  access-Reaches (pushing x) after q now now' h e =
      subst (λ r. Reaches r.0 q r.1) (some_injective e)
        (ap (λ l. (done, l)) (ap (λ l. l ++ (x ∷ [])) (sym h) ∙ sym (enqueue_lem x now)))
  access-Reaches testing after q [] now' h e =
      subst (λ r. Reaches r.0 q r.1) (some_injective e) (ap (atomic pop) (sym h))
  access-Reaches testing after q (x ∷ now) now' h e =
      subst (λ r. Reaches r.0 q r.1) (some_injective e) (h, x, now, refl)
  access-Reaches copying after q [] now' h e = absurd (ground arith)
  access-Reaches copying after q (x ∷ now) now' h e =
      subst (λ r. Reaches r.0 q r.1) (some_injective e) (h.0, now, refl)
  access-Reaches (removing x) after q [] now' h e = absurd (ground arith)
  access-Reaches (removing x) after q (y ∷ now) now' (same, rest, found) e =
      subst (λ r. Reaches r.0 q r.1) (some_injective e)
        (ap (atomic pop) (sym same) ∙ ap (λ z. (item z, now)) (head_injective found))
  access-Reaches measuring after q now now' h e =
      subst (λ r. Reaches r.0 q r.1) (some_injective e) (ap (atomic size) (sym h))
  access-Reaches (leaving operation result) after q now now' h e = absurd (ground arith)

  -- The accesses of a pop are to a queue that is not empty.
  pub access-some :
      (point : Point T) (q now : List T)
      → Reaches point q now
      → ((operation : Operation T) × (result : Result T) × (point ≡ leaving operation result))
        ⊎ ((after : Point T) × (now' : List T) × (access point now ≡ some (after, now')))
  unfolding access
  access-some (pushing x) q now h = inr (leaving (push x) done, enqueue x now, refl)
  access-some testing q [] h = inr (leaving pop nothing, [], refl)
  access-some testing q (x ∷ now) h = inr (copying, x ∷ now, refl)
  access-some copying q [] h = absurd (ground arith)
  access-some copying q (x ∷ now) h = inr (removing x, x ∷ now, refl)
  access-some (removing x) q [] h = absurd (ground arith)
  access-some (removing x) q (y ∷ now) h = inr (leaving pop (item x), now, refl)
  access-some measuring q now h = inr (leaving size (number (length now)), now, refl)
  access-some (leaving operation result) q now h = inl (operation, result, refl)

  -- What holds of the threads inside an operation, when one thread moves to another place.
  pub put-inside :
      (R : ℕ → Bool → Point T → Type 0) (t : ℕ) (p : Place T) (places : ℕ → Place T)
      → ((u : ℕ) (g : Bool) (point : Point T) → u ≢ t → places u ≡ inside g point → R u g point)
      → ((g : Bool) (point : Point T) → p ≡ inside g point → R t g point)
      → (u : ℕ) (g : Bool) (point : Point T) → put t p places u ≡ inside g point
      → R u g point
  put-inside R t p places others own u g point at = elim (put_cases t u p places) [
    | inl (same, now) ↦ subst (λ v. R v g point) (sym same) (own g point (sym now ∙ at))
    | inr (other, now) ↦ others u g point other (sym now ∙ at)
  ]

  put_self : (t : ℕ) (p : Place T) (places : ℕ → Place T) → put t p places t ≡ p
  put_self t p places = elim (put_cases t t p places) [
    | inl (same, now) ↦ now
    | inr (other, now) ↦ absurd (other refl)
  ]

  pub lock-Consistent :
      (t : ℕ) (operation : Operation T) (q : List T) (s s' : State T)
      (ended : List (Operation T × Result T))
      → Consistent q s
      → lock t operation s ≡ moved ended s'
      → (ended ≡ []) × Consistent q s'
  unfolding lock
  lock-Consistent t operation q s s' ended sound e = elim (Option-cases s.owner) [
    | inl nobody_has ↦
        let (none_ended, now) = moved_injective (rw nobody_has at e) in
        (
          sym none_ended,
          subst (Consistent q) now (record {
            exclusive =
                put-inside (λ u g point. (some t ≡ some u) × (g ≡ true) × Reaches point q s.queue) t
                  (inside true (entry operation)) s.place
                  (λ u g point other at.
                    absurd (no_owner nobody_has (sound.exclusive u g point at).0))
                  (λ g point at.
                    let (same_g, same_point) = inside_injective at in
                    (
                      refl,
                      sym same_g,
                      subst (λ r. Reaches r q s.queue) same_point
                          (entry-Reaches operation q s.queue (sound.free nobody_has)),
                    ));
            free = λ e'. absurd (no_owner e' refl);
            held = λ u e'. (
              entry operation,
              subst
                  (λ v.
                    put t (inside true (entry operation)) s.place v ≡ inside true (entry operation))
                  (some_injective e') (put_self t (inside true (entry operation)) s.place),
            );
          }),
        )
    | inr (o, has) ↦ absurd (ground arith)
  ]

  pub leave-Consistent :
      (t : ℕ) (g : Bool) (operation : Operation T) (result : Result T) (q : List T) (s s' : State T)
      (ended : List (Operation T × Result T))
      → Consistent q s
      → s.place t ≡ inside g (leaving operation result)
      → leave g t operation result s ≡ moved ended s'
      → (ended ≡ (operation, (atomic operation q).0) ∷ []) × Consistent (atomic operation q).1 s'
  unfolding leave
  leave-Consistent t g operation result q s s' ended sound at e =
      let (owned, same, reached) = sound.exclusive t g (leaving operation result) at in
      let (one_ended, now) = moved_injective (rw same at e) in
      (
        sym one_ended ∙ ap (λ r. (operation, r.0) ∷ []) (sym reached),
        subst (Consistent (atomic operation q).1) now (record {
          exclusive =
              put-inside
                (λ u g' point.
                  (none ≡ some u) × (g' ≡ true) × Reaches point (atomic operation q).1 s.queue)
                t outside s.place
                (λ u g' point other at'.
                  absurd (other (some_injective (sym (sound.exclusive u g' point at').0 ∙ owned))))
                (λ g' point at'. absurd (ground arith));
          free = λ e'. ap (λ r. r.1) (sym reached);
          held = λ u e'. absurd (no_owner refl e');
        }),
      )

  pub access-Consistent :
      (t : ℕ) (g : Bool) (point after : Point T) (q now : List T) (s : State T)
      → Consistent q s
      → s.place t ≡ inside g point
      → access point s.queue ≡ some (after, now)
      → Consistent q
          (record { queue = now; owner = s.owner; place = put t (inside g after) s.place })
  access-Consistent t g point after q now s sound at e =
      let (owned, same, reached) = sound.exclusive t g point at in
      record {
        exclusive =
            put-inside (λ u g' point'. (s.owner ≡ some u) × (g' ≡ true) × Reaches point' q now) t
              (inside g after) s.place
              (λ u g' point' other at'.
                absurd (other (some_injective (sym (sound.exclusive u g' point' at').0 ∙ owned))))
              (λ g' point' at'.
                let (same_g, same_point) = inside_injective at' in
                (
                  owned,
                  sym same_g ∙ same,
                  subst (λ r. Reaches r q now) same_point
                      (access-Reaches point after q s.queue now reached e),
                ));
        free = λ e'. absurd (no_owner e' owned);
        held = λ u e'. (
          after,
          subst (λ v. put t (inside g after) s.place v ≡ inside true after)
              (some_injective (sym owned ∙ e'))
              (put_self t (inside g after) s.place ∙ ap (λ b. inside b after) same),
        );
      }
