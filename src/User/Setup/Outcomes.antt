-- ===== src/User/Setup/Outcomes.antt =====
-- server/User_Queue.hpp, `_configure_nodes`: what the outcomes of the configurations do to the nodes.
use distributed_computing_fr.Prelude.{
  count, one_if, some_injective, ℕ, ◌+◌, ◌≡◌, ap, subst, Bool, Bool-cases, ◌==◌, true, false, some,
  Option-cases, inl, inr, List, [], ◌∷◌, length, arith,
}
use distributed_computing_fr.Container.Order.{push-items}
use distributed_computing_fr.User.Answers.{decr-val}
use distributed_computing_fr.Container.Bag.{Keeps}
use distributed_computing_fr.User.MainLoop.{remove}
use distributed_computing_fr.User.MainLoop.Counting.{remove-length}
use distributed_computing_fr.User.Setup.{Setup, node_configured, all_configured}

pub remove-count :
    (p : ℕ → Bool) (node : ℕ) (ns rest : List ℕ)
    → remove node ns ≡ some rest
    → count p ns ≡ one_if (p node) + count p rest
unfolding remove
remove-count p node [] rest e = absurd (ground arith)
remove-count p node (n ∷ ns) rest e = elim (Bool-cases (node == n)) [
  | inl same ↦ ground arith
  | inr other ↦ elim (Option-cases (remove node ns)) [
    | inl nowhere ↦ absurd (ground arith)
    | inr (rest', there) ↦ ground (arith, remove-count p node ns rest' there)
  ]
]

-- The nodes that were configured, and those that were not.
abbrev pub succeeded : List (ℕ × Bool) → List ℕ
succeeded [] = []
succeeded ((node, true) ∷ outcomes) = node ∷ succeeded outcomes
succeeded ((node, false) ∷ outcomes) = succeeded outcomes

abbrev pub failed : List (ℕ × Bool) → List ℕ
failed [] = []
failed ((node, true) ∷ outcomes) = failed outcomes
failed ((node, false) ∷ outcomes) = node ∷ failed outcomes

-- What the outcomes do to a setup whose counter counts the nodes that are being configured.
pub record Configures (outcomes : List (ℕ × Bool)) (s s' : Setup) : Type 0 where
  pub counted : s'.config_counter.val ≡ length s'.configuring
  pub ready :
      (q : ℕ → Bool) → count q s'.nodes.items ≡ count q s.nodes.items + count q (succeeded outcomes)
  pub left :
      (q : ℕ → Bool)
      → count q s.configuring
        ≡ count q (succeeded outcomes) + count q (failed outcomes) + count q s'.configuring

node_configured-Configures :
    (insert : ℕ → List ℕ → List ℕ) (node : ℕ) (ok : Bool) (s s' : Setup)
    → Keeps insert
    → s.config_counter.val ≡ length s.configuring
    → node_configured insert node ok s ≡ some s'
    → Configures ((node, ok) ∷ []) s s'
unfolding node_configured
node_configured-Configures insert node true s s' keeps counted e =
    elim (Option-cases (remove node s.configuring)) [
      | inl nowhere ↦ absurd (ground (arith, e))
      | inr (rest, there) ↦
          subst (Configures ((node, true) ∷ []) s)
            (some_injective (rw (there, node_configured) at e))
            (record {
              counted = omega (
                arith,
                counted,
                decr-val s.config_counter,
                remove-length node s.configuring rest there,
              );
              ready = λ q. omega (
                arith,
                ap (count q) (push-items insert node s.nodes),
                keeps q node s.nodes.items,
              );
              left = λ q. omega (arith, remove-count q node s.configuring rest there);
            })
    ]
node_configured-Configures insert node false s s' keeps counted e =
    elim (Option-cases (remove node s.configuring)) [
      | inl nowhere ↦ absurd (ground (arith, e))
      | inr (rest, there) ↦
          subst (Configures ((node, false) ∷ []) s)
            (some_injective (rw (there, node_configured) at e))
            (record {
              counted = omega (
                arith,
                counted,
                decr-val s.config_counter,
                remove-length node s.configuring rest there,
              );
              ready = λ q. omega arith;
              left = λ q. omega (arith, remove-count q node s.configuring rest there);
            })
    ]

one_more :
    (q : ℕ → Bool) (node : ℕ) (ok : Bool) (outcomes : List (ℕ × Bool))
    → (count q (succeeded ((node, ok) ∷ outcomes))
        ≡ count q (succeeded ((node, ok) ∷ [])) + count q (succeeded outcomes))
      × (count q (failed ((node, ok) ∷ outcomes))
          ≡ count q (failed ((node, ok) ∷ [])) + count q (failed outcomes))
one_more q node true outcomes = (omega arith, omega arith)
one_more q node false outcomes = (omega arith, omega arith)

pub all_configured-Configures :
    (insert : ℕ → List ℕ → List ℕ) (outcomes : List (ℕ × Bool)) (s s' : Setup)
    → Keeps insert
    → s.config_counter.val ≡ length s.configuring
    → all_configured insert outcomes s ≡ some s'
    → Configures outcomes s s'
unfolding all_configured
all_configured-Configures insert [] s s' keeps counted e =
    subst (Configures [] s) (some_injective e)
      (record { counted = counted; ready = λ q. omega arith; left = λ q. omega arith })
all_configured-Configures insert ((node, ok) ∷ outcomes) s s' keeps counted e =
    elim (Option-cases (node_configured insert node ok s)) [
      | inl nowhere ↦ absurd (ground (arith, e))
      | inr (t, goes) ↦
          let first = node_configured-Configures insert node ok s t keeps counted goes in
          let others =
            all_configured-Configures insert outcomes t s' keeps first.counted
              (rw (goes, all_configured) at e) in
          record {
            counted = others.counted;
            ready =
                λ q. omega (arith, first.ready q, others.ready q, (one_more q node ok outcomes).0);
            left = λ q. omega (
              arith,
              first.left q,
              others.left q,
              (one_more q node ok outcomes).0,
              (one_more q node ok outcomes).1,
            );
          }
    ]
