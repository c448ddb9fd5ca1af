-- ===== src/User/Setup/Ready.antt =====
-- server/User_Queue.hpp, `_configure_nodes`: when the wait for the nodes ends, the ready nodes are
-- those whose configuration succeeded.
use distributed_computing_fr.Prelude.{
  count, ℕ, suc, ◌+◌, ◌<◌, ◌≡◌, refl, ap, Bool, true, some, List, [], ◌∷◌, length, arith, u32_mod,
}
use distributed_computing_fr.Container.{Container, fresh, push, pop}
use distributed_computing_fr.Container.Order.{push-items}
use distributed_computing_fr.Counter.{Counter, incr}
use distributed_computing_fr.User.Answers.{incr-val}
use distributed_computing_fr.Container.Bag.{Keeps}
use distributed_computing_fr.User.Setup.{Setup, push_nodes, spawn_all, all_configured}
use distributed_computing_fr.User.Setup.Outcomes.{succeeded, failed, all_configured-Configures}

-- The node is being configured, and these are left in the container.
abbrev pub spawned_one : ℕ → List ℕ → Setup → Setup
spawned_one n ns s = record {
  nodes = record { items = ns; waiting = s.nodes.waiting; woken = s.nodes.woken };
  config_counter = incr s.config_counter;
  configuring = n ∷ s.configuring;
}

-- Each node of the list is being configured, and the container is empty.
abbrev pub spawned : List ℕ → Setup → Setup
spawned [] s = s
spawned (n ∷ ns) s = spawned ns (spawned_one n ns s)

spawn_all-spawned :
    (ns : List ℕ) (s : Setup)
    → s.nodes.items ≡ ns
    → spawn_all (suc (length ns)) s ≡ some (spawned ns s)
unfolding spawn_all pop
spawn_all-spawned [] s e = rw e refl
spawn_all-spawned (n ∷ ns) s e = rw e (spawn_all-spawned ns _ refl)

-- After the loop of spawns every node is being configured.
spawned-counts :
    (ns : List ℕ) (s : Setup)
    → s.nodes.items ≡ ns
    → s.config_counter.val ≡ length s.configuring
    → length ns + length s.configuring < u32_mod
    → ((spawned ns s).config_counter.val ≡ length (spawned ns s).configuring)
      × ((spawned ns s).nodes.items ≡ [])
      × ((q : ℕ → Bool) → count q (spawned ns s).configuring ≡ count q ns + count q s.configuring)
spawned-counts [] s e counted small = (counted, e, λ q. omega arith)
spawned-counts (n ∷ ns) s e counted small =
    let (counted', emptied, all) =
      spawned-counts ns (spawned_one n ns s) refl
        (omega (arith, counted, small, incr-val s.config_counter)) (omega (arith, small)) in
    (counted', emptied, λ q. omega (arith, all q))

abbrev pub IsReady : List ℕ → List (ℕ × Bool) → Setup → Type 0
IsReady start outcomes s =
    (s.config_counter.val ≡ length s.configuring)
    × ((q : ℕ → Bool) → count q s.nodes.items ≡ count q (succeeded outcomes))
    × ((q : ℕ → Bool)
        → count q start
          ≡ count q (succeeded outcomes) + count q (failed outcomes) + count q s.configuring)

-- The first state of `_configure_nodes`.
abbrev pub begin_setup : Container ℕ → Counter → Setup
begin_setup nodes counter = record { nodes = nodes; config_counter = counter; configuring = [] }

pub push_nodes-count :
    (insert : ℕ → List ℕ → List ℕ) (q : ℕ → Bool) (ns : List ℕ) (c : Container ℕ)
    → Keeps insert
    → count q (push_nodes insert ns c).items ≡ count q ns + count q c.items
unfolding push_nodes
push_nodes-count insert q [] c keeps = omega arith
push_nodes-count insert q (n ∷ ns) c keeps = omega (
  arith,
  push_nodes-count insert q ns (push insert n c) keeps,
  ap (count q) (push-items insert n c),
  keeps q n c.items,
)

pub count_all : (ns : List ℕ) → count (λ n. true) ns ≡ length ns
count_all [] = refl
count_all (n ∷ ns) = omega (arith, count_all ns)

-- When a session has put fewer than 2^32 nodes into its container, a queue or a stack, and its counter
-- begins at zero, the loop of `_configure_nodes` takes every node out. After any outcomes, in any
-- order, of configurations of nodes: the counter is the number of nodes without an outcome; the
-- container holds the nodes whose configuration succeeded, each as often; and each node has
-- succeeded, has failed or has no outcome.
pub configure_nodes-IsReady :
    (insert : ℕ → List ℕ → List ℕ) (nodes : List ℕ) (counter : Counter) (outcomes : List (ℕ × Bool))
    (s : Setup)
    → Keeps insert
    → counter.val ≡ 0
    → length nodes < u32_mod
    → let pushed = push_nodes insert nodes fresh in
      let begun = begin_setup pushed counter in
      all_configured insert outcomes (spawned pushed.items begun) ≡ some s
      → (spawn_all (suc (length pushed.items)) begun ≡ some (spawned pushed.items begun))
        × IsReady nodes outcomes s
configure_nodes-IsReady insert nodes counter outcomes s keeps at_zero small e =
    let pushed = push_nodes insert nodes fresh in
    let start = begin_setup pushed counter in
    let same = λ (q : ℕ → Bool). push_nodes-count insert q nodes fresh keeps in
    let (counted, emptied, all) =
      spawned-counts pushed.items start refl at_zero
        (omega (arith, small, same (λ n. true), count_all pushed.items, count_all nodes)) in
    let h =
      all_configured-Configures insert outcomes (spawned pushed.items start) s keeps counted e in
    (
      spawn_all-spawned pushed.items start refl,
      (
        h.counted,
        (λ q. omega (arith, h.ready q, ap (count q) emptied)),
        (λ q. omega (arith, h.left q, all q, same q)),
      ),
    )
