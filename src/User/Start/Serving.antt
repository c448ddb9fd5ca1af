-- ===== src/User/Start/Serving.antt =====
-- server/User_Queue.hpp and server/User_Stack.hpp, `User::start`: the main loop that follows the
-- configuration of the nodes.
use distributed_computing_fr.Prelude.{
  count, ℕ, ◌+◌, ◌≤◌, ◌<◌, ◌≡◌, refl, ap, Bool, true, none, some, List, [], ◌∷◌, length, arith,
  u32_mod,
}
use distributed_computing_fr.Message.{Message}
use distributed_computing_fr.Container.{Container, fresh, push}
use distributed_computing_fr.Container.Order.{push-items}
use distributed_computing_fr.Container.Bag.{Keeps}
use distributed_computing_fr.Counter.{Counter, incr}
use distributed_computing_fr.User.MainLoop.{receiving, Running, start_loops, begin_loop}
use distributed_computing_fr.User.MainLoop.Counting.{IsTracked}
use distributed_computing_fr.User.MainLoop.Loops.{start_loops-val}
use distributed_computing_fr.User.Setup.{Setup, push_nodes, all_configured}
use distributed_computing_fr.User.Setup.Outcomes.{succeeded, failed}
use distributed_computing_fr.User.Setup.Ready.{
  spawned, begin_setup, configure_nodes-IsReady, count_all,
}
use distributed_computing_fr.User.Start.{start_main_loop}

start_loops-items :
    (insert : ℕ → List ℕ → List ℕ) (q : ℕ → Bool) (ns : List ℕ) (k : Counter) (c : Container ℕ)
    → Keeps insert
    → count q (start_loops insert ns k c).1.items ≡ count q ns + count q c.items
unfolding start_loops
start_loops-items insert q [] k c keeps = omega arith
start_loops-items insert q (n ∷ ns) k c keeps = omega (
  arith,
  start_loops-items insert q ns (incr k) (push insert n c) keeps,
  ap (count q) (push-items insert n c),
  keeps q n c.items,
)

-- The main loop of a session that has got these nodes, after these outcomes of their configuration:
-- it waits for the user under the configuration; a receiver loop waits for each node that accepted
-- it, and no other, and the counter counts these loops; the same nodes are ready for inputs; every
-- node of the session accepted or failed.
abbrev pub Serves : Message → List ℕ → List (ℕ × Bool) → Running × Container ℕ → Type 0
Serves config nodes outcomes (s, ready) =
    (s.phase ≡ receiving)
    × (s.config ≡ config)
    × IsTracked s
    × ((q : ℕ → Bool) → count q s.waiting ≡ count q (succeeded outcomes))
    × ((q : ℕ → Bool) → count q ready.items ≡ count q (succeeded outcomes))
    × ((q : ℕ → Bool) → count q nodes ≡ count q (succeeded outcomes) + count q (failed outcomes))

begin_loop-Serves :
    (insert : ℕ → List ℕ → List ℕ) (config : Message) (data_counter receiver_counter : Counter)
    (nodes : List ℕ) (outcomes : List (ℕ × Bool)) (c : Container ℕ)
    → Keeps insert
    → receiver_counter.val ≡ 0
    → length nodes < u32_mod
    → ((q : ℕ → Bool) → count q c.items ≡ count q (succeeded outcomes))
    → ((q : ℕ → Bool) → count q nodes ≡ count q (succeeded outcomes) + count q (failed outcomes))
    → Serves config nodes outcomes (begin_loop insert config data_counter receiver_counter c)
unfolding begin_loop
begin_loop-Serves insert config dc rc nodes outcomes c keeps at_zero small ready all =
    let few : length c.items ≤ length nodes =
      omega (arith, ready (λ n. true), all (λ n. true), count_all c.items, count_all nodes) in
    let counts =
      start_loops-val insert c.items rc (record c { items = [] })
        (omega (arith, at_zero, few, small)) in
    (
      refl,
      refl,
      (omega (arith, counts, at_zero), (λ g. absurd (ground arith))),
      ready,
      (λ q.
          omega (
            arith,
            start_loops-items insert q c.items rc (record c { items = [] }) keeps,
            ready q,
          )),
      all,
    )

-- A session with fewer than 2^32 nodes whose counters begin at zero, once every node's configuration
-- has ended, in any order and with any outcomes, and the response to the user is sent: the main loop
-- starts under the configuration, with a receiver loop for each node that accepted it and for no
-- other, and exactly these nodes are ready for inputs.
pub start_main_loop-Serves :
    (insert : ℕ → List ℕ → List ℕ) (config : Message)
    (data_counter receiver_counter config_counter : Counter) (nodes : List ℕ)
    (outcomes : List (ℕ × Bool)) (s : Setup)
    → Keeps insert
    → config_counter.val ≡ 0
    → receiver_counter.val ≡ 0
    → length nodes < u32_mod
    → let pushed = push_nodes insert nodes fresh in
      all_configured insert outcomes (spawned pushed.items (begin_setup pushed config_counter))
        ≡ some s
      → s.config_counter.val ≡ 0
      → (r : Running × Container ℕ) × (start_main_loop insert config data_counter receiver_counter
            none s
          ≡ some r)
        × Serves config nodes outcomes r
unfolding start_main_loop
start_main_loop-Serves insert config dc rc cc' nodes outcomes s keeps zero_config zero_loops small e
      ended =
    let (_, (counted, ready, all)) =
      configure_nodes-IsReady insert nodes cc' outcomes s keeps zero_config small e in
    (
      begin_loop insert config dc rc s.nodes,
      refl,
      begin_loop-Serves insert config dc rc nodes outcomes s.nodes keeps zero_loops small ready
          (λ q. omega (arith, all q, no_more q s.configuring (omega (arith, counted, ended)))),
    )
  where
    no_more : (q : ℕ → Bool) (ns : List ℕ) → length ns ≡ 0 → count q ns ≡ 0
    no_more q [] h = refl
    no_more q (n ∷ ns) h = absurd (omega arith)
