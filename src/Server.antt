-- ===== src/Server.antt =====
-- server/Server.hpp: the server collects the connections of nodes, and hands them to a user who
-- connects. Connections and users are numbers.
use distributed_computing_fr.Prelude.{
  ℕ, Bool, true, false, if◌then◌else◌, Option, none, some, List, [], ◌∷◌, ◌++◌, ◌>>=◌,
}
pub mod Handing
pub mod Tests

pub record Server : Type 0 where
  -- `_nodes`.
  pub nodes : List ℕ
  -- The users who were started, the last first, each with the nodes that it was given.
  pub sessions : List (ℕ × List ℕ)
  -- Whether `_start_user_server` waits for a user or for the end of a session.
  pub in_session : Bool
  -- Whether `run` has returned, which ends the other loop as well.
  pub ended : Bool

pub data ServerEvent : Type 0 where
  node_accepted user_accepted : ℕ → ServerEvent
  node_error user_error session_over : ServerEvent

abbrev pub fresh_server : Server
fresh_server = record { nodes = []; sessions = []; in_session = false; ended = false }

-- A round of `_start_node_server`.
unfoldable pub accept_node : ℕ → Server → Server
accept_node node s = record s { nodes = s.nodes ++ (node ∷ []) }

-- A round of `_start_user_server`, up to its wait for the user's session.
unfoldable pub accept_user : ℕ → Server → Option Server
accept_user user s =
    if s.in_session
    then none
    else some (record s { nodes = []; sessions = (user, s.nodes) ∷ s.sessions; in_session = true })

-- The session is over: `_start_user_server` returns, and with it `run`.
unfoldable pub end_session : Server → Option Server
end_session s = if s.in_session then some (record s { in_session = false; ended = true }) else none

unfoldable pub serve : ServerEvent → Server → Option Server
serve (node_accepted node) s = some (accept_node node s)
serve node_error s = some s
serve (user_accepted user) s = accept_user user s
serve user_error s = if s.in_session then none else some s
serve session_over s = end_session s

-- What a server does that has not ended.
unfoldable pub round : ServerEvent → Server → Option Server
round e s = if s.ended then none else serve e s

unfoldable pub serve_all : List ServerEvent → Server → Option Server
serve_all [] s = some s
serve_all (e ∷ es) s = do s' ← round e s; serve_all es s'
