-- ===== src/Server/Tests.antt =====
-- server/Server.hpp on a concrete run: two nodes, a user, a third node, and the end of the session.
use distributed_computing_fr.Prelude.{◌≡◌, refl, true, false, some, List, [], ◌∷◌, ◌++◌}
use distributed_computing_fr.Server.{
  Server, ServerEvent, node_accepted, user_accepted, node_error, session_over, fresh_server,
  accept_node, accept_user, end_session, serve, round, serve_all,
}
use distributed_computing_fr.Server.Handing.{accepted, handed, serve_all-IsHanded}

abbrev one_session : List ServerEvent
one_session =
    node_accepted 1
    ∷ node_error
    ∷ node_accepted 2
    ∷ user_accepted 9
    ∷ node_accepted 3
    ∷ session_over
    ∷ []

abbrev ended_server : Server
ended_server = record {
  nodes = 3 ∷ [];
  sessions = (9, 1 ∷ 2 ∷ []) ∷ [];
  in_session = false;
  ended = true;
}

session_runs : serve_all one_session fresh_server ≡ some ended_server
unfolding serve_all round serve accept_node accept_user end_session
session_runs = refl

serve_all-IsHanded_example :
    handed ended_server.sessions ++ ended_server.nodes ≡ accepted one_session
serve_all-IsHanded_example = serve_all-IsHanded one_session ended_server session_runs
