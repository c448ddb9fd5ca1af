-- ===== src/Server/Handing.antt =====
-- server/Server.hpp: which nodes a user is given.
use mathlib.Core.List.{append_assoc, append-nil}
use distributed_computing_fr.Prelude.{
  some_injective, ℕ, ◌≤◌, ◌≡◌, refl, sym, ap, subst, ◌∙◌, false, Bool-cases, if◌then◌else◌, none,
  some, Option-cases, inl, inr, List, [], ◌∷◌, ◌++◌, length, arith,
}
use distributed_computing_fr.Server.{
  Server, ServerEvent, node_accepted, user_accepted, node_error, user_error, session_over,
  fresh_server, accept_node, accept_user, end_session, serve, round, serve_all,
}

-- The nodes that were accepted, in order.
abbrev pub accepted : List ServerEvent → List ℕ
accepted [] = []
accepted (node_accepted node ∷ es) = node ∷ accepted es
accepted (user_accepted user ∷ es) = accepted es
accepted (node_error ∷ es) = accepted es
accepted (user_error ∷ es) = accepted es
accepted (session_over ∷ es) = accepted es

-- The nodes that were given to users, in the order of the sessions.
abbrev pub handed : List (ℕ × List ℕ) → List ℕ
handed [] = []
handed ((user, nodes) ∷ sessions) = handed sessions ++ nodes

-- At most one session has begun, and none before the wait for a user ends.
abbrev HasOne : Server → Type 0
HasOne s =
    (length s.sessions ≤ 1) × (s.in_session ≡ false → s.ended ≡ false → length s.sessions ≡ 0)

abbrev all_nodes : Server → List ℕ
all_nodes s = handed s.sessions ++ s.nodes

-- What a round keeps, with the nodes that it accepted.
abbrev Hands : Server → List ℕ → Server → Type 0
Hands s nodes s' = HasOne s' × (all_nodes s' ≡ all_nodes s ++ nodes)

serve-Hands :
    (e : ServerEvent) (s s' : Server)
    → HasOne s
    → s.ended ≡ false
    → serve e s ≡ some s'
    → Hands s (accepted (e ∷ [])) s'
unfolding serve accept_node accept_user end_session
serve-Hands (node_accepted node) s s' h goes e =
    subst (Hands s (node ∷ [])) (some_injective e)
      (h, sym (append_assoc (handed s.sessions) s.nodes (node ∷ [])))
serve-Hands node_error s s' h goes e =
    subst (Hands s []) (some_injective e) (h, sym (append-nil (all_nodes s)))
serve-Hands (user_accepted user) s s' h goes e = elim (Bool-cases s.in_session) [
  | inl busy ↦ absurd (ground (arith, e))
  | inr waits ↦
      subst (Hands s []) (some_injective (rw (waits, accept_user) at e))
        ((omega (arith, h.1 waits goes), λ idle. absurd (ground arith)), refl)
]
serve-Hands user_error s s' h goes e = elim (Bool-cases s.in_session) [
  | inl busy ↦ absurd (ground (arith, e))
  | inr waits ↦
      subst (Hands s []) (some_injective (ap (λ b. if b then none else some s) (sym waits) ∙ e))
        (h, sym (append-nil (all_nodes s)))
]
serve-Hands session_over s s' h goes e = elim (Bool-cases s.in_session) [
  | inl busy ↦
      subst (Hands s []) (some_injective (rw (busy, end_session) at e))
        ((h.0, λ idle over. absurd (ground arith)), sym (append-nil (all_nodes s)))
  | inr waits ↦ absurd (ground (arith, e))
]

accepted-cons :
    (e : ServerEvent) (es : List ServerEvent) → accepted (e ∷ es) ≡ accepted (e ∷ []) ++ accepted es
accepted-cons (node_accepted node) es = refl
accepted-cons node_error es = refl
accepted-cons (user_accepted user) es = refl
accepted-cons user_error es = refl
accepted-cons session_over es = refl

round-Hands :
    (e : ServerEvent) (s s' : Server)
    → HasOne s
    → round e s ≡ some s'
    → Hands s (accepted (e ∷ [])) s'
unfolding round
round-Hands ev s s' h e = elim (Bool-cases s.ended) [
  | inl over ↦ absurd (ground (arith, e))
  | inr goes ↦ serve-Hands ev s s' h goes (ap (λ b. if b then none else serve ev s) (sym goes) ∙ e)
]

serve_all-Hands :
    (es : List ServerEvent) (s s' : Server)
    → HasOne s
    → serve_all es s ≡ some s'
    → Hands s (accepted es) s'
unfolding serve_all
serve_all-Hands [] s s' h e =
    subst (Hands s []) (some_injective e) (h, sym (append-nil (all_nodes s)))
serve_all-Hands (ev ∷ es) s s' h e = elim (Option-cases (round ev s)) [
  | inl stops ↦ absurd (ground (arith, e))
  | inr (t, served) ↦
      let (h', kept) = round-Hands ev s t h served in
      let (h'', kept') = serve_all-Hands es t s' h' (rw (served, serve_all) at e) in
      (
        h'',
        kept'
            ∙ ap (λ l. l ++ accepted es) kept
            ∙ append_assoc (all_nodes s) (accepted (ev ∷ [])) (accepted es)
            ∙ ap (λ l. all_nodes s ++ l) (sym (accepted-cons ev es)),
      )
]

-- In every run of a server from its start, the nodes that users were given, followed by those that it
-- keeps, are the nodes that it accepted, each once and in order.
pub serve_all-IsHanded :
    (es : List ServerEvent) (s : Server)
    → serve_all es fresh_server ≡ some s
    → handed s.sessions ++ s.nodes ≡ accepted es
serve_all-IsHanded es s e = (serve_all-Hands es fresh_server s (omega arith, λ idle goes. refl) e).1
