-- ===== src/Connection/Pipe.antt =====
-- A concrete socket for the tests of server/Connection.hpp and of what uses it: it holds the bytes that
-- are to come and those that were sent, and moves at most three at a time.
use Prim.Native.Nat.{min}
use distributed_computing_fr.Prelude.{
  ℕ, ◌≤◌, ◌<◌, ◌≡◌, refl, sym, none, some, List, [], ◌∷◌, ◌++◌, length, take, drop, arith,
  length-take, take-append-drop,
}
use distributed_computing_fr.Connection.Interface.{eof, Outcome, Wrote, Socket, SocketLaws}

abbrev pub Pipe : Type 0
Pipe = List ℕ × List ℕ

abbrev pub pipe_read : ℕ → Pipe → Outcome Pipe
pipe_read n ([], out) = record { ec = some eof; bytes = []; state = ([], out) }
pipe_read n (b ∷ bs, out) = record {
  ec = none;
  bytes = take (min n 3) (b ∷ bs);
  state = (drop (min n 3) (b ∷ bs), out);
}

abbrev pub pipe_write : List ℕ → Pipe → Wrote Pipe
pipe_write bs (into, out) = record {
  ec = none;
  count = min 3 (length bs);
  state = (into, out ++ take (min 3 (length bs)) bs);
}

abbrev pub pipe : Socket
pipe = record { State = Pipe; read_some = pipe_read; write_some = pipe_write }

pub pipe_read_le : (n : ℕ) (s : Pipe) → length (pipe_read n s).bytes ≤ n
pipe_read_le n ([], out) = omega arith
pipe_read_le n (b ∷ bs, out) = omega (arith, length-take (min n 3) (b ∷ bs))

pub pipe_read_front : (n : ℕ) (s : Pipe) → s.0 ≡ (pipe_read n s).bytes ++ (pipe_read n s).state.0
pipe_read_front n ([], out) = refl
pipe_read_front n (b ∷ bs, out) = sym (take-append-drop (min n 3) (b ∷ bs))

pub pipe_read_progress :
    (n : ℕ) (s : Pipe) → (pipe_read n s).ec ≡ none → 0 < n → 0 < length (pipe_read n s).bytes
pipe_read_progress n ([], out) e h = absurd (cc)
pipe_read_progress n (b ∷ bs, out) e h = omega (arith, length-take (min n 3) (b ∷ bs))

pub pipe_read_outgoing : (n : ℕ) (s : Pipe) → (pipe_read n s).state.1 ≡ s.1
pipe_read_outgoing n ([], out) = refl
pipe_read_outgoing n (b ∷ bs, out) = refl

abbrev pub pipe_laws : SocketLaws pipe
pipe_laws = record {
  incoming = λ s. s.0;
  outgoing = λ s. s.1;
  read_le = pipe_read_le;
  read_front = pipe_read_front;
  read_progress = pipe_read_progress;
  read_outgoing = pipe_read_outgoing;
  write_le = λ bs s. omega arith;
  write_back = λ bs s. refl;
  write_progress = λ bs s e h. omega arith;
  write_incoming = λ bs s. refl;
}
