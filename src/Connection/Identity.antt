-- ===== src/Connection/Identity.antt =====
-- server/Connection.hpp, `Connection::ID`: the union of an IPv4 endpoint and a number of 64 bits. Its last
-- two bytes are never written: they are the argument `junk`.
use distributed_computing_fr.Prelude.{ℕ, ◌+◌, ◌*◌, ◌/◌, ◌%◌, Bool, List, [], ◌∷◌, ◌++◌, ltb}
pub mod Order
pub mod Names
pub mod Tests

-- The bytes of the address and the port, as Boost's `endpoint` gives them.
pub record Endpoint : Type 0 where
  pub ip0 : ℕ
  pub ip1 : ℕ
  pub ip2 : ℕ
  pub ip3 : ℕ
  pub port : ℕ

pub record Id64 : Type 0 where
  pub ip0 : ℕ
  pub ip1 : ℕ
  pub ip2 : ℕ
  pub ip3 : ℕ
  pub port : ℕ
  -- The bytes behind the structure.
  pub unwritten0 : ℕ
  pub unwritten1 : ℕ

unfoldable pub from_endpoint : (ℕ → ℕ) → Endpoint → Id64
from_endpoint junk ep = record {
  ip0 = ep.ip0;
  ip1 = ep.ip1;
  ip2 = ep.ip2;
  ip3 = ep.ip3;
  port = ep.port;
  unwritten0 = junk 6;
  unwritten1 = junk 7;
}

-- The other member of the union, the eight bytes as a little-endian number.
unfoldable pub i64 : Id64 → ℕ
i64 id =
    id.ip0
    + 256 * id.ip1
    + 65536 * id.ip2
    + 16777216 * id.ip3
    + 4294967296 * id.port
    + 281474976710656 * id.unwritten0
    + 72057594037927936 * id.unwritten1

-- `operator<`.
unfoldable pub less : Id64 → Id64 → Bool
less id other = ltb (i64 id) (i64 other)

-- `to_string`; how the library shows a number is the argument `decimal`.
unfoldable pub to_string : (ℕ → List ℕ) → Id64 → List ℕ
to_string decimal id =
    decimal id.ip0
    ++ (46
        ∷ (decimal id.ip1
            ++ (46 ∷ (decimal id.ip2 ++ (46 ∷ (decimal id.ip3 ++ (58 ∷ decimal id.port)))))))
