-- ===== src/Connection/Identity/Tests.antt =====
-- Identifiers of connections of server/Connection.hpp.
use distributed_computing_fr.Prelude.{
  ℕ, zero, suc, ◌≡◌, ◌≢◌, refl, sym, ap, ◌∙◌, List, replicate, length-replicate, length, arith,
}
use distributed_computing_fr.Connection.Identity.{Endpoint, from_endpoint, to_string}
use distributed_computing_fr.Connection.Identity.Order.{IsEndpoint}
use distributed_computing_fr.Connection.Identity.Names.{IsFree, DecimalLaws}

abbrev local : Endpoint
local = record { ip0 = 127; ip1 = 0; ip2 = 0; ip3 = 1; port = 8888 }

local-IsEndpoint : IsEndpoint local
local-IsEndpoint = record {
  byte0 = omega arith;
  byte1 = omega arith;
  byte2 = omega arith;
  byte3 = omega arith;
  word = omega arith;
}

-- Numbers as so many strokes.
abbrev strokes : ℕ → List ℕ
strokes n = replicate n 49

strokes-IsFree : (c n : ℕ) → 49 ≢ c → IsFree c (strokes n)
strokes-IsFree c zero h = tt
strokes-IsFree c (suc n) h = (h, strokes-IsFree c n h)

strokes-DecimalLaws : DecimalLaws strokes
strokes-DecimalLaws = record {
  no_dot = λ n. strokes-IsFree 46 n (λ e. absurd (omega (arith, e)));
  no_colon = λ n. strokes-IsFree 58 n (λ e. absurd (omega (arith, e)));
  injective = λ m n e. sym (length-replicate m 49) ∙ ap length e ∙ length-replicate n 49;
}

same_text :
    to_string strokes (from_endpoint (λ i. 0) local)
    ≡ to_string strokes (from_endpoint (λ i. 1) local)
unfolding to_string from_endpoint
same_text = refl
