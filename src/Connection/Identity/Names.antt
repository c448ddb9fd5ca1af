-- ===== src/Connection/Identity/Names.antt =====
-- server/Connection.hpp, `Connection::ID::to_string`: the text names the endpoint.
use distributed_computing_fr.Prelude.{ℕ, ◌≡◌, ◌≢◌, refl, sym, List, [], ◌∷◌, ◌++◌}
use distributed_computing_fr.Connection.Identity.{Endpoint, from_endpoint, to_string}
use distributed_computing_fr.Connection.Identity.Order.{SameEndpoint}

-- No character of the text is this one.
abbrev pub IsFree : ℕ → List ℕ → Type 0
IsFree c [] = Unit {0}
IsFree c (x ∷ xs) = (x ≢ c) × IsFree c xs

-- What `std::to_string` promises of natural numbers: different numbers have different texts, without
-- a dot or a colon.
pub record DecimalLaws (decimal : ℕ → List ℕ) : Type 0 where
  pub no_dot : (n : ℕ) → IsFree 46 (decimal n)
  pub no_colon : (n : ℕ) → IsFree 58 (decimal n)
  pub injective : (m n : ℕ) → decimal m ≡ decimal n → m ≡ n

head_of : {x y : ℕ} {xs ys : List ℕ} → ◌≡◌ {A = List ℕ} (x ∷ xs) (y ∷ ys) → (x ≡ y) × (xs ≡ ys)
head_of e = (cc, cc)

-- Two texts that agree up to a separator which stands in neither of their first parts.
split_at :
    (c : ℕ) (xs ys us vs : List ℕ)
    → IsFree c xs
    → IsFree c us
    → xs ++ (c ∷ ys) ≡ us ++ (c ∷ vs)
    → (xs ≡ us) × (ys ≡ vs)
split_at c [] ys [] vs f g e = (refl, (head_of e).1)
split_at c [] ys (u ∷ us) vs f g e = absurd (g.0 (sym (head_of e).0))
split_at c (x ∷ xs) ys [] vs f g e = absurd (f.0 (head_of e).0)
split_at c (x ∷ xs) ys (u ∷ us) vs f g e =
    let (p, q) = split_at c xs ys us vs f.1 g.1 (head_of e).1 in (cc (p, (head_of e).0), q)

-- If the library's decimal texts differ for different numbers and hold neither a dot nor a colon, then
-- two identifiers with the same text have the same address and port; the bytes that are never written
-- do not show.
to_string-SameEndpoint :
    (decimal : ℕ → List ℕ) (junk junk' : ℕ → ℕ) (a b : Endpoint)
    → DecimalLaws decimal
    → to_string decimal (from_endpoint junk a) ≡ to_string decimal (from_endpoint junk' b)
    → SameEndpoint a b
unfolding to_string from_endpoint
to_string-SameEndpoint decimal junk junk' a b laws e =
    let (e0, r0) = split_at 46 _ _ _ _ (laws.no_dot a.ip0) (laws.no_dot b.ip0) e in
    let (e1, r1) = split_at 46 _ _ _ _ (laws.no_dot a.ip1) (laws.no_dot b.ip1) r0 in
    let (e2, r2) = split_at 46 _ _ _ _ (laws.no_dot a.ip2) (laws.no_dot b.ip2) r1 in
    let (e3, r3) = split_at 58 _ _ _ _ (laws.no_colon a.ip3) (laws.no_colon b.ip3) r2 in
    (
      laws.injective a.ip0 b.ip0 e0,
      laws.injective a.ip1 b.ip1 e1,
      laws.injective a.ip2 b.ip2 e2,
      laws.injective a.ip3 b.ip3 e3,
      laws.injective a.port b.port r3,
    )
