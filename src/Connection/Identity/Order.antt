-- ===== src/Connection/Identity/Order.antt =====
-- server/Connection.hpp, `Connection::ID`: what its order and its number depend on.
use distributed_computing_fr.Prelude.{
  ℕ, ◌+◌, ◌*◌, ◌<◌, ◌≡◌, ◌≢◌, ◌==◌, ◌∙◌, sym, ap, ap₂, not, Bool-cases, true, false, ltb, inl, inr,
  ◌⊎◌, arith,
}
use distributed_computing_fr.Connection.Identity.{Endpoint, from_endpoint, i64, less}

-- The fields of an endpoint are bytes, and its port has sixteen bits.
pub record IsEndpoint (ep : Endpoint) : Type 0 where
  pub byte0 : ep.ip0 < 256
  pub byte1 : ep.ip1 < 256
  pub byte2 : ep.ip2 < 256
  pub byte3 : ep.ip3 < 256
  pub word : ep.port < 65536

-- The two bytes that are never written, as a number.
abbrev pub unwritten : (ℕ → ℕ) → ℕ
unwritten junk = junk 6 + 256 * junk 7

-- The same address and port.
abbrev pub SameEndpoint : Endpoint → Endpoint → Type 0
SameEndpoint a b =
    (a.ip0 ≡ b.ip0) × (a.ip1 ≡ b.ip1) × (a.ip2 ≡ b.ip2) × (a.ip3 ≡ b.ip3) × (a.port ≡ b.port)

-- How the identifiers of two endpoints compare.
abbrev pub Compares : (ℕ → ℕ) → (ℕ → ℕ) → Endpoint → Endpoint → Type 0
Compares junk junk' a b =
    let here = from_endpoint junk a in
    let there = from_endpoint junk' b in
    ((unwritten junk < unwritten junk') × (less here there ≡ true) × (less there here ≡ false))
    ⊎ ((unwritten junk' < unwritten junk) × (less here there ≡ false) × (less there here ≡ true))
    ⊎ ((unwritten junk ≡ unwritten junk')
        × SameEndpoint a b
        × (less here there ≡ false)
        × (less there here ≡ false))
    ⊎ ((unwritten junk ≡ unwritten junk')
        × (¬ SameEndpoint a b)
        × (less here there ≡ not (less there here)))

-- The part of the number that is written.
abbrev written : Endpoint → ℕ
written ep = ep.ip0 + 256 * ep.ip1 + 65536 * ep.ip2 + 16777216 * ep.ip3 + 4294967296 * ep.port

written_small : (ep : Endpoint) → IsEndpoint ep → written ep < 281474976710656
written_small ep h = omega (arith, h.byte0, h.byte1, h.byte2, h.byte3, h.word)

written-Same :
    (a b : Endpoint) → IsEndpoint a → IsEndpoint b → written a ≡ written b → SameEndpoint a b
written-Same a b ha hb e = (
  omega (arith, ha.byte0, hb.byte0, e),
  omega (arith, ha.byte0, hb.byte0, ha.byte1, hb.byte1, e),
  omega (arith, ha.byte0, hb.byte0, ha.byte1, hb.byte1, ha.byte2, hb.byte2, e),
  omega (arith, ha.byte0, hb.byte0, ha.byte1, hb.byte1, ha.byte2, hb.byte2, ha.byte3, hb.byte3, e),
  omega (arith, ha.byte0, hb.byte0, ha.byte1, hb.byte1, ha.byte2, hb.byte2, ha.byte3, hb.byte3, e),
)

less-written :
    (junk junk' : ℕ → ℕ) (a b : Endpoint)
    → less (from_endpoint junk a) (from_endpoint junk' b)
      ≡ ltb
          (written a + 281474976710656 * unwritten junk)
          (written b + 281474976710656 * unwritten junk')
unfolding less i64 from_endpoint
less-written junk junk' a b = ap₂ (λ x y. ltb x y) (omega arith) (omega arith)

-- Numbers of a low and a high part compare by the high part first.
high_first :
    (x y u v : ℕ)
    → x < 281474976710656
    → u < v
    → (ltb (x + 281474976710656 * u) (y + 281474976710656 * v) ≡ true)
      × (ltb (y + 281474976710656 * v) (x + 281474976710656 * u) ≡ false)
high_first x y u v small h = (ground arith, ground arith)

low_equal :
    (x y u v : ℕ)
    → u ≡ v
    → x ≡ y
    → (ltb (x + 281474976710656 * u) (y + 281474976710656 * v) ≡ false)
      × (ltb (y + 281474976710656 * v) (x + 281474976710656 * u) ≡ false)
low_equal x y u v e h = (ground arith, ground arith)

low_differs :
    (x y u v : ℕ)
    → u ≡ v
    → x ≢ y
    → ltb (x + 281474976710656 * u) (y + 281474976710656 * v)
      ≡ not (ltb (y + 281474976710656 * v) (x + 281474976710656 * u))
low_differs x y u v e h = ground (arith, h)

-- The identifiers of two connections compare by the two bytes that are never written, and only if these
-- agree by the endpoints: then neither is less than the other exactly for the same endpoint.
less-Compares :
    (junk junk' : ℕ → ℕ) (a b : Endpoint) → IsEndpoint a → IsEndpoint b → Compares junk junk' a b
less-Compares junk junk' a b ha hb =
    let u = unwritten junk in
    let v = unwritten junk' in
    elim (Bool-cases (ltb u v)) [
      | inl below ↦ inl (
        ground arith,
        less-written junk junk' a b
            ∙ (high_first (written a) (written b) u v (written_small a ha) (ground arith)).0,
        less-written junk' junk b a
            ∙ (high_first (written a) (written b) u v (written_small a ha) (ground arith)).1,
      )
      | inr not_below ↦ elim (Bool-cases (ltb v u)) [
        | inl above ↦ inr (
            inl (
              ground arith,
              less-written junk junk' a b
                  ∙ (high_first (written b) (written a) v u (written_small b hb) (ground arith)).1,
              less-written junk' junk b a
                  ∙ (high_first (written b) (written a) v u (written_small b hb) (ground arith)).0,
            ))
        | inr not_above ↦
            let same : u ≡ v = ground arith in
            elim (Bool-cases (written a == written b)) [
              | inl equal ↦ inr (
                  inr (
                    inl (
                      same,
                      written-Same a b ha hb (ground arith),
                      less-written junk junk' a b
                          ∙ (low_equal (written a) (written b) u v same (ground arith)).0,
                      less-written junk' junk b a
                          ∙ (low_equal (written a) (written b) u v same (ground arith)).1,
                    )))
              | inr unequal ↦ inr (
                  inr (
                    inr (
                      same,
                      (λ all. different a b (ground arith) all),
                      less-written junk junk' a b
                          ∙ low_differs (written a) (written b) u v same (ground arith)
                          ∙ ap not (sym (less-written junk' junk b a)),
                    )))
            ]
      ]
    ]
  where
    different : (a b : Endpoint) → written a ≢ written b → ¬ SameEndpoint a b
    different a b h (e0, e1, e2, e3, ep) = h (omega arith)
