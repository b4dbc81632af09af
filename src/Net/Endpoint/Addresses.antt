-- ===== src/Net/Endpoint/Addresses.antt =====
-- src/ice/net/endpoint.cpp: what an endpoint made from a host and a port gives back.
use ice_test.Base.{
  ℕ, ◌^◌, ◌<◌, ◌≡◌, inl, inr, refl, true, false, List, [], ◌∷◌, take, ◌==◌, arith, Bool-cases, sym,
  ◌∙◌,
}
use ice_test.Net.Errno.{Errno}
use ice_test.Net.Endpoint.{
  Family, unspecified, inet, inet6, Endpoint, Pton, address, malformed, refused, made, of_host,
  has_colon, with_inet, with_inet6, port, family, finds, begins, finish, copy, assign, htons, ntohs,
}

-- A text with no zero byte.
abbrev pub IsText : List ℕ → Type 0
IsText [] = Unit {0}
IsText (c ∷ cs) = ((c == 0) ≡ false) × IsText cs

begins_zero : (ps cs : List ℕ) → IsText cs → begins (58 ∷ 0 ∷ ps) cs ≡ false
begins_zero ps [] t = refl
begins_zero ps (c ∷ []) t = ground arith
begins_zero ps (c ∷ d ∷ cs) t = ground (arith, t.1)

finds_zero : (ps cs : List ℕ) → IsText cs → finds (58 ∷ 0 ∷ ps) cs ≡ false
finds_zero ps [] t = refl
finds_zero ps (c ∷ cs) t = rw (begins_zero ps (c ∷ cs) t) (finds_zero ps cs t.1)

ntohs-htons : (p : ℕ) → p < 2 ^ 16 → ntohs (htons p) ≡ p
ntohs-htons p h = omega arith

made_of_address :
    (e : Errno) (with_address : List ℕ → Endpoint) (r : Pton) (x : Endpoint)
    → finish e with_address r ≡ made x
    → (a : List ℕ) × (r ≡ address a) × (x ≡ with_address a)
made_of_address e with_address (address a) x q = (a, refl, cc)
made_of_address e with_address malformed x q = absurd (cc)
made_of_address e with_address (refused errno) x q = absurd (cc)

module _ (e : Errno) (inet_pton : Family → List ℕ → Pton) (beyond host : List ℕ) (p : ℕ) where
  of_host_inet :
      has_colon e inet_pton beyond host ≡ false
      → of_host e inet_pton beyond host p ≡ finish e (with_inet p) (inet_pton inet host)
  unfolding of_host
  of_host_inet no_colon = rw (no_colon, of_host) refl

  of_host_inet6 :
      has_colon e inet_pton beyond host ≡ true
      → of_host e inet_pton beyond host p ≡ finish e (with_inet6 p) (inet_pton inet6 host)
  unfolding of_host
  of_host_inet6 colon = rw (colon, of_host) refl

  -- An endpoint that the constructor makes from a host and a port below 2 ^ 16 has that port,
  -- whatever the host and the answer of inet_pton.
  pub port-of_host :
      (x : Endpoint) → p < 2 ^ 16 → of_host e inet_pton beyond host p ≡ made x → port x ≡ p
  unfolding port
  port-of_host x h success = elim (Bool-cases (has_colon e inet_pton beyond host)) [
    | inl colon ↦
        let (a, answer, same) =
          made_of_address e (with_inet6 p) (inet_pton inet6 host) x
            (sym (of_host_inet6 colon) ∙ success) in
        rw (same, port) (ntohs-htons p h)
    | inr no_colon ↦
        let (a, answer, same) =
          made_of_address e (with_inet p) (inet_pton inet host) x
            (sym (of_host_inet no_colon) ∙ success) in
        rw (same, port) (ntohs-htons p h)
  ]

  -- If the host has no zero byte and the constructor makes an endpoint, then it is one of AF_INET,
  -- and inet_pton has read the host as an AF_INET address, even if the host has a colon.
  pub of_host_text :
      (x : Endpoint)
      → IsText host
      → of_host e inet_pton beyond host p ≡ made x
      → (family x ≡ inet) × (inet_pton inet host ≡ address x.storage_.sin_addr)
  unfolding family
  of_host_text x text success =
      let (a, answer, same) =
        made_of_address e (with_inet p) (inet_pton inet host) x
          (sym (of_host_inet (finds_zero (take 3 beyond) host text)) ∙ success) in
      rw (same, family) (refl, answer)

-- A copy of any endpoint has no family and port 0, and an assignment leaves the family that the
-- target had.
pub copy_forgets :
    (this other : Endpoint)
    → (family (copy other) ≡ unspecified)
      × (port (copy other) ≡ 0)
      × (family (assign this other) ≡ family this)
unfolding copy assign family port
copy_forgets this other = (refl, refl, refl)
