-- ===== src/Net/Endpoint/Printed.antt =====
-- include/ice/net/endpoint.h and src/ice/net/endpoint.cpp: the text of an endpoint.
use ice_test.Base.{
  ℕ, zero, suc, ◌^◌, ◌<◌, ◌≤◌, ◌≡◌, refl, sym, ap, ◌∙◌, ◌==◌, List, [], ◌∷◌, ◌++◌, length, Option,
  none, some, arith, Bool-cases, inl, inr,
}
use mathlib.Core.List.{append_cancel_right}
use ice_test.Message.Category.{before_nul, decimal_digits}
use ice_test.Message.Number.{
  after_last, none_last-decimal_digits, after_last-append, read_digits, read-decimal_digits,
  some_bytes,
}
use ice_test.Net.Endpoint.{
  Family, Endpoint, trimmed_at_nul, host, port, print, inet_addrstrlen, inet6_addrstrlen,
  sockaddr_in_size, sockaddr_in6_size, inet, inet6,
}

-- A text with no zero byte is a C string as it stands.
before_nul-before_nul :
    (limit : ℕ) (str : List ℕ)
    → before_nul (length (before_nul limit str)) (before_nul limit str) ≡ before_nul limit str
unfolding before_nul
before_nul-before_nul zero str = refl
before_nul-before_nul (suc limit) [] = refl
before_nul-before_nul (suc limit) (c ∷ str) = elim (Bool-cases (c == 0)) [
  | inl nul ↦ rw (nul, before_nul) refl
  | inr other ↦ rw (other, before_nul, other) (ap (◌∷◌ c) (before_nul-before_nul limit str))
]

length-before_nul : (limit : ℕ) (str : List ℕ) → length (before_nul limit str) ≤ limit
unfolding before_nul
length-before_nul zero str = omega arith
length-before_nul (suc limit) [] = omega arith
length-before_nul (suc limit) (c ∷ str) = ground (arith, length-before_nul limit str)

port_fits : (e : Endpoint) → port e < 2 ^ 16
unfolding port
port_fits e = ground arith

digits-injective :
    (m n : ℕ) → m < 10 ^ 5 → n < 10 ^ 5 → decimal_digits 5 m [] ≡ decimal_digits 5 n [] → m ≡ n
unfolding read_digits
digits-injective m n lt lt' same =
    sym (read-decimal_digits 5 m [] lt) ∙ (ap (read_digits 0) same ∙ read-decimal_digits 5 n [] lt')

after_last_colon :
    (after : List ℕ) → after_last b':' after ≡ none → after_last b':' (b':' ∷ after) ≡ some after
unfolding after_last
after_last_colon after missing = ground (arith, missing)

-- What follows the last colon.
ends_with_port :
    (before : List ℕ) (p : ℕ)
    → after_last b':' (before ++ (b':' ∷ decimal_digits 5 p [])) ≡ some (decimal_digits 5 p [])
unfolding after_last
ends_with_port before p =
    after_last-append b':' before (b':' ∷ decimal_digits 5 p []) (decimal_digits 5 p [])
      (after_last_colon (decimal_digits 5 p []) (none_last-decimal_digits b':' 5 p [] refl refl))

trimmed_whole :
    (size : ℕ) (written : Option (List ℕ))
    → before_nul (length (trimmed_at_nul size written)) (trimmed_at_nul size written)
      ≡ trimmed_at_nul size written
unfolding trimmed_at_nul before_nul
trimmed_whole size none = refl
trimmed_whole size (some buffer) = before_nul-before_nul size buffer

module _ (inet_ntop : Family → List ℕ → ℕ → Option (List ℕ)) where
  -- The host is a C string, whatever inet_ntop writes.
  host_whole :
      (e : Endpoint) → before_nul (length (host inet_ntop e)) (host inet_ntop e) ≡ host inet_ntop e
  unfolding host before_nul
  host_whole e = elim (Bool-cases (e.size_ == sockaddr_in_size)) [
    | inl four ↦
        rw (four, host)
          (trimmed_whole inet_addrstrlen (inet_ntop inet e.storage_.sin_addr inet_addrstrlen))
    | inr other ↦ elim (Bool-cases (e.size_ == sockaddr_in6_size)) [
      | inl six ↦
          rw (other, six, host)
            (trimmed_whole inet6_addrstrlen (inet_ntop inet6 e.storage_.sin6_addr inet6_addrstrlen))
      | inr neither ↦ rw (other, neither, host) refl
    ]
  ]

  print_lem :
      (e : Endpoint) → print inet_ntop e ≡ host inet_ntop e ++ (b':' ∷ decimal_digits 5 (port e) [])
  unfolding print
  print_lem e = ap (λ h. h ++ (b':' ∷ decimal_digits 5 (port e) [])) (host_whole e)

  ports_same : (x y : Endpoint) → print inet_ntop x ≡ print inet_ntop y → port x ≡ port y
  ports_same x y same =
      let ends : (e : Endpoint)
          → after_last b':' (print inet_ntop e) ≡ some (decimal_digits 5 (port e) []) =
        λ e. ap (after_last b':') (print_lem e) ∙ ends_with_port (host inet_ntop e) (port e) in
      digits-injective (port x) (port y) (omega (arith, port_fits x)) (omega (arith, port_fits y))
        (some_bytes (sym (ends x) ∙ (ap (after_last b':') same ∙ ends y)))

  -- If the stream operator prints the same text for two endpoints, they have the same host, as host
  -- gives it, and the same port, whatever inet_ntop writes; so also where a host has colons.
  pub print_determines :
      (x y : Endpoint)
      → print inet_ntop x ≡ print inet_ntop y
      → (host inet_ntop x ≡ host inet_ntop y) × (port x ≡ port y)
  print_determines x y same =
      let ports = ports_same x y same in
      (
        append_cancel_right (host inet_ntop x) (host inet_ntop y)
            (b':' ∷ decimal_digits 5 (port y) [])
            (sym (rw (sym ports) (print_lem x)) ∙ (same ∙ print_lem y)),
        ports,
      )
