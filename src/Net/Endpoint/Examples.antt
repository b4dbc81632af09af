-- ===== src/Net/Endpoint/Examples.antt =====
-- src/ice/net/endpoint.cpp: the host 1.2, as short as an example may be, at port 8080.
use ice_test.Base.{◌≡◌, ℕ, List, ◌∷◌, [], refl, Option, some}
use ice_test.Net.Errno.{linux}
use ice_test.Net.Endpoint.{
  Family, Pton, address, with_inet, family, made, of_host, Endpoint, print, host, port,
}
use ice_test.Net.Endpoint.Printed.{print_determines}

abbrev text : List ℕ
text = 49 ∷ 46 ∷ 50 ∷ []

abbrev parsed : List ℕ
parsed = 1 ∷ 0 ∷ 0 ∷ 2 ∷ []

abbrev pton : Family → List ℕ → Pton
pton _ _ = address parsed

abbrev beyond : List ℕ
beyond = 37 ∷ 115 ∷ 0 ∷ []

is_made : of_host linux pton beyond text 8080 ≡ made (with_inet 8080 parsed)
unfolding of_host
is_made = refl

-- Two endpoints that differ where an IPv4 address does not look.
abbrev ntop : Family → List ℕ → ℕ → Option (List ℕ)
ntop family a size = some (49 ∷ 46 ∷ 50 ∷ 0 ∷ 7 ∷ [])

abbrev plain : Endpoint
plain = with_inet 8080 parsed

abbrev with_rest : Endpoint
with_rest = record plain { storage_ = record plain.storage_ { sin6_addr = 1 ∷ [] } }

-- 1.2:8080
plain_text : print ntop plain ≡ 49 ∷ 46 ∷ 50 ∷ 58 ∷ 56 ∷ 48 ∷ 56 ∷ 48 ∷ []
unfolding print
plain_text = refl

same_text : print ntop plain ≡ print ntop with_rest
unfolding print
same_text = refl

print_determines_example : (host ntop plain ≡ host ntop with_rest) × (port plain ≡ port with_rest)
print_determines_example = print_determines ntop plain with_rest same_text
