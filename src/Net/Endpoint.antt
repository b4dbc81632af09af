-- ===== src/Net/Endpoint.antt =====
-- include/ice/net/endpoint.h and src/ice/net/endpoint.cpp: the address of a socket. The conversions of
-- <arpa/inet.h> between text and addresses are parameters.
pub mod Addresses
pub mod Printed
mod Examples
use ice_test.Base.{
  ℕ, ◌+◌, ◌*◌, ◌/◌, ◌%◌, ◌^◌, Bool, true, false, List, [], ◌∷◌, ◌++◌, Option, none, some, take,
  length, ◌==◌, ◌&&◌, ◌||◌, if◌then◌else◌,
}
use ice_test.Base.Int.{ℤ, pos}
use ice_test.ErrorCode.{SystemError, system_error, of_integral}
use ice_test.Net.Errno.{Errno}
use ice_test.Message.Category.{before_nul, decimal_digits}

-- `AF_INET`, `AF_INET6`, and 0 for neither.
pub data Family : Type 0 where
  unspecified inet inet6 : Family

-- `sockaddr_storage`, as far as `sockaddr_in` and `sockaddr_in6` name it: the family and the port, in
-- network order, stand at one place in both.
pub record Storage : Type 0 where
  pub sin_family : Family
  pub sin_port : ℕ
  pub sin_addr : List ℕ
  pub sin6_addr : List ℕ

pub record Endpoint : Type 0 where
  pub storage_ : Storage
  pub size_ : ℕ

-- `sizeof(::sockaddr_in)` and `sizeof(::sockaddr_in6)`
abbrev pub sockaddr_in_size : ℕ
sockaddr_in_size = 16

abbrev pub sockaddr_in6_size : ℕ
sockaddr_in6_size = 28

-- `htons` and `ntohs` on a little-endian machine.
abbrev pub htons : ℕ → ℕ
htons p = p % 2 ^ 8 * 2 ^ 8 + p / 2 ^ 8 % 2 ^ 8

abbrev pub ntohs : ℕ → ℕ
ntohs p = p % 2 ^ 8 * 2 ^ 8 + p / 2 ^ 8 % 2 ^ 8

abbrev pub zeroed : Storage
zeroed = record { sin_family = unspecified; sin_port = 0; sin_addr = []; sin6_addr = [] }

-- `endpoint::endpoint()`
unfoldable pub new_endpoint : Endpoint
new_endpoint = record { storage_ = zeroed; size_ = 0 }

-- `endpoint(const endpoint& other)`: `size_` keeps its initializer.
unfoldable pub copy : Endpoint → Endpoint
copy other = record { storage_ = other.storage_; size_ = 0 }

-- `operator=(const endpoint& other)`: the target, then the source.
unfoldable pub assign : Endpoint → Endpoint → Endpoint
assign this other = record this { storage_ = other.storage_ }

unfoldable pub family : Endpoint → Family
family e =
    if e.size_ == sockaddr_in_size
    then inet
    else if e.size_ == sockaddr_in6_size
    then inet6
    else unspecified

unfoldable pub port : Endpoint → ℕ
port e =
    if e.size_ == sockaddr_in_size
    then ntohs e.storage_.sin_port
    else if e.size_ == sockaddr_in6_size
    then ntohs e.storage_.sin_port
    else 0

-- Whether a text begins with a pattern, and `std::string::find(s, 0, n) != npos` for the first `n`
-- bytes from `s` on.
abbrev pub begins : List ℕ → List ℕ → Bool
begins [] text = true
begins (p ∷ ps) [] = false
begins (p ∷ ps) (c ∷ cs) = (p == c) && begins ps cs

abbrev pub finds : List ℕ → List ℕ → Bool
finds p [] = begins p []
finds p (c ∷ cs) = begins p (c ∷ cs) || finds p cs

-- What `inet_pton` answers: 1 with the address, 0, or -1 with `errno`.
pub data Pton : Type 0 where
  address : List ℕ → Pton
  malformed : Pton
  refused : ℕ → Pton

pub data Made : Type 0 where
  made : Endpoint → Made
  invalid_address : SystemError → Made

-- The end of the constructor.
abbrev pub finish : Errno → (List ℕ → Endpoint) → Pton → Made
finish e with_address (address a) = made (with_address a)
finish e with_address malformed = invalid_address (system_error (of_integral (pos e.einval)))
finish e with_address (refused errno) = invalid_address (system_error (of_integral (pos errno)))

-- What the constructor fills in, around the address that `inet_pton` writes.
abbrev pub with_inet : ℕ → List ℕ → Endpoint
with_inet port a = record {
  storage_ = record zeroed { sin_family = inet; sin_port = htons port; sin_addr = a };
  size_ = sockaddr_in_size;
}

abbrev pub with_inet6 : ℕ → List ℕ → Endpoint
with_inet6 port a = record {
  storage_ = record zeroed { sin_family = inet6; sin_port = htons port; sin6_addr = a };
  size_ = sockaddr_in6_size;
}

module _ (e : Errno) (inet_pton : Family → List ℕ → Pton) (beyond : List ℕ) where
  -- `host.find(":", 0, 5) != npos`: the search reads five bytes from the literal `":"`, which has two;
  -- the next ones are `beyond`.
  abbrev pub has_colon : List ℕ → Bool
  has_colon host = finds (take 5 (58 ∷ 0 ∷ beyond)) host

  -- `endpoint(const std::string& host, std::uint16_t port)`
  unfoldable pub of_host : List ℕ → ℕ → Made
  of_host host port =
      if has_colon host
      then finish e (with_inet6 port) (inet_pton inet6 host)
      else finish e (with_inet port) (inet_pton inet host)

-- `INET_ADDRSTRLEN` and `INET6_ADDRSTRLEN`
abbrev pub inet_addrstrlen : ℕ
inet_addrstrlen = 16

abbrev pub inet6_addrstrlen : ℕ
inet6_addrstrlen = 46

-- What `inet_ntop` has written into the buffer, up to its first zero byte.
unfoldable pub trimmed_at_nul : ℕ → Option (List ℕ) → List ℕ
unfolding before_nul
trimmed_at_nul size none = []
trimmed_at_nul size (some buffer) = before_nul size buffer

module _ (inet_ntop : Family → List ℕ → ℕ → Option (List ℕ)) where
  -- `host`, by what `inet_ntop` writes for a family, an address and the size of a buffer.
  unfoldable pub host : Endpoint → List ℕ
  unfolding trimmed_at_nul
  host e =
      if e.size_ == sockaddr_in_size
      then trimmed_at_nul inet_addrstrlen (inet_ntop inet e.storage_.sin_addr inet_addrstrlen)
      else if e.size_ == sockaddr_in6_size
      then trimmed_at_nul inet6_addrstrlen (inet_ntop inet6 e.storage_.sin6_addr inet6_addrstrlen)
      else []

  -- `operator<<`: what is added to the stream, the host as a C string.
  unfoldable pub print : Endpoint → List ℕ
  unfolding host port decimal_digits before_nul
  print e = before_nul (length (host e)) (host e) ++ (b':' ∷ decimal_digits 5 (port e) [])
