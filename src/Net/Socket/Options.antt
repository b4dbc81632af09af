-- ===== src/Net/Socket/Options.antt =====
-- include/ice/net/socket.h and src/ice/net/socket.cpp: `get` and `set` of a socket with an object of
-- include/ice/net/option.h, on POSIX systems. The options of the kernel are a parameter.
use ice_test.Base.{ℕ, ◌+◌, ◌*◌, ◌/◌, ◌%◌, ◌^◌, false, List, [], ◌∷◌, take, length, overwrite}
use ice_test.Base.Int.{ℤ}
use ice_test.ErrorCode.{ErrorCode, to_int}
use ice_test.Event.{Outcome, done, fail}
use ice_test.Net.Option.{Kind, Level, Name, level, name, OptionValue, of_pattern}
use ice_test.Net.Socket.{option_error}

-- The bytes of an `int`, and the `int` of four bytes.
abbrev pub int_bytes : ℤ → List ℕ
int_bytes value =
    to_int value % 2 ^ 8
    ∷ to_int value / 2 ^ 8 % 2 ^ 8
    ∷ to_int value / 2 ^ 16 % 2 ^ 8
    ∷ to_int value / 2 ^ 24
    ∷ []

abbrev pub of_bytes : List ℕ → ℕ
of_bytes [] = 0
of_bytes (b ∷ bytes) = b + 2 ^ 8 * of_bytes bytes

-- `option`, as a socket sees it: the memory that `data()` points to, whose size is `capacity()`, and
-- `size_`.
pub record Object : Type 0 where
  pub kind : Kind
  pub data_ : List ℕ
  pub size_ : ℕ

abbrev pub capacity : Object → ℕ
capacity o = length o.data_

-- An object whose value is an `int`, and the value that it holds.
abbrev pub object : Kind → OptionValue → Object
object kind o = record { kind = kind; data_ = int_bytes o.value_; size_ = o.size_ }

abbrev pub held : Object → OptionValue
held o = record { value_ = of_pattern (of_bytes o.data_); size_ = o.size_ }

-- What `getsockopt` answers: the bytes that it has written to the memory, whose number it stores in
-- the size, or `errno`.
pub data Answered : Type 0 where
  gives : List ℕ → Answered
  refuses : ℕ → Answered

-- The options of a socket in the kernel, in its states `K`.
pub record Options (K : Type 0) : Type 0 where
  pub getsockopt : K → Level → Name → (size : ℕ) → Answered
  pub setsockopt : K → Level → Name → List ℕ → Outcome × K

module _ {K : Type 0} (kernel : Options K) where
  -- The end of `get(level, name, data, size)`.
  abbrev pub got : Object → Answered → Object × ErrorCode
  got o (refuses errno) = (o, option_error (fail errno))
  got o (gives bytes) =
      (record o { data_ = overwrite bytes o.data_; size_ = length bytes }, option_error (done 0))

  -- `get(net::option& option)`
  unfoldable pub get : K → Object → Object × ErrorCode
  unfolding level name
  get k o =
      let o = record o { size_ = capacity o } in
      got o (kernel.getsockopt k (level false o.kind) (name o.kind) o.size_)

  -- `set(const net::option& option)`
  unfoldable pub set : K → Object → K × ErrorCode
  unfolding level name
  set k o =
      let (answer, k') =
        kernel.setsockopt k (level false o.kind) (name o.kind) (take o.size_ o.data_) in
      (k', option_error answer)

  -- The two calls for an option of a kind.
  abbrev pub getsockopt_of : K → Kind → ℕ → Answered
  getsockopt_of k kind size = kernel.getsockopt k (level false kind) (name kind) size

  abbrev pub setsockopt_of : K → Kind → List ℕ → Outcome × K
  setsockopt_of k kind bytes = kernel.setsockopt k (level false kind) (name kind) bytes
