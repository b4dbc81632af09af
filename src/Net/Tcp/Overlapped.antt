-- ===== src/Net/Tcp/Overlapped.antt =====
-- src/ice/net/tcp/socket.cpp, on Windows: `tcp::send` with overlapped calls.
use ice_test.Base.{
  ℕ, zero, suc, ◌+◌, ◌-◌, ◌%◌, ◌^◌, ◌==◌, ltb, Bool, true, false, ◌&&◌, ◌||◌, List, ◌++◌, take,
  drop, Option, none, some, if◌then◌else◌,
}
use ice_test.Event.{Outcome, done, fail}
use ice_test.Event.Await.{State}
use ice_test.Net.Tcp.{Buffer, add_size, failed}

-- What `WSASend` comes to: the bytes taken at once, `ERROR_IO_PENDING`, or an error.
pub data Started : Type 0 where
  sent : ℕ → Started
  pending : Started
  refused : ℕ → Started

-- `tcp::send`; `wire` is what the kernel has taken so far.
pub record Sender : Type 0 where
  pub buffer_ : Buffer
  pub size_ : ℕ
  pub bytes_ : ℕ
  pub wire : List ℕ

-- The buffer's size is an `unsigned long`, of 32 bits.
abbrev pub sub_long : ℕ → ℕ → ℕ
sub_long a b = (a + 2 ^ 32 - b) % 2 ^ 32

-- What one round of the loop in `suspend` does: go on, or return.
pub data Round : Type 0 where
  again : State Sender → Round
  returns : State Sender → Bool → Round

module _ (bytes : List ℕ) where
  unfoldable pub advance : ℕ → Sender → Sender
  advance n o = record o {
    buffer_ = record { offset = o.buffer_.offset + n; size = sub_long o.buffer_.size n };
    size_ = add_size o.size_ n;
    bytes_ = n;
    wire = o.wire ++ take n (drop o.buffer_.offset bytes);
  }

  unfoldable pub round : Started → State Sender → Round
  unfolding advance
  round pending s = returns s true
  round (refused errno) s = returns (failed errno s) false
  round (sent n) s =
      let s' = record s { own = advance n s.own } in
      if n == 0 || s'.own.buffer_.size == 0 then returns s' false else again s'

  -- `suspend`: `none` if the rounds given are not enough.
  unfoldable pub suspend : (ℕ → Started) → ℕ → ℕ → State Sender → Option (State Sender × Bool)
  unfolding round
  suspend answer i zero s = none
  suspend answer i (suc fuel) s =
      let rest = suspend answer (suc i) fuel in
      if ltb 0 s.own.buffer_.size
      then elim (round (answer i) s) [ again s' ↦ rest s' | returns s' waits ↦ some (s', waits) ]
      else some (s, false)

  -- `resume`, by the answer of `GetOverlappedResult`: `buffer_.data` moves on and back again.
  unfoldable pub resume : Outcome → State Sender → State Sender × Bool
  resume (fail errno) s = (failed errno s, true)
  resume (done n) s =
      let own = record s.own {
        buffer_ = record s.own.buffer_ { offset = s.own.buffer_.offset + n - n };
        size_ = add_size s.own.size_ n;
        bytes_ = n;
        wire = s.own.wire ++ take n (drop s.own.buffer_.offset bytes);
      } in
      (record s { own = own }, if ltb 0 n && ltb 0 own.buffer_.size then false else true)
