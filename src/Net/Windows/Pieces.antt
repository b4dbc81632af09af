-- ===== src/Net/Windows/Pieces.antt =====
-- src/ice/net/udp/socket.cpp, on Windows: the loop in `suspend` of `udp::send`.
use ice_test.Base.{
  ℕ, zero, suc, ◌+◌, ◌%◌, ◌^◌, ◌≤◌, ◌<◌, ◌≡◌, refl, sym, ap, ◌∙◌, subst, ◌==◌, ltb, ◌||◌, Bool,
  true, false, List, [], ◌∷◌, ◌++◌, take, drop, length, Option, some, ◌⊎◌, inl, inr, arith,
  Bool-cases, ==_iff,
}
use ice_test.ErrorCode.{to_bool}
use ice_test.Event.Await.{State}
use ice_test.Net.Tcp.{failed}
use ice_test.Net.Tcp.Complete.{errno-to_bool}
use ice_test.Net.Tcp.Overlapped.{Started, sent, pending, refused}
use ice_test.Net.Tcp.Send.{take-add}
use ice_test.Net.Windows.Datagram.{Sender, Round, again, returns, advance, round, suspend}
use ice_test.Net.Windows.Received.{IsError}

abbrev pub joined : List (List ℕ) → List ℕ
joined [] = []
joined (d ∷ ds) = d ++ joined ds

joined_last : (ds : List (List ℕ)) (d : List ℕ) → joined (ds ++ (d ∷ [])) ≡ joined ds ++ d
joined_last [] [] = refl
joined_last [] (c ∷ d) = ap (◌∷◌ c) (joined_last [] d)
joined_last ([] ∷ ds) d = joined_last ds d
joined_last ((c ∷ d') ∷ ds) d = ap (◌∷◌ c) (joined_last (d' ∷ ds) d)

-- The datagrams are the first bytes of the data, cut in pieces.
pub record IsPieces (bytes : List ℕ) (o : Sender) : Type 0 where
  pub pieces : joined o.datagrams ≡ take o.size_ bytes
  pub at_size : o.buffer_.offset ≡ o.size_
  pub left : o.buffer_.size + o.size_ ≡ length bytes

-- What is known of `WSASendTo`.
pub record IsSending (answer : ℕ → ℕ → Started) : Type 0 where
  pub count : (i size n : ℕ) → answer i size ≡ sent n → n ≤ size
  pub errno : (i size errno : ℕ) → answer i size ≡ refused errno → IsError errno

-- Why the loop has ended.
abbrev pub Ended : State Sender × Bool → Type 0
Ended (s, waits) =
    (waits ≡ true)
    ⊎ ((to_bool s.event.ec_ ≡ true) ⊎ ((s.own.buffer_.size ≡ 0) ⊎ (s.own.bytes_ ≡ 0)))

module _ (bytes : List ℕ) (small : length bytes < 2 ^ 32) (answer : ℕ → ℕ → Started)
    (sending : IsSending answer) where
  advance-IsPieces :
      (n : ℕ) (o : Sender)
      → IsPieces bytes o
      → n ≤ o.buffer_.size
      → IsPieces bytes (advance bytes n o)
  unfolding advance
  advance-IsPieces n o h le = record {
    pieces =
        joined_last o.datagrams (take n (drop o.buffer_.offset bytes))
        ∙ rw (at_size, h.pieces, h.at_size) (take-add o.size_ n (o.size_ + n) bytes refl);
    at_size = ground (arith, h.at_size, h.left);
    left = ground (arith, h.left);
  }
    where
      at_size : (o.size_ + n) % 2 ^ 64 ≡ o.size_ + n
      at_size = ground (arith, h.left)

  -- What a round comes to.
  data Went (s : State Sender) : Round → Type 0 where
    stops :
        (s' : State Sender) (waits : Bool)
        → IsPieces bytes s'.own
        → Ended (s', waits)
        → Went s (returns s' waits)
    goes :
        (s' : State Sender)
        → IsPieces bytes s'.own
        → s'.own.buffer_.size < s.own.buffer_.size
        → Went s (again s')

  shrinks :
      (n : ℕ) (o : Sender)
      → IsPieces bytes o
      → n ≤ o.buffer_.size
      → (n == 0 || (advance bytes n o).buffer_.size == 0) ≡ false
      → (advance bytes n o).buffer_.size < o.buffer_.size
  unfolding advance
  shrinks n o h le more = ground (arith, h.left)

  stopped :
      (n : ℕ) (s : State Sender)
      → (n == 0 || (advance bytes n s.own).buffer_.size == 0) ≡ true
      → ((advance bytes n s.own).buffer_.size ≡ 0) ⊎ (n ≡ 0)
  stopped n s stop = elim (Bool-cases (n == 0)) [
    | inl none_taken ↦ inr ((==_iff n 0).0 none_taken)
    | inr some_taken ↦ inl (ground (arith, some_taken, stop))
  ]

  round-Went :
      (i : ℕ) (s : State Sender) (r : Started)
      → IsPieces bytes s.own
      → answer i s.own.buffer_.size ≡ r
      → Went s (round bytes r s)
  unfolding round
  round-Went i s pending h q = stops s true h (inl refl)
  round-Went i s (refused errno) h q =
      stops (failed errno s) false h
        (inr (inl (errno-to_bool errno (sending.errno i s.own.buffer_.size errno q))))
  round-Went i s (sent n) h q =
      let h' = advance-IsPieces n s.own h (sending.count i s.own.buffer_.size n q) in
      elim (Bool-cases (n == 0 || (advance bytes n s.own).buffer_.size == 0)) [
        | inl stop ↦ rw (stop) (
            stops (record s { own = advance bytes n s.own }) false h'
              (inr (inr (stopped n s stop))))
        | inr more ↦ rw (more) (
            goes (record s { own = advance bytes n s.own }) h'
              (shrinks n s.own h (sending.count i s.own.buffer_.size n q) more))
      ]

  after_round : ℕ → ℕ → Round → Option (State Sender × Bool)
  after_round i fuel (again s') = suspend bytes answer (suc i) fuel s'
  after_round i fuel (returns s' waits) = some (s', waits)

  suspend_lem :
      (i fuel : ℕ) (s : State Sender)
      → ltb 0 s.own.buffer_.size ≡ true
      → suspend bytes answer i (suc fuel) s
        ≡ after_round i fuel (round bytes (answer i s.own.buffer_.size) s)
  unfolding suspend after_round
  suspend_lem i fuel s some_left = by_round (round bytes (answer i s.own.buffer_.size) s) refl
    where
      by_round :
          (r : Round)
          → round bytes (answer i s.own.buffer_.size) s ≡ r
          → suspend bytes answer i (suc fuel) s ≡ after_round i fuel r
      by_round (again s') q = rw (some_left, q, suspend) refl
      by_round (returns s' waits) q = rw (some_left, q, suspend) refl

  -- The result of the loop.
  Ends : Option (State Sender × Bool) → Type 0
  Ends result = (r : State Sender × Bool) × (result ≡ some r) × IsPieces bytes r.0.own × Ended r

  after_round-Ends :
      (i fuel : ℕ) (s : State Sender) (r : Round)
      → s.own.buffer_.size < suc fuel
      → ((s' : State Sender)
          → IsPieces bytes s'.own
          → s'.own.buffer_.size < fuel
          → Ends (suspend bytes answer (suc i) fuel s'))
      → Went s r
      → Ends (after_round i fuel r)
  unfolding after_round Ends
  after_round-Ends i fuel s r lt rest (stops s' waits h' ended) = ((s', waits), refl, h', ended)
  after_round-Ends i fuel s r lt rest (goes s' h' less) = rest s' h' (omega (arith, less, lt))

  -- On Windows, the loop in suspend of a datagram send ends in fewer rounds than the buffer has
  -- bytes plus two: it waits for a completion, or has an error, or has sent everything, or its last
  -- call has taken nothing, and the datagrams sent are consecutive pieces from the start of the
  -- data, of size_ bytes in all. WSASendTo takes no more than it is given, its errors are positive
  -- and below 2 ^ 28, and the data is shorter than 2 ^ 32.
  pub suspend_ends :
      (fuel i : ℕ) (s : State Sender)
      → IsPieces bytes s.own
      → s.own.buffer_.size < fuel
      → (r : State Sender × Bool) × (suspend bytes answer i fuel s ≡ some r)
        × IsPieces bytes r.0.own
        × Ended r
  unfolding suspend after_round Ends
  suspend_ends zero i s h lt = absurd (omega arith)
  suspend_ends (suc fuel) i s h lt = elim (Bool-cases (ltb 0 s.own.buffer_.size)) [
    | inr none_left ↦
        ((s, false), rw (none_left, suspend) refl, h, inr (inr (inl (ground (arith, none_left)))))
    | inl some_left ↦ subst Ends (sym (suspend_lem i fuel s some_left)) (
        after_round-Ends i fuel s (round bytes (answer i s.own.buffer_.size) s) lt
          (λ s' h' lt'. suspend_ends fuel (suc i) s' h' lt')
          (round-Went i s (answer i s.own.buffer_.size) h refl))
  ]
