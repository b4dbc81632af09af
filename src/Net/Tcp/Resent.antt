-- ===== src/Net/Tcp/Resent.antt =====
-- src/ice/net/tcp/socket.cpp, `tcp::send` on Windows: what leaves after a completion with a part of the data.
use ice_test.Base.{
  ℕ, ◌+◌, ◌-◌, ◌^◌, ◌<◌, ◌≡◌, refl, ◌==◌, ltb, true, false, List, ◌++◌, take, drop, some, arith,
}
use ice_test.Event.{done}
use ice_test.Event.Await.{State}
use ice_test.Net.Tcp.{add_size}
use ice_test.Net.Tcp.Overlapped.{sent, Sender, sub_long, advance, suspend, resume, round}

module _ (bytes : List ℕ) where
  resume_lem :
      (n : ℕ) (s : State Sender)
      → 0 < n
      → 0 < s.own.buffer_.size
      → resume bytes (done n) s ≡ (
        record s {
          own = record s.own {
            size_ = add_size s.own.size_ n;
            bytes_ = n;
            wire = s.own.wire ++ take n (drop s.own.buffer_.offset bytes);
          };
        },
        false,
      )
  unfolding resume
  resume_lem n s some_sent some_left =
      let back : s.own.buffer_.offset + n - n ≡ s.own.buffer_.offset = omega arith in
      let sent_test : ltb 0 n ≡ true = ground (arith, some_sent) in
      let left_test : ltb 0 s.own.buffer_.size ≡ true = ground (arith, some_left) in
      rw (back, sent_test, left_test) refl

  suspend_lem :
      (s : State Sender)
      → 0 < s.own.buffer_.size
      → s.own.buffer_.size < 2 ^ 32
      → suspend bytes (λ i. sent s.own.buffer_.size) 0 1 s
        ≡ some (record s { own = advance bytes s.own.buffer_.size s.own }, false)
  unfolding suspend round advance
  suspend_lem s some_left small =
      let left_test : ltb 0 s.own.buffer_.size ≡ true = ground (arith, some_left) in
      let none_left : (s.own.buffer_.size == 0) ≡ false = ground (arith, some_left) in
      let all_gone : (sub_long s.own.buffer_.size s.own.buffer_.size == 0) ≡ true = ground arith in
      rw (left_test, none_left, all_gone) refl

  -- On Windows, when a send with something left in its buffer is resumed with n bytes, n above 0,
  -- then resume asks for another round, the next call of WSASend passes the same buffer, and if it
  -- takes the whole of it, then what has left since is the first n bytes of the buffer and then
  -- again the whole buffer. The size of the buffer is below 2 ^ 32.
  pub resume_resends :
      (n : ℕ) (s : State Sender)
      → 0 < n
      → 0 < s.own.buffer_.size
      → s.own.buffer_.size < 2 ^ 32
      → let r = resume bytes (done n) s in
        (r.1 ≡ false)
        × (suspend bytes (λ i. sent s.own.buffer_.size) 0 1 r.0
            ≡ some (record r.0 { own = advance bytes s.own.buffer_.size r.0.own }, false))
        × ((advance bytes s.own.buffer_.size r.0.own).wire
            ≡ (s.own.wire ++ take n (drop s.own.buffer_.offset bytes))
              ++ take s.own.buffer_.size (drop s.own.buffer_.offset bytes))
  unfolding advance
  resume_resends n s some_sent some_left small = rw (resume_lem n s some_sent some_left) (
    refl,
    suspend_lem
        (record s {
          own = record s.own {
            size_ = add_size s.own.size_ n;
            bytes_ = n;
            wire = s.own.wire ++ take n (drop s.own.buffer_.offset bytes);
          };
        })
        some_left small,
    refl,
  )
