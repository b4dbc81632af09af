-- ===== src/Net/Ssh/Channel.antt =====
-- src/ice/net/ssh/channel.cpp and session.cpp: the ends of the loops, and what `write` puts on the wire.
use ice_test.Base.{
  ℕ, suc, ◌+◌, ◌%◌, ◌^◌, ◌≤◌, ◌<◌, ◌≡◌, refl, ◌∙◌, true, false, List, [], ◌++◌, take, length, none,
  some, ltb, Bool-cases, inl, inr, if◌then◌else◌, arith,
}
use ice_test.Base.Int.{ℤ, pos, ◌==ℤ◌, ==ℤ_iff}
use ice_test.Net.Socket.Rounds.{rounds_end}
use ice_test.Net.Ssh.{Answer, co_returns, co_throws, exec, zero_round, write, write_from, Writing}

module _ (eagain : ℤ) (bytes : List ℕ) (answer : ℕ → ℤ) where
  write_step :
      (i fuel n : ℕ) (s : Writing)
      → ltb s.written (length bytes) ≡ true
      → answer i ≡ pos n
      → write_from eagain bytes answer i (suc fuel) s
        ≡ write_from eagain bytes answer
            (suc i)
            fuel
            (record { written = (s.written + n) % 2 ^ 64; wire = s.wire ++ take n bytes })
  unfolding write_from
  write_step i fuel n s lt q = rw (lt, q, write_from) refl

  write_end :
      (i fuel : ℕ) (s : Writing)
      → ltb s.written (length bytes) ≡ false
      → write_from eagain bytes answer i (suc fuel) s ≡ some (co_returns s)
  unfolding write_from
  write_end i fuel s le = rw (le, write_from) refl

  -- If the first call of a write takes m bytes, fewer than the data has, and the second one takes
  -- n, so that m and n together reach the size of the data and are below 2 ^ 64, then write
  -- returns, and what it has put on the wire is the first m bytes of the data and then again its
  -- first n bytes.
  pub write_repeats :
      (m n : ℕ)
      → m < length bytes
      → length bytes ≤ m + n
      → m + n < 2 ^ 64
      → answer 0 ≡ pos m
      → answer 1 ≡ pos n
      → write eagain bytes answer 3
        ≡ some (co_returns (record { written = m + n; wire = take m bytes ++ take n bytes }))
  unfolding write
  write_repeats m n less enough fits q r =
      let start : Writing = record { written = 0; wire = [] } in
      let first : Writing = record { written = (0 + m) % 2 ^ 64; wire = take m bytes } in
      let second : Writing = record {
        written = ((0 + m) % 2 ^ 64 + n) % 2 ^ 64;
        wire = take m bytes ++ take n bytes;
      } in
      let kept : (0 + m) % 2 ^ 64 ≡ m = omega (arith, fits) in
      let sum : ((0 + m) % 2 ^ 64 + n) % 2 ^ 64 ≡ m + n = omega (arith, fits, kept) in
      write_step 0 2 m start (ground (arith, less)) q
      ∙ (write_step 1 1 n first (ground (arith, less, kept)) r
          ∙ (write_end 2 0 second (ground (arith, enough, sum)) ∙ rw sum refl))

-- The answers before the one that counts ask to be called again.
module _ (eagain : ℤ) (answer : ℕ → ℤ) (j fuel : ℕ) (not_zero : (eagain ==ℤ pos 0) ≡ false)
    (again : (i : ℕ) → i < j → answer i ≡ eagain) (last : (answer j ==ℤ eagain) ≡ false)
    (enough : j < fuel) where
  -- What the loop comes to.
  abbrev pub ended : ℤ → Answer (Unit {0})
  ended rv = if rv ==ℤ pos 0 then co_returns tt else co_throws (record { code = rv })

  waits_at : (i : ℕ) → i < j → zero_round eagain (answer i) ≡ none
  waits_at i lt = rw (again i lt, not_zero) (rw ((==ℤ_iff eagain eagain).1 refl) refl)

  ends_at : zero_round eagain (answer j) ≡ some (ended (answer j))
  ends_at = elim (Bool-cases (answer j ==ℤ pos 0)) [
    | inl success ↦ rw success refl
    | inr error ↦ rw (error, last) refl
  ]

  -- If the calls for the first j rounds ask to be called again and the next one does not, then more
  -- than j rounds are enough for exec, which returns if that call answers 0 and throws its answer
  -- otherwise. The number of EAGAIN is not 0.
  pub exec_ends : exec eagain answer fuel ≡ some (ended (answer j))
  unfolding exec
  exec_ends =
      rounds_end (zero_round eagain) answer j (ended (answer j)) waits_at ends_at fuel enough
