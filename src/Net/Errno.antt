-- ===== src/Net/Errno.antt =====
-- The error numbers that src/ice/net tells apart. Their values are the platform's.
use ice_test.Base.{ℕ, ◌^◌, ◌≤◌, ◌<◌, ◌≡◌, Bool, ◌||◌, ◌==◌, some}
use ice_test.Event.{Kernel, done, fail}

pub record Errno : Type 0 where
  pub eagain : ℕ
  pub eintr : ℕ
  pub econnreset : ℕ
  pub einprogress : ℕ
  pub einval : ℕ

-- The values on Linux.
abbrev pub linux : Errno
linux = record { eagain = 11; eintr = 4; econnreset = 104; einprogress = 115; einval = 22 }

-- `errno == EAGAIN || errno == EINTR`
abbrev pub is_transient : Errno → ℕ → Bool
is_transient e errno = errno == e.eagain || errno == e.eintr

-- What POSIX says of the calls: a failure has a positive error number, here below 2 ^ 28 as on every
-- system, and a transfer does not pass the size that was asked for.
pub record IsPosix (k : Kernel) : Type 0 where
  pub io_errno : (t size errno : ℕ) → k.io t size ≡ fail errno → (0 < errno) × (errno < 2 ^ 28)
  pub ctl_errno : (t errno : ℕ) → k.ctl t ≡ some errno → (0 < errno) × (errno < 2 ^ 28)
  pub io_count : (t size count : ℕ) → k.io t size ≡ done count → count ≤ size
