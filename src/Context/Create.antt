-- ===== src/Context/Create.antt =====
-- src/ice/context.cpp: the constructor of a context, on each system. The descriptors that it opens are
-- under handles, which close them when an exception leaves the constructor.
use ice_test.Base.{
  ℕ, ◌+◌, ◌*◌, ◌/◌, ◌%◌, ◌^◌, ◌≤◌, ◌≡◌, ◌↔◌, refl, Bool, true, false, ◌&&◌, ◌||◌, ◌==◌, ltb, not,
  List, [], ◌∷◌, ◌++◌, Option, none, some, if◌then◌else◌, arith,
}
use ice_test.Base.Int.{ℤ, pos, minus_one}
use ice_test.Base.Equality.{int_comparable, number_comparable}
use ice_test.ErrorCode.{Errc, SystemError, system_error, of_integral, of_errc}
use ice_test.Event.{Outcome, done, fail}
use ice_test.Handle.{Handle, of_value, default_handle, valid, move, destroy}

-- What the constructor comes to, with the log of what has been closed.
pub data Created : Type 0 where
  made : (handle_ events_ : Handle ℤ) (closed : List ℤ) → Created
  thrown : SystemError → (closed : List ℤ) → Created

abbrev pub throws_errno : ℕ → List ℤ → Created
throws_errno errno closed = thrown (system_error (of_integral (pos errno))) closed

-- `this = std::move(other)` on handles, up to the end of the temporary and of `other`.
unfoldable pub take_over : Handle ℤ → Handle ℤ → List ℤ → Handle ℤ × List ℤ
unfolding move destroy
take_over this other closed =
    let (temporary, other') = move minus_one other in
    (temporary, destroy minus_one other' (destroy minus_one this closed))

-- On Linux, by the answers of `epoll_create1` and `eventfd`, and the error of `epoll_ctl`.
unfoldable pub create_linux : Outcome → Outcome → Option ℕ → Created
unfolding of_value destroy default_handle take_over
create_linux (fail errno) eventfd ctl =
    throws_errno errno (destroy minus_one (of_value minus_one) [])
create_linux (done fd) (fail errno) ctl =
    throws_errno errno
      (destroy minus_one (of_value (pos fd)) (destroy minus_one (of_value minus_one) []))
create_linux (done fd) (done efd) (some errno) =
    throws_errno errno
      (destroy minus_one (of_value (pos fd)) (destroy minus_one (of_value (pos efd)) []))
create_linux (done fd) (done efd) none =
    let (events_, closed) = take_over (default_handle minus_one) (of_value (pos efd)) [] in
    let (handle_, closed') = take_over (default_handle minus_one) (of_value (pos fd)) closed in
    made handle_ events_ closed'

-- On FreeBSD, by the answer of `kqueue` and the error of `kevent`.
unfoldable pub create_freebsd : Outcome → Option ℕ → Created
unfolding of_value destroy default_handle take_over
create_freebsd (fail errno) kevent = throws_errno errno (destroy minus_one (of_value minus_one) [])
create_freebsd (done fd) (some errno) =
    throws_errno errno (destroy minus_one (of_value (pos fd)) [])
create_freebsd (done fd) none =
    let (handle_, closed) = take_over (default_handle minus_one) (of_value (pos fd)) [] in
    made handle_ (default_handle minus_one) closed

-- What the calls have opened, the last one first.
abbrev pub opened : Outcome → List ℤ
opened (done fd) = pos fd ∷ []
opened (fail errno) = []

-- The descriptors under the handles of a context.
abbrev pub held : Handle ℤ → List ℤ
held h = if valid minus_one h then h.value_ ∷ [] else []

-- A context that is made holds the two descriptors, the second one if there is one, and nothing has been
-- closed; when the constructor throws, just the descriptors opened have been closed.
abbrev pub Accounts : List ℤ → List ℤ → Created → Type 0
Accounts queue events (made handle_ events_ closed) =
    (held handle_ ≡ queue) × (held events_ ≡ events) × (closed ≡ [])
Accounts queue events (thrown error closed) = closed ≡ queue ++ events

abbrev pub is_none : Option ℕ → Bool
is_none none = true
is_none (some errno) = false

abbrev pub is_made : Created → Bool
is_made (made handle_ events_ closed) = true
is_made (thrown error closed) = false

abbrev pub succeeds : Outcome → Bool
succeeds (done fd) = true
succeeds (fail errno) = false

abbrev pub opened_second : Outcome → Outcome → List ℤ
opened_second (fail errno) eventfd = []
opened_second (done fd) eventfd = opened eventfd

-- Whatever epoll_create1, eventfd and epoll_ctl answer, the constructor makes a context exactly if
-- all three succeed; the context then holds the descriptor of epoll in handle_ and that of eventfd
-- in events_, and nothing has been closed; when the constructor throws, just the descriptors that
-- had been opened have been closed, each once.
pub create_linux_keeps :
    (epoll eventfd : Outcome) (ctl : Option ℕ)
    → Accounts (opened epoll) (opened_second epoll eventfd) (create_linux epoll eventfd ctl)
      × (is_made (create_linux epoll eventfd ctl)
          ≡ succeeds epoll && (succeeds eventfd && is_none ctl))
unfolding create_linux valid take_over destroy of_value default_handle
create_linux_keeps (fail errno) eventfd ctl = (refl, refl)
create_linux_keeps (done fd) (fail errno) ctl = (refl, refl)
create_linux_keeps (done fd) (done efd) (some errno) = (refl, refl)
create_linux_keeps (done fd) (done efd) none = ((refl, refl, refl), refl)

pub create_freebsd_keeps :
    (kqueue : Outcome) (kevent : Option ℕ)
    → Accounts (opened kqueue) [] (create_freebsd kqueue kevent)
      × (is_made (create_freebsd kqueue kevent) ≡ succeeds kqueue && is_none kevent)
unfolding create_freebsd valid take_over destroy of_value default_handle
create_freebsd_keeps (fail errno) kevent = (refl, refl)
create_freebsd_keeps (done fd) (some errno) = (refl, refl)
create_freebsd_keeps (done fd) none = ((refl, refl, refl), refl)

-- On Windows, `detail::wsa`: the answer of `WSAStartup` and the version it gives, a word of 16 bits.
unfoldable pub wsa : ℕ → ℕ → Option SystemError
wsa rc version =
    let major = version % 2 ^ 8 in
    let minor = version / 2 ^ 8 % 2 ^ 8 in
    if not (rc == 0)
    then some (system_error (of_integral (pos rc)))
    else if ltb major 2 || ((major == 2) && ltb minor 2)
    then some (system_error (of_errc Errc.version))
    else none

-- The versions from 2.2 on, in the order of versions.
pub wsa_accepts :
    (version : ℕ)
    → (wsa 0 version ≡ none) ↔ (2 * 2 ^ 8 + 2 ≤ version % 2 ^ 8 * 2 ^ 8 + version / 2 ^ 8 % 2 ^ 8)
unfolding wsa
wsa_accepts version = ground arith
