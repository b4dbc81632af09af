-- ===== src/Lib.antt =====
-- ice, a C++ framework for network programs over coroutines, and the HTTP responder that uses it.
--
-- The parts. A program makes one `ice::context` (include/ice/context.h, src/ice/context.cpp) and
-- calls its `run` from one or more threads. An operation on a socket is an `ice::event`
-- (include/ice/event.h, src/ice/event.cpp): a coroutine awaits it, the operation tries a system
-- call, and if the call would block, registers with epoll; the loop of `run` then gets the report,
-- tries again and resumes the coroutine. Sockets (src/ice/net) are such operations over a
-- descriptor that an `ice::handle` owns (include/ice/handle.h), with addresses (endpoint), options
-- and, on top, a client of libssh2 (src/ice/net/ssh). Errors are packed into an `ice::error_code`
-- (include/ice/error.h). src/main.cpp serves HTTP clients and orders its responses by an
-- `ice::async_mutex` (include/ice/async.h).
--
-- Which module is about which code, and how the state corresponds:
--   Base       names of the libraries, tests on numbers, lists, signed integers, bits, and the
--              interface of types with a decidable equality, which Handle takes.
--   ErrorCode  include/ice/error.h: the bit pattern of the code, its two fields and the
--              comparisons.
--   Message    src/ice/error.cpp: Entries the texts of the std::errc constants in the order in
--              which they are tested, Text the clean-up of a text of the system, Category the
--              messages and `format`.
--   Event      include/ice/event.h, src/ice/event.cpp: an event is a record with the log of the
--              calls of epoll_ctl. Await has the way of a coroutine through `await_ready`,
--              `suspend` and `resume` for any operation; Stages and Ends are the arguments by
--              stages and for termination that the operations below instantiate, Registration the
--              one about epoll; Kqueue the registration of FreeBSD, and OneShot the way of a
--              coroutine there.
--   Context    src/ice/context.cpp: the word `state_`, the event that wakes threads up, and any
--              number of threads in `run`, `stop`, `interrupt` and `schedule` as interleaved steps,
--              each with the kind of its move: at work, a call that fails, or `schedule`. Drain has
--              what a stop comes to, and Lost how `schedule` takes the event from it; Packets and
--              Emptied have the packets that wake threads up on Windows. Loop is the loop of `run`
--              in one thread, by batches; Create the constructor; Schedule the event `schedule`,
--              and Port its variant on Windows.
--   Handle     include/ice/handle.h: one handle, and a program with many of them, named by index;
--              Draft the earlier one in res/handle.cpp, with Deleters for what a deleter of its own
--              adds.
--   Utility    include/ice/utility.h, src/ice/utility.cpp: thread-local storage over the keys of
--              the system; Threads has which thread is in which `run`, as Context.Current uses it.
--   Net        src/ice/net: Errno the error numbers and what POSIX promises; Endpoint; Option;
--              Socket with its loops on EINTR, and in Socket.Options `get` and `set` with the
--              object of an option; Tcp with send and send_some, Tcp.Receive with recv and accept,
--              Tcp.Connect with connect; Udp; Ssh with the loops around libssh2, its callbacks
--              (Transport), its set-up (Session), its channel with a buffer (Reading) and the texts
--              of its errors (Errors). Freebsd compares the operations there with those of Linux,
--              and what they register for; Windows has the operations of tcp/socket.cpp and
--              udp/socket.cpp as overlapped calls: Stream, Datagram and Acceptance, and the set-up
--              of a socket (Creation); send of a stream socket there is Tcp.Overlapped.
--   Mutex      the interface of the async_mutex that include/ice/async.h copies from cppcoro: a
--              mutex with its steps, and in IsMutex what is relied on; Lawful and Fair are what
--              follows from that, who holds the lock and who comes first, and Line is the plainest
--              mutex of this kind.
--   Server     src/main.cpp: the recognition of requests in `handle`; Startup has `server`, which
--              accepts clients, and `main`, which starts it and runs the context: it joins Context
--              and the loop of `run`. Responses joins the steps of a mutex, which is a parameter,
--              and the writes of the coroutines of `respond` on one client, Turns and Orderly have
--              what that client gets, and Delivered joins them to the send of Net.Tcp; Waits is
--              about the lock that `handle` takes at its end, Answers about a whole conversation,
--              and Texts has what is printed.
--
-- Conventions. The build is that of Linux, 64 bits, little-endian, but for the parts that say
-- Windows or FreeBSD. An `int` or a word is its bit pattern, a number below 2 ^ 32 or 2 ^ 64, and
-- wraps around as written. A pointer into a buffer is an offset, a coroutine is what it awaits or a
-- number. What the kernel, inet_pton, the C library and libssh2 answer is a parameter, indexed by
-- time or by round; `IsPosix` and `IsWindows` say what is relied on: an error number is positive
-- and below 2 ^ 28, and a transfer does not pass the size asked for; `IsKeys` is about the keys of
-- threads, `IsMutex` about the mutex, `IsSwitch` about the options that are on or off. Records such
-- as `wire`, `closed` or `calls` are logs that the code does not have.
--
-- Bounds and fuel. `await_all n` of Event and of Net.Windows lets the kernel report at most n
-- times; the theorems on termination give an n that is enough. `rounds`, `run_loop`, `suspend`,
-- `accept_suspend` on Windows and `write_from` take the number of rounds as fuel and give `none`
-- when it is used up; with j rounds that ask for another, j + 1 are enough. The threads of a
-- context are fewer than 2 ^ 31, the range of the count in its word. `IsTimely` admits an interrupt
-- that fails and an await of `schedule` before a stop is requested only, as after it they lose the
-- request (Context.Lost). The data of a send is shorter than 2 ^ 64 bytes. The other recursions are
-- structural.
--
-- Not modelled: the tasks, the generators and the mutex in include/ice/async.h, which are an
-- adapted copy of cppcoro; the guard in include/ice/scope.h, from GSL; the templates around the
-- deleter in res/handle.cpp; the benchmark and test drivers. Memory is sequentially consistent, and
-- the memory orders of the atomic accesses are not modelled. Memory for strings and vectors does
-- not run out.
pub mod Base
pub mod ErrorCode
pub mod Mutex
pub mod Handle
pub mod Utility
pub mod Message
pub mod Event
pub mod Context
pub mod Net
pub mod Server
