-- ===== src/Net/Ssh/Reading.antt =====
-- include/ice/net/ssh/channel.h and src/ice/net/ssh/channel.cpp: an object of the channel, with its buffer,
-- and the views into the buffer that `read` gives out. A channel of the library is its address, and null
-- is 0; a view is the number of bytes from the start of the buffer on.
use ice_test.Base.{
  ℕ, zero, suc, ◌%◌, ◌^◌, ◌<◌, ◌≤◌, ◌≡◌, refl, List, [], ◌∷◌, ◌++◌, take, drop, length, overwrite,
  length-overwrite, take-overwrite, take-append, Option, none, some, if◌then◌else◌, ap,
}
use ice_test.Base.Equality.{number_comparable}
use ice_test.Base.Int.{ℤ, negsuc, ◌==ℤ◌, ==ℤ_iff}
use ice_test.Handle.{Handle, of_value, move, destroy}
use ice_test.Net.Socket.{rounds}
use ice_test.Net.Socket.Rounds.{rounds_end}
use ice_test.Net.Ssh.{Answer, co_returns, co_throws}

-- `ssh::stream`
pub data Stream : Type 0 where
  out err : Stream

-- The number of a stream for the library, where `SSH_EXTENDED_DATA_STDERR` is 1.
abbrev pub stream_id : Stream → ℕ
stream_id Stream.out = 0
stream_id Stream.err = 1

-- `ssh::channel`: the two references are addresses.
pub record Channel : Type 0 where
  pub handle_ : Handle ℕ
  pub socket_ : ℕ
  pub transport_ : ℕ
  pub buffer_ : List ℕ

-- `std::vector<char>::resize`
unfoldable pub resized : ℕ → List ℕ → List ℕ
resized zero bytes = []
resized (suc n) [] = 0 ∷ resized n []
resized (suc n) (b ∷ bytes) = b ∷ resized n bytes

-- `channel(handle_type handle, ice::net::tcp::socket& socket, ssh::transport& transport)`
unfoldable pub new_channel : Handle ℕ → (socket transport : ℕ) → Channel
unfolding move resized
new_channel handle socket transport = record {
  handle_ = (move 0 handle).0;
  socket_ = socket;
  transport_ = transport;
  buffer_ = resized 1024 [];
}

-- The end of `session::open`, with the handle that its loop has come to.
unfoldable pub opened : (socket transport : ℕ) → Answer ℕ → Answer Channel
unfolding of_value new_channel
opened socket transport (co_returns channel) =
    co_returns (new_channel (of_value channel) socket transport)
opened socket transport (co_throws error) = co_throws error

-- `resize`
unfoldable pub resize : ℕ → Channel → Channel
unfolding resized
resize size c = record c { buffer_ = resized size c.buffer_ }

-- `channel(channel&& other)`: the new channel, and `other` afterwards.
unfoldable pub move_channel : Channel → Channel × Channel
unfolding move
move_channel other =
    let (handle_, rest) = move 0 other.handle_ in
    (record other { handle_ = handle_ }, record other { handle_ = rest; buffer_ = [] })

-- `~channel`, with the log of the channels given back to the library.
unfoldable pub destroy_channel : Channel → List ℕ → List ℕ
unfolding destroy
destroy_channel c freed = destroy 0 c.handle_ freed

-- What `libssh2_channel_process_startup` is given: the texts, and their sizes as `unsigned`.
pub record StartUp : Type 0 where
  pub request : List ℕ
  pub request_size : ℕ
  pub text : List ℕ
  pub text_size : ℕ

unfoldable pub start_up : (request command : List ℕ) → StartUp
start_up request command = record {
  request = request;
  request_size = length request % 2 ^ 32;
  text = command;
  text_size = length command % 2 ^ 32;
}

-- `exec(command)` is `exec("exec", command)`.
unfoldable pub start_up_exec : (command : List ℕ) → StartUp
unfolding start_up
start_up_exec command = start_up (b'e' ∷ b'x' ∷ b'e' ∷ b'c' ∷ []) command

-- What `libssh2_channel_read_ex` answers: the bytes that it has written to the start of the buffer, or a
-- negative number.
pub data ReadEx : Type 0 where
  reads : List ℕ → ReadEx
  refuses : ℕ → ReadEx

-- What a view shows, by the buffer as it is then.
abbrev pub view : Channel → ℕ → List ℕ
view c size = take size c.buffer_

module _ (eagain : ℤ) (read_ex : (round id size : ℕ) → ReadEx) where
  -- The body of the loop of `channel::read`.
  abbrev pub read_round : ReadEx → Option (Answer (List ℕ))
  read_round (reads bytes) = some (co_returns bytes)
  read_round (refuses n) =
      if negsuc n ==ℤ eagain then none else some (co_throws (record { code = negsuc n }))

  -- The end of the loop: the channel, and the size of the view.
  abbrev pub read_ended : Channel → Answer (List ℕ) → Channel × Answer ℕ
  read_ended c (co_throws error) = (c, co_throws error)
  read_ended c (co_returns bytes) =
      (record c { buffer_ = overwrite bytes c.buffer_ }, co_returns (length bytes))

  unfoldable pub read : ℕ → Stream → Channel → Option (Channel × Answer ℕ)
  read fuel stream c =
      elim (rounds read_round (λ i. read_ex i (stream_id stream) (length c.buffer_)) 0 fuel) [
        | none ↦ none
        | some answer ↦ some (read_ended c answer)
      ]

  module _ (j fuel n : ℕ) (stream : Stream) (c : Channel) (bytes : List ℕ)
      (again : negsuc n ≡ eagain)
      (before : (i : ℕ) → i < j → read_ex i (stream_id stream) (length c.buffer_) ≡ refuses n)
      (last : read_ex j (stream_id stream) (length c.buffer_) ≡ reads bytes)
      (fits : length bytes ≤ length c.buffer_) (enough : j < fuel) where
    waits_at : (i : ℕ) → i < j → read_round (read_ex i (stream_id stream) (length c.buffer_)) ≡ none
    waits_at i lt = rw (before i lt, (==ℤ_iff (negsuc n) eagain).1 again) refl

    read_lem :
        read fuel stream c
        ≡ some (record c { buffer_ = overwrite bytes c.buffer_ }, co_returns (length bytes))
    unfolding read
    read_lem =
        rw
          (
            rounds_end read_round (λ i. read_ex i (stream_id stream) (length c.buffer_)) j
                (co_returns bytes) waits_at (ap read_round last) fuel enough,
            read,
          )
          refl

    -- If j calls of libssh2_channel_read_ex ask to be called again and the next one writes bytes
    -- that the buffer has room for, then more than j rounds are enough for read, and it returns a
    -- view that shows just these bytes, in a buffer of the same size; a view of m bytes that was
    -- given out before then shows the first m of the new bytes, and after them what it showed there
    -- before. The call is given the number of the stream and the size of the buffer.
    pub read_views :
        (c' : Channel) × (read fuel stream c ≡ some (c', co_returns (length bytes)))
        × (view c' (length bytes) ≡ bytes)
        × (length c'.buffer_ ≡ length c.buffer_)
        × (c'.handle_ ≡ c.handle_)
        × ((m : ℕ) → view c' m ≡ take m bytes ++ drop (length bytes) (view c m))
    read_views = (
      record c { buffer_ = overwrite bytes c.buffer_ },
      read_lem,
      take-append bytes (drop (length bytes) c.buffer_),
      length-overwrite bytes c.buffer_ fits,
      refl,
      λ m. take-overwrite m bytes c.buffer_,
    )
