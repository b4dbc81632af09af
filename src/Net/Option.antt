-- ===== src/Net/Option.antt =====
-- include/ice/net/option.h and src/ice/net/option.cpp: the values of socket options, and where they belong.
pub mod Values
mod Examples
use ice_test.Base.{ℕ, ◌-◌, ◌^◌, Bool, true, false, Option, none, some, ltb, if◌then◌else◌, ◌==◌}
use ice_test.Base.Int.{ℤ, pos, negsuc, ltb_ℤ, ◌==ℤ◌}
use ice_test.ErrorCode.{to_int}

-- `std::numeric_limits<int>::max()` and `min()`
abbrev pub int_max : ℕ
int_max = 2 ^ 31 - 1

abbrev pub int_min : ℤ
int_min = negsuc int_max

-- The `int` whose bit pattern is the number.
abbrev pub of_pattern : ℕ → ℤ
of_pattern w = if ltb w (2 ^ 31) then pos w else negsuc (2 ^ 32 - 1 - w)

-- `sizeof(int)` and `sizeof(::linger)`
abbrev pub int_size : ℕ
int_size = 4

-- `option_value<bool>` and `option_value<std::size_t>`
pub record OptionValue : Type 0 where
  pub value_ : ℤ
  pub size_ : ℕ

unfoldable pub of_bool : Bool → OptionValue
of_bool value = record { value_ = if value then pos 1 else pos 0; size_ = int_size }

unfoldable pub get_bool : OptionValue → Bool
get_bool o = if o.value_ ==ℤ pos 0 then false else true

unfoldable pub of_size : ℕ → OptionValue
of_size value =
    if ltb int_max value
    then record { value_ = pos int_max; size_ = int_size }
    else record { value_ = of_pattern (to_int (pos value)); size_ = int_size }

unfoldable pub get_size : OptionValue → ℕ
get_size o = elim o.value_ [ pos n ↦ n | negsuc n ↦ 0 ]

-- `::linger`
pub record Linger : Type 0 where
  pub l_onoff : ℤ
  pub l_linger : ℤ

-- `option::linger::linger`: the three assignments in order.
unfoldable pub of_timeout : Option ℤ → Linger
of_timeout none = record { l_onoff = pos 0; l_linger = pos 0 }
of_timeout (some count) =
    let made : Linger = record { l_onoff = pos 1; l_linger = pos 0 } in
    let made = if ltb_ℤ count int_min then record made { l_linger = pos 0 } else made in
    let made = if ltb_ℤ (pos int_max) count then record made { l_linger = pos int_max } else made in
    record made { l_linger = of_pattern (to_int count) }

unfoldable pub get_timeout : Linger → Option ℤ
get_timeout l = if l.l_onoff ==ℤ pos 0 then none else some l.l_linger

-- The classes of options.
pub data Kind : Type 0 where
  broadcast do_not_route keep_alive linger no_delay recv_buffer_size send_buffer_size
        recv_low_watermark send_low_watermark reuse_address :
      Kind

-- The constants of <sys/socket.h> and <netinet/tcp.h>.
pub data Level : Type 0 where
  sol_socket ipproto_tcp : Level

pub data Name : Type 0 where
  so_broadcast so_dontroute so_keepalive so_linger tcp_nodelay so_rcvbuf so_sndbuf so_rcvlowat
        so_sndlowat so_reuseaddr :
      Name

-- `level`, where `win32` tells the build.
unfoldable pub level : Bool → Kind → Level
level win32 no_delay = if win32 then ipproto_tcp else sol_socket
level win32 _ = sol_socket

unfoldable pub name : Kind → Name
name broadcast = so_broadcast
name do_not_route = so_dontroute
name keep_alive = so_keepalive
name linger = so_linger
name no_delay = tcp_nodelay
name recv_buffer_size = so_rcvbuf
name send_buffer_size = so_sndbuf
name recv_low_watermark = so_rcvlowat
name send_low_watermark = so_sndlowat
name reuse_address = so_reuseaddr
