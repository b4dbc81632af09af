-- ===== src/Net.antt =====
-- include/ice/net and src/ice/net: sockets and what is done with them, on Linux.
pub mod Errno
pub mod Option
pub mod Endpoint
pub mod Socket
pub mod Tcp
pub mod Udp
pub mod Ssh
pub mod Windows
pub mod Freebsd
