-- ===== src/Tcp.antt =====
-- The transport of the network stack: servers/tcpip/tcp.c and tcp.h, servers/tcpip/checksum.h and
-- libs/common/endian.h.
pub mod Wire
pub mod Header
pub mod Checksum
pub mod State
pub mod Ops
pub mod Window
pub mod Ports
pub mod Sockets
pub mod Receive
pub mod Open
pub mod Reach
pub mod Arrive
pub mod Traffic
pub mod Tests
