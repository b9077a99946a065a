-- ===== src/Tcp.antt =====
-- src/include/tcp_flow.h: the TCP flow, one module for each group of its functions.
pub mod Deframe
pub mod Flow
pub mod Send
pub mod Options
pub mod Receive
pub mod Connection
pub mod Invariant
pub mod Handshake
pub mod Messages
pub mod Timer
mod Tests
